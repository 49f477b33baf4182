-- ===== src/Repositories.antt =====
-- The tables of backend/src/repositories, as what their statements do to the rows.
pub mod Sessions
pub mod Segments
pub mod Accounts
