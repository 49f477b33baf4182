-- ===== src/Services/Auth.antt =====
-- backend/src/services/auth_service.rs.
pub mod Throttle
pub mod Challenges
pub mod SignIn
pub mod Accounts
