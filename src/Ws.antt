-- ===== src/Ws.antt =====
-- The audio stream of backend/src/ws.
pub mod Protocol
pub mod Session
