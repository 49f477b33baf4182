-- ===== src/Services.antt =====
-- The services of backend/src/services.
pub mod Hub
pub mod Recorder
pub mod Auth
pub mod Playback
pub mod Listeners
pub mod Retention
pub mod Export
pub mod Capture
