-- ===== src/Models.antt =====
-- The domain types of backend/src/models.
pub mod AudioFrame
pub mod Activity
pub mod Access
pub mod Settings
pub mod Segment
pub mod Update
pub mod Session
