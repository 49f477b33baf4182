-- ===== src/Audio/Sounds.antt =====
-- backend/src/audio/activity.rs: where something was heard. The envelope's levels are bytes.
pub mod Floor
pub mod Percentile
pub mod Detect
pub mod Bounds
pub mod Stretches
