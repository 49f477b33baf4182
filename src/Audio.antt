-- ===== src/Audio.antt =====
-- The audio pipeline of backend/src/audio.
pub mod FrameBuilder
pub mod Sounds
pub mod Wav
