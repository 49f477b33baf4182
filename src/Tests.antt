-- ===== src/Tests.antt =====
-- Runs of the model at concrete inputs, and each theorem at an input that meets its hypotheses.
mod Capture
mod Recorder
mod Sounds
mod Models
mod Services
mod Stream
mod Session
mod Export
mod SignIn
mod Settings
mod CaptureLife
mod Segments
mod Accounts
