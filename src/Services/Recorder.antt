-- ===== src/Services/Recorder.antt =====
-- backend/src/services/recorder_service.rs, with the segment writer of
-- backend/src/audio/segment_writer.rs. `Health` is what the status page shows, `Writer` one open
-- segment file, `Disk` the thread that writes and indexes, `Live` the thread that never waits.
pub mod Health
pub mod Writer
pub mod Disk
pub mod Rules
pub mod Run
pub mod Counts
pub mod Unbroken
pub mod Order
pub mod Live
