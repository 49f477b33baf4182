-- ===== src/Services/Capture.antt =====
-- backend/src/services/capture_service.rs: the life of a capture. The transition lock makes each start and
-- each stop one step; the snapshot's lock is never poisoned. What a device, the database, the clock
-- and the thread builder answer during a start is in `Surroundings`. Log lines, the meters of the
-- hub and the folder of the segments are left out.
pub mod Threads
pub mod State
pub mod Start
pub mod Operations
pub mod Rows
pub mod View
pub mod Coupled
pub mod Outcome
pub mod Histories
