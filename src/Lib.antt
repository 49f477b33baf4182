-- ===== src/Lib.antt =====
-- On Air Record's server (backend/src): it records a microphone without a break, broadcasts it live,
-- and plays back any moment of it.
--
-- The parts, and the file that models each:
-- * Capture. The samples of the device callback become frames of one size, stamped by the wall clock:
--   audio/frame_builder.rs (FrameBuilder: push, flush, correct_drift) and models/audio_frame.rs, in
--   Audio/FrameBuilder and Models/AudioFrame. The frames that a call emits are a list beside the state.
-- * Recording. services/recorder_service.rs runs two threads. The live loop `run` hands each frame to
--   the hub (services/broadcast_hub.rs, Services/Hub) and then to the disk thread, which never makes it
--   wait: Services/Recorder/Live, where what the channels answer is part of each event. The disk thread
--   `write_to_disk` writes segment files (audio/segment_writer.rs, Services/Recorder/Writer) and indexes
--   them, and keeps rows that the index refused for later: Services/Recorder/Disk. What both report is
--   in Services/Recorder/Health. Rules and Run hold the induction that the three theorems on the disk
--   thread share; Counts, Unbroken and Order hold the theorems.
-- * The capture's life. services/capture_service.rs opens a device, files a session and wires the recorder,
--   each stage undoing those before it: Services/Capture, with the state in State, `start` in Start, the
--   other operations in Operations, and the threads by number in Threads. View says what the handles, the
--   snapshot, the threads and the rows have to do with each other. models/session.rs and
--   models/capture_state.rs are in Models/Session; error.rs is in Error.
-- * The tables. What the statements of repositories/session_repository.rs, segment_repository.rs and
--   auth_repository.rs do to the rows: Repositories/Sessions, Segments and Accounts.
-- * The file system, the index's inserts and the setting of the segment length are one interface,
--   Storage in Services/Recorder/Writer: a state that only its own calls change, with any answer to
--   each call. The theorems on the disk thread hold for every such storage.
-- * Seeking and playback. models/segment.rs turns a moment into a byte offset (Models/Segment);
--   merge_ranges of repositories/segment_repository.rs makes the timeline's bands (Models/Segment/Coverage);
--   services/playback_service.rs reads from there, over gaps and unreadable files (Services/Playback).
--   What the segment repository and the files answer is the interface Library, which
--   Repositories/Segments fills from the table.
-- * Sounds. audio/activity.rs finds what stands out from the room's noise: Audio/Sounds, with the noise
--   floor in Floor, the detector in Detect.
-- * Sign in. LoginThrottle of services/auth_service.rs in Services/Auth/Throttle, and the challenges that
--   wait for the second factor's code in Services/Auth/Challenges; log_in, verify_second_factor and the
--   check of a code (services/totp.rs) in Services/Auth/SignIn, over the interface Repository. The making,
--   changing and removing of accounts, over the tables of Repositories/Accounts, in Services/Auth/Accounts.
-- * Settings. models/settings.rs: the ranges of every write and the partial update, in Models/Settings.
-- * The stream. ws/protocol.rs frames a message for a listener: Ws/Protocol. ws/session.rs with
--   ws/messages.rs is one listener's connection: Ws/Session holds its variables, the messages and the
--   small functions; Commands what a client may ask for and the driving of playback; Loop one turn of
--   the loop over the events of `select!`, and the states it can come to. A session calls the cursor of
--   Services/Playback and the access rule of models/user.rs (Models/Access); what the rest of the
--   program answers during an event, the socket included, is the record World.
-- * Retention. services/retention_service.rs deletes what has aged out, page by page, with the two SQL
--   statements of repositories/segment_repository.rs that it calls: Services/Retention. Pages, Pass and
--   Sweeps hold the induction, Complete the theorems.
-- * Export. services/export_service.rs plans a WAV file and writes it by driving the playback cursor:
--   Services/Export, with the header of audio/wav.rs in Audio/Wav.
-- * Updates. The order of versions in models/update.rs: Models/Update.
-- * Listeners. services/listener_registry.rs with models/listener.rs: Services/Listeners.
-- * The activity log. models/activity.rs: the events and the filter in Models/Activity, the tally of a
--   listening session in Models/Activity/Tally.
-- Base holds what these share: tests on numbers, lists, maps and integers. Tests runs the models on
-- concrete values.
--
-- Numbers. Timestamps are integers that do not wrap (i64 milliseconds); the seek arithmetic keeps the
-- source's saturation. Counters of samples and frames are natural numbers, since 2 ^ 64 samples take
-- millions of years; the registry's version keeps its wrap-around. Factors that the source writes as
-- f64 are in tenths. A mutex is taken as never poisoned.
--
-- Loops. Those over samples, frames, slots and events recurse on the list. The search for a percentile
-- counts the 256 levels that are left. A step of playback makes at most the source's 16 hops and then
-- answers how far it came, as the source does, so no more fuel is needed than the code itself has.
--
-- A pass of the janitor has one page more than there are rows, which is enough. The steps of an export
-- are a bound that its caller gives; to reach it is an ending of its own, since playback over a row that
-- has no length can repeat an empty gap.
--
-- Speeds of playback are in hundredths, and a request is a whole number of the smallest f32, 2 ^ -149;
-- the distances that clamp_speed compares are rounded to 24 bits, as f32 does. 300 doublings of the step
-- reach every finite f32. The rows of the index
-- stand in the order of (ended_at_ms, id), with distinct ids, where the janitor reads them.
--
-- The database. A statement is one step on the rows, since every repository shares one locked connection; an
-- AUTOINCREMENT id is one above the largest ever given. The collation of emails and the two hashes are
-- parameters, with no hypothesis on them. A generated token or password is an argument. The transition
-- lock makes each start and each stop of the capture one step.
--
-- Not modelled: HTTP, serialisation, SQL beyond the statements named above, audio devices, log lines
-- and f32 levels, which are input and output or other libraries' work; the f32 filter of the resampler,
-- a parameter of the export; and the timeline, the summary of the recorded days, and the releases
-- that an update offers.
mod Base
pub mod Error
pub mod Models
pub mod Repositories
pub mod Audio
pub mod Services
pub mod Ws
mod Tests
