-- ===== src/Tests/Recorder.antt =====
-- The disk thread of backend/src/services/recorder_service.rs over a storage that fails now and then.
use mathlib.Core.Bool.{Bool, false, true}
use on_air_record.Base.{
  ℕ, ◌+◌, ◌%◌, ◌≤◌, ◌≡◌, refl, none, List, [], ◌∷◌, ◌++◌, map, length, ◌==◌, if◌then◌else◌,
}
use on_air_record.Base.Int.{pos, ◌+ℤ◌, ◌-ℤ◌, max_ℤ}
use on_air_record.Models.AudioFrame.{
  AudioFrame, from_samples, to_le_bytes, end_timestamp_ms, duration_ms, sample_count,
}
use on_air_record.Services.Recorder.Health.{RecorderHealth, reset}
use on_air_record.Services.Recorder.Writer.{
  Storage, SegmentDraft, done, failed, stored, insert_failed,
}
use on_air_record.Services.Recorder.Disk.{
  Disk, write_to_disk, write_frames, write_frame, ensure_open, append_frame, close_segment,
  close_writer, index_waiting, enqueue, should_roll_over, discontinuity_tolerance_ms,
  max_waiting_segments,
}
use on_air_record.Services.Recorder.Counts.{counted, write_to_disk-counts}
use on_air_record.Services.Recorder.Unbroken.{Faithful, write_to_disk-unbroken}
use on_air_record.Services.Hub.{empty}
use on_air_record.Services.Recorder.Live.{
  Live, Received, frame, timeout, sent, full, IsHonest, Accounts, received, run as run_live,
  run-IsHonest, run-Accounts,
}
use on_air_record.Services.Recorder.Order.{Ascending, write_to_disk-ordered}

-- The world counts the calls. Every third write fails, and so does every fourth insert.
abbrev flaky : Storage
flaky = record {
  World = ℕ;
  segment_seconds = λ n. 1;
  create_file = λ n session sequence. (done, n + 1);
  write_all = λ n bytes. (if n % 3 == 2 then failed "disk full" else done, n + 1);
  flush = λ n. (done, n + 1);
  file_deleted = λ n. Bool.false;
  insert_row = λ n x. (if n % 4 == 3 then insert_failed "locked" else stored, n + 1);
}

frame_at : ℕ → AudioFrame
frame_at ms = from_samples (pos ms) 20 1 (pos 1 ∷ pos 2 ∷ []) Bool.true

-- 100 ms frames, one of them missing at 1300.
abbrev heard : List AudioFrame
unfolding frame_at
heard = map frame_at (1000 ∷ 1100 ∷ 1200 ∷ 1400 ∷ 1500 ∷ 1600 ∷ [])

abbrev fresh : RecorderHealth
unfolding reset
fresh = reset (record {
  frames_written = 0;
  frames_not_written = 0;
  writing = none;
  indexing = none;
  overflow = none;
})

abbrev recorded : Disk flaky 7
recorded = write_to_disk flaky 7 0 fresh [] heard

write_to_disk-counts_example :
    (counted recorded.health ≡ counted fresh + length heard)
    × (length recorded.waiting ≤ max_waiting_segments)
write_to_disk-counts_example = write_to_disk-counts flaky 7 0 fresh [] heard

write_to_disk-unbroken_example : Faithful flaky 7 [] heard recorded
write_to_disk-unbroken_example = write_to_disk-unbroken flaky 7 [] 0 fresh heard

write_to_disk-ordered_example :
    (added : List SegmentDraft) × (recorded.index ≡ [] ++ added)
    × Ascending (added ++ recorded.waiting)
write_to_disk-ordered_example = write_to_disk-ordered flaky 7 [] 0 fresh heard

-- The first segment ends where a write failed.
indexed_starts :
    map (λ x. x.started_at_ms) (recorded.index ++ recorded.waiting)
    ≡ pos 1000 ∷ pos 1200 ∷ pos 1600 ∷ []
unfolding write_to_disk write_frames write_frame ensure_open append_frame close_segment close_writer
    index_waiting enqueue should_roll_over discontinuity_tolerance_ms frame_at reset to_le_bytes
    end_timestamp_ms duration_ms sample_count ◌+ℤ◌ ◌-ℤ◌ max_ℤ
indexed_starts = refl

-- The disk thread falls behind at the second frame and catches up at the third.
abbrev awake : Live
awake = record { hub = empty; health = fresh; behind = false; to_disk = [] }

abbrev heard_live : List Received
unfolding frame_at
heard_live =
    frame (frame_at 1000) sent
    ∷ frame (frame_at 1100) full
    ∷ timeout false
    ∷ frame (frame_at 1200) sent
    ∷ timeout true
    ∷ []

run-IsHonest_example : IsHonest (run_live awake heard_live)
unfolding reset
run-IsHonest_example = run-IsHonest awake heard_live refl

run-Accounts_example : Accounts awake (received heard_live) (run_live awake heard_live)
run-Accounts_example = run-Accounts awake heard_live
