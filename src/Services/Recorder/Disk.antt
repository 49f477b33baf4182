-- ===== src/Services/Recorder/Disk.antt =====
-- The disk thread: `write_to_disk` and what it calls.
use on_air_record.Base.{
  ℕ, ◌+◌, ◌*◌, max, Bool, true, false, Option, none, some, List, [], ◌∷◌, ◌++◌, length, ltb, leb,
  if◌then◌else◌,
}
use on_air_record.Base.Int.{ℤ, pos, ◌+ℤ◌, ◌-ℤ◌, leb_ℤ, abs_ℤ}
use on_air_record.Models.AudioFrame.{AudioFrame}
use on_air_record.Models.AudioFrame
use on_air_record.Services.Recorder.Health.{
  RecorderHealth, frame_written, frame_not_written, report_failure, report_recovery,
}
use on_air_record.Services.Recorder.Writer.{
  Storage, SegmentWriter, SegmentDraft, ok, err, done, failed, stored, constraint_violation,
  insert_failed, duration_ms, create, append, finish,
}

abbrev pub max_waiting_segments : ℕ
max_waiting_segments = 360

unfoldable pub discontinuity_tolerance_ms : AudioFrame → ℕ
discontinuity_tolerance_ms frame = max (AudioFrame.duration_ms frame) 20

unfoldable pub should_roll_over : Option SegmentWriter → AudioFrame → ℤ → Bool
should_roll_over none frame segment_ms = false
should_roll_over (some w) frame segment_ms =
    let expected_ms = w.started_at_ms +ℤ duration_ms w in
    if leb_ℤ segment_ms (duration_ms w)
    then true
    else ltb (discontinuity_tolerance_ms frame) (abs_ℤ (frame.timestamp_ms -ℤ expected_ms))

module _ (io : Storage) (session_id : ℕ) where
  open io use {World, segment_seconds, insert_row}

  -- The locals of `write_to_disk`, what it shares, and the rows of the segments table.
  pub record Disk : Type 0 where
    pub world : World
    pub writer : Option SegmentWriter
    pub sequence : ℕ  -- i64
    pub waiting : List SegmentDraft
    pub health : RecorderHealth
    pub segments_written : ℕ
    pub index : List SegmentDraft

  -- The loop over the front of the queue; the list is what waits.
  unfoldable pub index_waiting : Disk → List SegmentDraft → Disk
  index_waiting d [] = record d {
    waiting = [];
    health = record d.health { indexing = report_recovery };
  }
  index_waiting d (draft ∷ rest) =
      let (answer, world) = insert_row d.world draft in
      elim answer [
        | stored ↦
            index_waiting
              (record d {
                world = world;
                segments_written = d.segments_written + 1;
                index = d.index ++ draft ∷ [];
              })
              rest
        | constraint_violation ↦ index_waiting (record d { world = world }) rest
        | insert_failed message ↦ record d {
          world = world;
          waiting = draft ∷ rest;
          health = record d.health { indexing = report_failure message };
        }
      ]

  -- The oldest is given up when the queue is full.
  abbrev pub pop_front : List SegmentDraft → List SegmentDraft
  pop_front [] = []
  pop_front (_ ∷ rest) = rest

  unfoldable pub enqueue : List SegmentDraft → SegmentDraft → List SegmentDraft
  enqueue waiting draft =
      (if leb max_waiting_segments (length waiting) then pop_front waiting else waiting)
      ++ draft ∷ []

  -- `writer.take()` is part of the call.
  unfoldable pub close_writer : Disk → Option SegmentWriter → Disk
  close_writer d none = record d { writer = none }
  close_writer d (some w) =
      let (result, world) = finish io d.world w in
      let closed = record d { writer = none; world = world } in
      elim result [
        | ok none ↦ closed
        | ok (some draft) ↦ record closed { waiting = enqueue d.waiting draft }
        | err message ↦ record closed {
          health = record d.health { writing = report_failure message };
        }
      ]

  unfoldable pub close_segment : Disk → Disk
  close_segment d = let closed = close_writer d d.writer in index_waiting closed closed.waiting

  -- `ensure_open` and `append_frame` are the two halves of the loop's body after the roll over.
  unfoldable pub append_frame : Disk → Option SegmentWriter → AudioFrame → Disk
  append_frame d none frame = d
  append_frame d (some w) frame =
      let (written, w', world) = append io d.world w frame in
      let appended = record d { writer = some w'; world = world } in
      elim written [
        | done ↦ record appended {
          health = record (frame_written d.health) { writing = report_recovery };
        }
        | failed message ↦ close_segment (record appended {
          health = record (frame_not_written d.health) { writing = report_failure message };
        })
      ]

  unfoldable pub ensure_open : Disk → Option SegmentWriter → AudioFrame → Disk
  ensure_open d (some w) frame = append_frame d (some w) frame
  ensure_open d none frame =
      let (opened, world) = create io d.world session_id d.sequence frame in
      elim opened [
        | ok w ↦
            append_frame (record d { writer = some w; world = world; sequence = d.sequence + 1 })
              (some w) frame
        | err message ↦ record d {
          world = world;
          health = record (frame_not_written d.health) { writing = report_failure message };
        }
      ]

  -- The body of the loop for one frame.
  unfoldable pub write_frame : Disk → AudioFrame → Disk
  write_frame d frame =
      let segment_ms = pos (segment_seconds d.world * 1000) in
      let rolled = if should_roll_over d.writer frame segment_ms then close_segment d else d in
      ensure_open rolled rolled.writer frame

  unfoldable pub write_frames : Disk → List AudioFrame → Disk
  write_frames d [] = d
  write_frames d (frame ∷ frames) = write_frames (write_frame d frame) frames

  unfoldable pub write_to_disk : World → RecorderHealth → List SegmentDraft → List AudioFrame → Disk
  write_to_disk world health index frames = close_segment (
      write_frames
        (record {
          world = world;
          writer = none;
          sequence = 0;
          waiting = [];
          health = health;
          segments_written = 0;
          index = index;
        })
        frames)
