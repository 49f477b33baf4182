-- ===== src/Services/Recorder/Writer.antt =====
-- SegmentWriter of backend/src/audio/segment_writer.rs, over a file system that the recorder does
-- not control: `Storage` is that file system, the index's answer to an insert and the settings, as
-- the recorder sees them. Where the file lies (day and path) and its envelope are left out.
use Prim.Native.String.{String}
use on_air_record.Base.{ℕ, ◌+◌, Bool, Option, none, some, List, length, if◌then◌else◌, ◌==◌}
use on_air_record.Base.Int.{ℤ, pos, ◌-ℤ◌, max_ℤ}
use on_air_record.Models.AudioFrame.{AudioFrame, end_timestamp_ms, to_le_bytes}

-- An input or output call that returns nothing but may fail.
pub data Attempt : Type 0 where
  done : Attempt
  failed : String → Attempt

pub record SegmentDraft : Type 0 where
  pub session_id : ℕ
  pub sequence : ℕ
  pub started_at_ms : ℤ
  pub ended_at_ms : ℤ
  pub sample_rate : ℕ
  pub channels : ℕ
  pub byte_len : ℕ

-- The index's answer to an insert: stored, refused by a constraint, or failed for now.
pub data Insert : Type 0 where
  stored : Insert
  constraint_violation : Insert
  insert_failed : String → Insert

-- Each call may answer as it likes, and changes the world in ways that the recorder does not see.
pub record Storage : Type 1 where
  pub World : Type 0
  pub segment_seconds : World → ℕ
  pub create_file : World → ℕ → ℕ → Attempt × World
  pub write_all : World → List ℕ → Attempt × World
  pub flush : World → Attempt × World
  pub file_deleted : World → Bool
  pub insert_row : World → SegmentDraft → Insert × World

pub record SegmentWriter : Type 0 where
  pub session_id : ℕ
  pub sequence : ℕ
  pub started_at_ms : ℤ
  pub last_end_ms : ℤ
  pub byte_len : ℕ  -- i64
  pub sample_rate : ℕ
  pub channels : ℕ

abbrev pub duration_ms : SegmentWriter → ℤ
duration_ms w = max_ℤ (w.last_end_ms -ℤ w.started_at_ms) (pos 0)

abbrev pub opened : ℕ → ℕ → AudioFrame → SegmentWriter
opened session_id sequence first_frame = record {
  session_id = session_id;
  sequence = sequence;
  started_at_ms = first_frame.timestamp_ms;
  last_end_ms = first_frame.timestamp_ms;
  byte_len = 0;
  sample_rate = first_frame.sample_rate;
  channels = first_frame.channels;
}

abbrev pub appended : SegmentWriter → AudioFrame → SegmentWriter
appended w frame = record w {
  byte_len = w.byte_len + length (to_le_bytes frame);
  last_end_ms = end_timestamp_ms frame;
}

abbrev pub draft_of : SegmentWriter → SegmentDraft
draft_of w = record {
  session_id = w.session_id;
  sequence = w.sequence;
  started_at_ms = w.started_at_ms;
  ended_at_ms = w.last_end_ms;
  sample_rate = w.sample_rate;
  channels = w.channels;
  byte_len = w.byte_len;
}

-- A value or the message of the error.
pub data Result (A : Type 0) : Type 0 where
  ok : A → Result A
  err : String → Result A

module _ (io : Storage) where
  open io use {World, create_file, write_all, flush, file_deleted}

  abbrev pub create : World → ℕ → ℕ → AudioFrame → Result SegmentWriter × World
  create world session_id sequence first_frame =
      let (made, world') = create_file world session_id sequence in
      (
        elim made [
          | done ↦ ok (opened session_id sequence first_frame)
          | failed message ↦ err message
        ],
        world',
      )

  -- On an error the writer is as it was, and the caller closes it.
  abbrev pub append : World → SegmentWriter → AudioFrame → Attempt × SegmentWriter × World
  append world w frame =
      let (written, world') = write_all world (to_le_bytes frame) in
      (written, elim written [ done ↦ appended w frame | failed _ ↦ w ], world')

  -- `none` is a segment that never received a frame: its file is removed.
  abbrev pub finish : World → SegmentWriter → Result (Option SegmentDraft) × World
  finish world w =
      let (flushed, world') = flush world in
      (
        elim flushed [
          | failed message ↦ err message
          | done ↦
              if w.byte_len == 0
              then ok none
              else if file_deleted world'
              then err "deleted while it was being written"
              else ok (some (draft_of w))
        ],
        world',
      )
