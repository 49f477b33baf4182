-- ===== src/Models/Segment.antt =====
-- backend/src/models/segment.rs: a closed chunk of recorded audio and its index entry. A row may be
-- damaged, so the byte length may be negative and a row may end before it starts.
pub mod Seek
pub mod Coverage
use Prim.Native.String.{String}
use on_air_record.Base.{ℕ, ◌+◌, ◌*◌, ◌/◌, min, max, Bool, ◌&&◌, List, if◌then◌else◌, ◌==◌}
use on_air_record.Base.Int.{ℤ, pos, ◌+ℤ◌, ◌-ℤ◌, max_ℤ, min_ℤ, leb_ℤ, ltb_ℤ, pos_part}

abbrev pub i64_max : ℕ
i64_max = 9223372036854775807

-- `saturating_mul` of two i64 that are not negative.
unfoldable pub saturating_mul : ℕ → ℕ → ℕ
saturating_mul a b = min (a * b) i64_max

pub record TimeRange : Type 0 where
  pub start_ms : ℤ
  pub end_ms : ℤ

unfoldable pub contains : TimeRange → ℤ → Bool
contains r timestamp_ms = leb_ℤ r.start_ms timestamp_ms && ltb_ℤ timestamp_ms r.end_ms

unfoldable pub overlaps : TimeRange → TimeRange → Bool
overlaps r other = ltb_ℤ r.start_ms other.end_ms && ltb_ℤ other.start_ms r.end_ms

pub record Segment : Type 0 where
  pub id : ℕ
  pub session_id : ℕ
  pub sequence : ℕ
  pub day : String
  pub path : String
  pub started_at_ms : ℤ
  pub ended_at_ms : ℤ
  pub sample_rate : ℕ  -- u32
  pub channels : ℕ  -- u16
  pub byte_len : ℤ
  pub peaks : List ℕ

abbrev pub range : Segment → TimeRange
range s = record { start_ms = s.started_at_ms; end_ms = s.ended_at_ms }

unfoldable pub bytes_per_sample_frame : Segment → ℕ
bytes_per_sample_frame s = 2 * max s.channels 1

-- Milliseconds from the start of the segment; the moment is at or after the start.
unfoldable pub elapsed_ms : Segment → ℤ → ℕ
elapsed_ms s timestamp_ms =
    let clamped = max_ℤ (min_ℤ timestamp_ms s.ended_at_ms) s.started_at_ms in
    pos_part (clamped -ℤ s.started_at_ms)

-- The bound by zero is `pos_part`.
unfoldable pub byte_offset_for : Segment → ℤ → ℕ
byte_offset_for s timestamp_ms =
    let sample_index = saturating_mul (elapsed_ms s timestamp_ms) s.sample_rate / 1000 in
    let offset = saturating_mul sample_index (bytes_per_sample_frame s) in
    pos_part (min_ℤ (pos offset) s.byte_len)

-- For an offset that is not negative, as every read head's is.
unfoldable pub timestamp_for_offset : Segment → ℕ → ℤ
timestamp_for_offset s byte_offset =
    let sample_index = byte_offset / bytes_per_sample_frame s in
    if s.sample_rate == 0
    then s.started_at_ms
    else s.started_at_ms +ℤ pos (sample_index * 1000 / s.sample_rate)
