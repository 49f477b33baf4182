-- ===== src/Services/Export.antt =====
-- backend/src/services/export_service.rs: the plan of an export and the writing of its file. The
-- resampler's f32 filter and the receiver of the bytes are parameters; an error is named by a
-- constructor, and the size of a usize is that of a u64.
pub mod Plan
pub mod Length
use Prim.Native.String.{String}
use on_air_record.Base.{
  ℕ, zero, suc, ◌+◌, ◌-◌, ◌*◌, ◌/◌, ◌%◌, ◌^◌, min, max, Bool, true, false, not, ◌&&◌, Option, none,
  some, List, [], ◌∷◌, ◌++◌, length, take, replicate, ltb, leb, ◌==◌, if◌then◌else◌,
}
use on_air_record.Base.Int.{ℤ, pos, ◌-ℤ◌, leb_ℤ, max_ℤ, min_ℤ, pos_part}
use on_air_record.Models.AudioFrame.{AudioFrame, sample_bytes, to_le_bytes}
use on_air_record.Models.Segment.{Segment, TimeRange}
use on_air_record.Audio.Wav.{header, header_bytes, data_bytes_for}
use on_air_record.Services.Playback.{
  Library, Answer, ok, error, CursorOutput, frame, gap, end_of_recording, PlaybackCursor, cursor_at,
  advance,
}

abbrev pub max_export_bytes : ℕ
max_export_bytes = 2147483648

abbrev pub export_frame_ms : ℕ
export_frame_ms = 1000

pub record ExportPlan : Type 0 where
  pub range : TimeRange
  pub sample_rate : ℕ
  pub channels : ℕ
  pub data_bytes : ℕ
  pub total_bytes : ℕ
  pub mixed_rates : Bool

pub data PlanError : Type 0 where
  empty_range nothing_recorded mixed_channels no_sample_rate mixed_rates_on_channels too_long :
      PlanError
  over_limit : ℕ → PlanError
  index_failed : String → PlanError

pub data Planned : Type 0 where
  planned : ExportPlan → Planned
  not_planned : PlanError → Planned

unfoldable pub duration_ms : TimeRange → ℤ
duration_ms range = max_ℤ (range.end_ms -ℤ range.start_ms) (pos 0)

abbrev pub any : (Segment → Bool) → List Segment → Bool
any test [] = false
any test (s ∷ rows) = let rest = any test rows in if test s then true else rest

-- The lowest rate of some rows and one more.
unfoldable pub lowest_rate : ℕ → List Segment → ℕ
lowest_rate rate [] = rate
lowest_rate rate (s ∷ rows) = lowest_rate (min rate s.sample_rate) rows

unfoldable pub plan_bytes : TimeRange → ℕ → ℕ → Bool → Option ℕ → Planned
plan_bytes range sample_rate channels mixed none = not_planned too_long
plan_bytes range sample_rate channels mixed (some data_bytes) =
    if ltb max_export_bytes data_bytes
    then not_planned (over_limit data_bytes)
    else planned (record {
      range = range;
      sample_rate = sample_rate;
      channels = channels;
      data_bytes = data_bytes;
      total_bytes = data_bytes + header_bytes;
      mixed_rates = mixed;
    })

unfoldable pub plan_rows : TimeRange → List Segment → Planned
plan_rows range [] = not_planned nothing_recorded
plan_rows range (first ∷ rows) =
    let channels = max first.channels 1 in
    let sample_rate = lowest_rate first.sample_rate rows in
    let mixed = any (λ s. not (s.sample_rate == sample_rate)) (first ∷ rows) in
    if any (λ s. not (max s.channels 1 == channels)) (first ∷ rows)
    then not_planned mixed_channels
    else if sample_rate == 0
    then not_planned no_sample_rate
    else if mixed && not (channels == 1)
    then not_planned mixed_rates_on_channels
    else plan_bytes range sample_rate channels mixed
        (data_bytes_for sample_rate channels (duration_ms range))

abbrev pub plan_found : TimeRange → Answer (List Segment) → Planned
plan_found range (error message) = not_planned (index_failed message)
plan_found range (ok rows) = plan_rows range rows

-- `find_in_range` is what the index answers for the range.
unfoldable pub plan : TimeRange → Answer (List Segment) → Planned
plan range found =
    if leb_ℤ (duration_ms range) (pos 0) then not_planned empty_range else plan_found range found

unfoldable pub silence : ℕ → ℕ → ℤ → List ℕ
silence sample_rate bytes_per_sample_frame duration_ms =
    if leb_ℤ duration_ms (pos 0)
    then []
    else replicate (pos_part duration_ms * sample_rate / 1000 * bytes_per_sample_frame) 0

-- Built for a rate and a lower one, or not at all; its output is in 16 bit samples.
pub record Resampling : Type 1 where
  pub Filter : Type 0
  pub build : ℕ → ℕ → Option Filter
  pub process : Filter → List ℤ → Filter × List ℤ

module _ (resampling : Resampling) where
  -- An export under way, with the bytes handed to `emit` so far and the number of its calls.
  pub record Export : Type 0 where
    pub file : List ℕ
    pub calls : ℕ
    pub written : ℕ
    pub cursor : PlaybackCursor
    pub resampler : Option (ℕ × resampling.Filter)

  abbrev pub same_rate : Option (ℕ × resampling.Filter) → ℕ → Bool
  same_rate none rate = false
  same_rate (some (built_for, active)) rate = built_for == rate

  abbrev pub built : Option resampling.Filter → ℕ → Option (ℕ × resampling.Filter)
  built none rate = none
  built (some active) rate = some (rate, active)

  -- The filter for a rate: the one in use, or a new one.
  abbrev pub filter_for :
      ExportPlan → Option (ℕ × resampling.Filter) → ℕ → Option (ℕ × resampling.Filter)
  filter_for plan resampler rate =
      if same_rate resampler rate
      then resampler
      else built (resampling.build rate plan.sample_rate) rate

  abbrev pub resample : Export → AudioFrame → Option (ℕ × resampling.Filter) → Export × List ℕ
  resample x f none = (record x { resampler = none }, to_le_bytes f)
  resample x f (some (rate, active)) =
      let (later, samples) = resampling.process active f.samples in
      (record x { resampler = some (rate, later) }, sample_bytes samples)

  unfoldable pub encode_frame : ExportPlan → Export → AudioFrame → Export × List ℕ
  encode_frame plan x f =
      if f.sample_rate == plan.sample_rate
      then (x, to_le_bytes f)
      else resample x f (filter_for plan x.resampler f.sample_rate)

  -- What the file needs next: bytes, nothing more, a last tail, or the cursor's error.
  pub data Chunk : Type 0 where
    bytes : List ℕ → Chunk
    past_end : Chunk
    tail : List ℕ → Chunk
    broken : String → Chunk

  abbrev pub frame_size : ExportPlan → ℕ
  frame_size plan = 2 * max plan.channels 1

  unfoldable pub chunk_of : ExportPlan → Export → Answer CursorOutput → Export × Chunk
  chunk_of plan x (error message) = (x, broken message)
  chunk_of plan x (ok (frame f)) =
      let (y, encoded) = encode_frame plan x f in
      if leb_ℤ plan.range.end_ms f.timestamp_ms then (x, past_end) else (y, bytes encoded)
  chunk_of plan x (ok (gap from_ms to_ms)) =
      let silent_ms = max_ℤ (min_ℤ to_ms plan.range.end_ms -ℤ from_ms) (pos 0) in
      (x, bytes (silence plan.sample_rate (frame_size plan) silent_ms))
  chunk_of plan x (ok (end_of_recording at_ms)) =
      let silent_ms = max_ℤ (plan.range.end_ms -ℤ at_ms) (pos 0) in
      (x, tail (silence plan.sample_rate (frame_size plan) silent_ms))

  pub data Ending : Type 0 where
    complete : Ending
    cancelled : Ending
    failed : String → Ending
    out_of_fuel : Ending

  -- `takes n` says whether the n-th call of `emit` is answered with true.
  module _ (library : Library) (takes : ℕ → Bool) (plan : ExportPlan) where
    unfoldable pub next_chunk : Export → Export × Chunk
    unfolding chunk_of
    next_chunk x =
        let (cursor, output) = advance library x.cursor in
        chunk_of plan (record x { cursor = cursor }) output

    unfoldable pub emit : Export → List ℕ → Export × Bool
    emit x chunk = (record x { file = x.file ++ chunk; calls = x.calls + 1 }, takes x.calls)

    -- `truncate` leaves a chunk that fits whole.
    unfoldable pub emit_truncated : Export → List ℕ → Export × Bool
    unfolding emit
    emit_truncated x [] = (x, true)
    emit_truncated x (b ∷ chunk) =
        let remaining = plan.data_bytes - x.written in
        let cut =
          if ltb remaining (length (b ∷ chunk)) then take remaining (b ∷ chunk) else b ∷ chunk in
        if remaining == 0
        then (x, false)
        else emit (record x { written = x.written + length cut }) cut

    unfoldable pub pad : Export → Export × Ending
    unfolding emit
    pad x =
        if ltb x.written plan.data_bytes
        then ((emit x (replicate (plan.data_bytes - x.written) 0)).0, complete)
        else (x, complete)

    abbrev pub go_on : (Export → Export × Ending) → Export × Bool → Export × Ending
    go_on again (x, true) = again x
    go_on again (x, false) = (x, cancelled)

    abbrev pub after_chunk : (Export → Export × Ending) → Export × Chunk → Export × Ending
    after_chunk again (x, bytes chunk) = go_on again (emit_truncated x chunk)
    after_chunk again (x, past_end) = pad x
    after_chunk again (x, tail chunk) = pad (emit_truncated x chunk).0
    after_chunk again (x, broken message) = (x, failed message)

    unfoldable pub write_data : ℕ → Export → Export × Ending
    write_data zero x = (x, out_of_fuel)
    write_data (suc n) x =
        let step = after_chunk (λ y. write_data n y) (next_chunk x) in
        if ltb x.written plan.data_bytes then step else pad x

    abbrev pub start : Export
    start = record {
      file = [];
      calls = 0;
      written = 0;
      cursor = cursor_at plan.range.start_ms export_frame_ms;
      resampler = none;
    }

    -- With room for so many steps of the cursor.
    unfoldable pub write : ℕ → Export × Ending
    write steps =
        go_on (λ x. write_data steps x)
          (emit start (header plan.sample_rate plan.channels (plan.data_bytes % 2 ^ 32)))
