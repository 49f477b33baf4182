-- ===== src/Services/Playback.antt =====
-- backend/src/services/playback_service.rs: a read head over the recordings. `Library` is what the
-- segment index and the segment files answer during one step.
pub mod Forward
use Prim.Native.String.{String}
use on_air_record.Base.{
  ℕ, zero, suc, ◌+◌, ◌*◌, min, Bool, false, Option, none, some, List, [], ◌∷◌, length,
  if◌then◌else◌, ◌==◌, ltb, ◌%◌, ◌-◌, Option-cases,
}
use on_air_record.Base.Int.{ℤ, pos, negsuc, ◌-ℤ◌, ◌+ℤ◌, max_ℤ, leb_ℤ, ltb_ℤ, pos_part}
use on_air_record.Models.AudioFrame.{AudioFrame, from_samples, end_timestamp_ms}
use on_air_record.Models.Segment.{
  Segment, byte_offset_for, timestamp_for_offset, bytes_per_sample_frame,
}
use on_air_record.Audio.FrameBuilder.{frame_samples_for}

pub data Answer (A : Type 0) : Type 0 where
  ok : A → Answer A
  error : String → Answer A

-- `find_covering`, `find_next_after`, and the bytes of a segment's file from an offset, or none when
-- the file cannot be read.
pub record Library : Type 0 where
  pub find_covering : ℤ → Answer (Option Segment)
  pub find_next_after : ℤ → Answer (Option Segment)
  pub read_segment_bytes : Segment → ℕ → ℕ → Option (List ℕ)

pub data CursorOutput : Type 0 where
  frame : AudioFrame → CursorOutput
  gap : ℤ → ℤ → CursorOutput
  end_of_recording : ℤ → CursorOutput

abbrev pub max_segment_hops : ℕ
max_segment_hops = 16

pub record OpenSegment : Type 0 where
  pub segment : Segment
  pub offset : ℕ  -- i64, never negative

pub record PlaybackCursor : Type 0 where
  pub frame_ms : ℕ
  pub position_ms : ℤ
  pub opened : Option OpenSegment

abbrev pub cursor_at : ℤ → ℕ → PlaybackCursor
cursor_at position_ms frame_ms = record {
  frame_ms = frame_ms;
  position_ms = position_ms;
  opened = none;
}

abbrev pub seek : PlaybackCursor → ℤ → PlaybackCursor
seek c position_ms = record c { position_ms = position_ms; opened = none }

pub data Read : Type 0 where
  read : AudioFrame → Read
  spent : Read
  lost : ℤ → Read

pub data Located : Type 0 where
  ready : Located
  jumped : ℤ → ℤ → Located
  exhausted : Located
  refused : String → Located

-- `decode_pcm_s16`; an odd byte at the end is left out.
unfoldable pub sample_of_bytes : ℕ → ℕ → ℤ
sample_of_bytes low high =
    let word = low + 256 * high in if ltb word 32768 then pos word else negsuc (65535 - word)

unfoldable pub decode_pcm_s16 : List ℕ → List ℤ
unfolding sample_of_bytes
decode_pcm_s16 [] = []
decode_pcm_s16 (low ∷ []) = []
decode_pcm_s16 (low ∷ high ∷ bytes) = sample_of_bytes low high ∷ decode_pcm_s16 bytes

-- With the segment that `take` takes out.
unfoldable pub advance_past : PlaybackCursor → Segment → PlaybackCursor
advance_past c s = record c { position_ms = max_ℤ c.position_ms s.ended_at_ms; opened = none }

abbrev pub frame_of : OpenSegment → List ℕ → AudioFrame
frame_of o bytes =
    from_samples (timestamp_for_offset o.segment o.offset) o.segment.sample_rate o.segment.channels
      (decode_pcm_s16 bytes) false

-- The file gave these bytes, or could not be read.
unfoldable pub take_bytes : PlaybackCursor → OpenSegment → Option (List ℕ) → PlaybackCursor × Read
unfolding advance_past
take_bytes c o none = (advance_past c o.segment, lost c.position_ms)
take_bytes c o (some bytes) =
    let f = frame_of o bytes in
    if ltb (length bytes) 2 then (advance_past c o.segment, lost c.position_ms) else (
      record c {
        position_ms = end_timestamp_ms f;
        opened = some (record o { offset = o.offset + length bytes });
      },
      read f,
    )

module _ (library : Library) where
  unfoldable pub read_open : PlaybackCursor → OpenSegment → PlaybackCursor × Read
  unfolding advance_past take_bytes
  read_open c o =
      let s = o.segment in
      let available = s.byte_len -ℤ pos o.offset in
      let wanted = frame_samples_for s.sample_rate c.frame_ms * bytes_per_sample_frame s in
      let read_len = min wanted (pos_part available) in
      if leb_ℤ available (pos 0)
      then (advance_past c s, spent)
      else if s.sample_rate == 0
      then (advance_past c s, lost c.position_ms)
      else take_bytes c o (library.read_segment_bytes s o.offset read_len)

  unfoldable pub read_frame : PlaybackCursor → Option OpenSegment → PlaybackCursor × Read
  unfolding read_open
  read_frame c none = (c, spent)
  read_frame c (some o) = read_open c o

  unfoldable pub jump : PlaybackCursor → Answer (Option Segment) → PlaybackCursor × Located
  jump c (error message) = (c, refused message)
  jump c (ok none) = (c, exhausted)
  jump c (ok (some s)) = (
    record c { position_ms = s.started_at_ms; opened = some (record { segment = s; offset = 0 }) },
    jumped c.position_ms s.started_at_ms,
  )

  unfoldable pub cover : PlaybackCursor → Answer (Option Segment) → PlaybackCursor × Located
  unfolding jump
  cover c (error message) = (c, refused message)
  cover c (ok none) = jump c (library.find_next_after c.position_ms)
  cover c (ok (some s)) = (
    record c { opened = some (record { segment = s; offset = byte_offset_for s c.position_ms }) },
    ready,
  )

  unfoldable pub locate : PlaybackCursor → PlaybackCursor × Located
  unfolding cover
  locate c = cover c (library.find_covering c.position_ms)

-- One turn of the loop of `advance`: an answer, a further turn, or the index's error.
pub data Turn : Type 0 where
  answer : CursorOutput → Turn
  again : Option ℤ → Turn
  failed : String → Turn

abbrev pub unwrap_or : Option ℤ → ℤ → ℤ
unwrap_or none from_ms = from_ms
unwrap_or (some lost_from) from_ms = lost_from

unfoldable pub nothing_more : Option ℤ → PlaybackCursor → CursorOutput
nothing_more none c = end_of_recording c.position_ms
nothing_more (some from_ms) c = gap from_ms c.position_ms

-- With the cursor before the read: a frame after lost audio is put back, to be read again.
unfoldable pub after_read :
    Option ℤ → PlaybackCursor → PlaybackCursor → Read → PlaybackCursor × Turn
after_read none c d (read f) = (d, answer (frame f))
after_read (some from_ms) c d (read f) = (
  record d { position_ms = c.position_ms; opened = c.opened },
  answer (gap from_ms c.position_ms),
)
after_read lost_from c d spent = (d, again lost_from)
after_read lost_from c d (lost from_ms) = (
  d,
  again (if ltb_ℤ from_ms d.position_ms then some (unwrap_or lost_from from_ms) else lost_from),
)

-- The loop goes on, or `advance` returns.
abbrev pub after_turn :
    (Option ℤ → PlaybackCursor → PlaybackCursor × Answer CursorOutput)
    → PlaybackCursor
    → Turn
    → PlaybackCursor × Answer CursorOutput
after_turn go_on d (answer out) = (d, ok out)
after_turn go_on d (again lost_from) = go_on lost_from d
after_turn go_on d (failed message) = (d, error message)

module _ (library : Library) where
  unfoldable pub read_turn : Option ℤ → PlaybackCursor → PlaybackCursor × Turn
  read_turn lost_from c =
      let (d, outcome) = read_frame library c c.opened in after_read lost_from c d outcome

  unfoldable pub after_locate : Option ℤ → PlaybackCursor → Located → PlaybackCursor × Turn
  after_locate lost_from d ready = read_turn lost_from d
  after_locate lost_from d (jumped from_ms to_ms) =
      (d, answer (gap (unwrap_or lost_from from_ms) to_ms))
  after_locate lost_from d exhausted = (d, answer (nothing_more lost_from d))
  after_locate lost_from d (refused message) = (d, failed message)

  unfoldable pub turn : Option ℤ → PlaybackCursor → Option OpenSegment → PlaybackCursor × Turn
  turn lost_from c none = let (d, located) = locate library c in after_locate lost_from d located
  turn lost_from c (some o) = read_turn lost_from c

  unfoldable pub hops : ℕ → Option ℤ → PlaybackCursor → PlaybackCursor × Answer CursorOutput
  hops zero lost_from c = (c, ok (nothing_more lost_from c))
  hops (suc n) lost_from c =
      let (d, t) = turn lost_from c c.opened in after_turn (λ later e. hops n later e) d t

  unfoldable pub advance : PlaybackCursor → PlaybackCursor × Answer CursorOutput
  unfolding hops
  advance c = hops max_segment_hops none c
