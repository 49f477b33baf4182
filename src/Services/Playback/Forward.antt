-- ===== src/Services/Playback/Forward.antt =====
-- How far a step of playback moves, for advance of backend/src/services/playback_service.rs.
use on_air_record.Base.{
  ℕ, zero, suc, ◌≡◌, refl, sym, subst, min, ◌*◌, false, Bool-cases, inl, inr, Option, none, some,
  List, arith, ltb, length, ◌==◌,
}
use on_air_record.Base.Int.{ℤ, pos, ◌-ℤ◌, ◌≤ℤ◌, ltb_ℤ, leb_ℤ, int_laws, le_ℤ_trans, pos_part}
use on_air_record.Models.AudioFrame.{end_timestamp_ms}
use on_air_record.Models.Segment.{Segment, bytes_per_sample_frame}
use on_air_record.Audio.FrameBuilder.{frame_samples_for}
use on_air_record.Services.Playback.{
  Answer, ok, error, Library, CursorOutput, frame, gap, end_of_recording, OpenSegment,
  PlaybackCursor, Read, read, spent, lost, Located, ready, jumped, exhausted, refused, Turn, answer,
  again, failed, after_turn, nothing_more, after_read, read_turn, after_locate, turn, hops, advance,
  read_open, read_frame, jump, cover, locate, advance_past, take_bytes, max_segment_hops,
}

-- What the index documents: the next segment starts at or after the moment asked for.
abbrev pub AnswersLater : Library → Type 0
AnswersLater library =
    (t : ℤ) (s : Segment) → library.find_next_after t ≡ ok (some s) → t ≤ℤ s.started_at_ms

-- What a step from the position tells, for the cursor it ends with.
abbrev pub Tells : ℤ → PlaybackCursor → CursorOutput → Type 0
Tells from_ms d (frame f) = (f.live ≡ false) × (d.position_ms ≡ end_timestamp_ms f)
Tells from_ms d (gap start_ms to_ms) =
    (from_ms ≤ℤ start_ms) × (start_ms ≤ℤ to_ms) × (to_ms ≡ d.position_ms)
Tells from_ms d (end_of_recording at_ms) = (from_ms ≤ℤ at_ms) × (at_ms ≡ d.position_ms)

abbrev pub TellsIfOk : ℤ → PlaybackCursor → Answer CursorOutput → Type 0
TellsIfOk from_ms d (ok out) = Tells from_ms d out
TellsIfOk from_ms d (error message) = Unit

-- Audio was lost after the step began, and before where the cursor is.
abbrev LostWithin : ℤ → Option ℤ → ℤ → Type 0
LostWithin from_ms none at_ms = from_ms ≤ℤ at_ms
LostWithin from_ms (some lost_from) at_ms = (from_ms ≤ℤ lost_from) × (lost_from ≤ℤ at_ms)

abbrev Turned : ℤ → PlaybackCursor → Turn → Type 0
Turned from_ms d (answer out) = Tells from_ms d out
Turned from_ms d (again later) = LostWithin from_ms later d.position_ms
Turned from_ms d (failed message) = Unit

-- What a read leaves: it lost audio from where the cursor was, or played a frame.
abbrev ReadMoves : PlaybackCursor → PlaybackCursor → Read → Type 0
ReadMoves c d (read f) = (f.live ≡ false) × (d.position_ms ≡ end_timestamp_ms f)
ReadMoves c d spent = c.position_ms ≤ℤ d.position_ms
ReadMoves c d (lost from_ms) = (from_ms ≡ c.position_ms) × (c.position_ms ≤ℤ d.position_ms)

advance_past-le :
    (c : PlaybackCursor) (s : Segment) → c.position_ms ≤ℤ (advance_past c s).position_ms
unfolding advance_past
advance_past-le c s = omega int_laws

take_bytes-ReadMoves :
    (c : PlaybackCursor) (o : OpenSegment) (bytes : Option (List ℕ))
    → ReadMoves c (take_bytes c o bytes).0 (take_bytes c o bytes).1
unfolding take_bytes
take_bytes-ReadMoves c o none = (refl, advance_past-le c o.segment)
take_bytes-ReadMoves c o (some bytes) = elim (Bool-cases (ltb (length bytes) 2)) [
  | inl short ↦ rw short (refl, advance_past-le c o.segment)
  | inr enough ↦ rw enough (refl, refl)
]

module _ (library : Library) where
  read_open-ReadMoves :
      (c : PlaybackCursor) (o : OpenSegment)
      → ReadMoves c (read_open library c o).0 (read_open library c o).1
  unfolding read_open
  read_open-ReadMoves c o =
      let s = o.segment in
      let available = s.byte_len -ℤ pos o.offset in
      let wanted = frame_samples_for s.sample_rate c.frame_ms * bytes_per_sample_frame s in
      let bytes = library.read_segment_bytes s o.offset (min wanted (pos_part available)) in
      elim (Bool-cases (leb_ℤ (s.byte_len -ℤ pos o.offset) (pos 0))) [
        | inl e ↦ rw e (advance_past-le c s)
        | inr e ↦ elim (Bool-cases (s.sample_rate == 0)) [
          | inl z ↦ rw (e, z) (refl, advance_past-le c s)
          | inr n ↦ rw (e, n) (take_bytes-ReadMoves c o bytes)
        ]
      ]

  read_frame-ReadMoves :
      (c : PlaybackCursor) (o : Option OpenSegment)
      → ReadMoves c (read_frame library c o).0 (read_frame library c o).1
  unfolding read_frame
  read_frame-ReadMoves c none = omega arith
  read_frame-ReadMoves c (some o) = read_open-ReadMoves c o

after_read-Turned :
    (from_ms : ℤ) (lost_from : Option ℤ) (c d : PlaybackCursor) (r : Read)
    → LostWithin from_ms lost_from c.position_ms
    → ReadMoves c d r
    → Turned from_ms (after_read lost_from c d r).0 (after_read lost_from c d r).1
unfolding after_read
after_read-Turned from_ms none c d (read f) w v = v
after_read-Turned from_ms (some l) c d (read f) w v = (w.0, w.1, refl)
after_read-Turned from_ms none c d spent w v = le_ℤ_trans from_ms c.position_ms d.position_ms w v
after_read-Turned from_ms (some l) c d spent w v =
    (w.0, le_ℤ_trans l c.position_ms d.position_ms w.1 v)
after_read-Turned from_ms none c d (lost at_ms) w v =
    let after = subst (λ t. from_ms ≤ℤ t) (sym v.0) w in
    let before = subst (λ t. t ≤ℤ d.position_ms) (sym v.0) v.1 in
    elim (Bool-cases (ltb_ℤ at_ms d.position_ms)) [
      | inl e ↦ rw e (after, before)
      | inr e ↦ rw e (le_ℤ_trans from_ms c.position_ms d.position_ms w v.1)
    ]
after_read-Turned from_ms (some l) c d (lost at_ms) w v =
    let kept : LostWithin from_ms (some l) d.position_ms =
      (w.0, le_ℤ_trans l c.position_ms d.position_ms w.1 v.1) in
    elim (Bool-cases (ltb_ℤ at_ms d.position_ms)) [ inl e ↦ rw e kept | inr e ↦ rw e kept ]

nothing_more-Tells :
    (from_ms : ℤ) (lost_from : Option ℤ) (c : PlaybackCursor)
    → LostWithin from_ms lost_from c.position_ms
    → Tells from_ms c (nothing_more lost_from c)
unfolding nothing_more
nothing_more-Tells from_ms none c w = (w, refl)
nothing_more-Tells from_ms (some l) c w = (w.0, w.1, refl)

-- Where the index points the cursor.
abbrev Points : PlaybackCursor → PlaybackCursor → Located → Type 0
Points c d (jumped start_ms to_ms) =
    (start_ms ≡ c.position_ms) × (c.position_ms ≤ℤ to_ms) × (to_ms ≡ d.position_ms)
Points c d _ = d.position_ms ≡ c.position_ms

module _ (library : Library) (later : AnswersLater library) where
  jump-Points :
      (c : PlaybackCursor) (a : Answer (Option Segment))
      → library.find_next_after c.position_ms ≡ a
      → Points c (jump library c a).0 (jump library c a).1
  unfolding jump
  jump-Points c (error message) e = refl
  jump-Points c (ok none) e = refl
  jump-Points c (ok (some s)) e = (refl, later c.position_ms s e, refl)

  cover-Points :
      (c : PlaybackCursor) (a : Answer (Option Segment))
      → Points c (cover library c a).0 (cover library c a).1
  unfolding cover
  cover-Points c (error message) = refl
  cover-Points c (ok none) = jump-Points c (library.find_next_after c.position_ms) refl
  cover-Points c (ok (some s)) = refl

  read_turn-Turned :
      (from_ms : ℤ) (lost_from : Option ℤ) (c : PlaybackCursor)
      → LostWithin from_ms lost_from c.position_ms
      → Turned from_ms (read_turn library lost_from c).0 (read_turn library lost_from c).1
  unfolding read_turn
  read_turn-Turned from_ms lost_from c w =
      let r = read_frame library c c.opened in
      after_read-Turned from_ms lost_from c r.0 r.1 w (read_frame-ReadMoves library c c.opened)

  after_locate-Turned :
      (from_ms : ℤ) (lost_from : Option ℤ) (c d : PlaybackCursor) (l : Located)
      → LostWithin from_ms lost_from c.position_ms
      → Points c d l
      → Turned from_ms (after_locate library lost_from d l).0 (after_locate library lost_from d l).1
  unfolding after_locate
  after_locate-Turned from_ms lost_from c d ready w p =
      read_turn-Turned from_ms lost_from d (subst (LostWithin from_ms lost_from) (sym p) w)
  after_locate-Turned from_ms none c d (jumped start_ms to_ms) w (here, on, there) =
      (subst (λ t. from_ms ≤ℤ t) (sym here) w, subst (λ t. t ≤ℤ to_ms) (sym here) on, there)
  after_locate-Turned from_ms (some l) c d (jumped start_ms to_ms) w (here, on, there) =
      (w.0, le_ℤ_trans l c.position_ms to_ms w.1 on, there)
  after_locate-Turned from_ms lost_from c d exhausted w p =
      nothing_more-Tells from_ms lost_from d (subst (LostWithin from_ms lost_from) (sym p) w)
  after_locate-Turned from_ms lost_from c d (refused message) w p = tt

  turn-Turned :
      (from_ms : ℤ) (lost_from : Option ℤ) (c : PlaybackCursor) (o : Option OpenSegment)
      → LostWithin from_ms lost_from c.position_ms
      → Turned from_ms (turn library lost_from c o).0 (turn library lost_from c o).1
  unfolding turn locate
  turn-Turned from_ms lost_from c none w =
      let a = library.find_covering c.position_ms in
      let l = cover library c a in
      after_locate-Turned from_ms lost_from c l.0 l.1 w (cover-Points c a)
  turn-Turned from_ms lost_from c (some o) w = read_turn-Turned from_ms lost_from c w

  after_turn-Tells :
      (n : ℕ) (from_ms : ℤ) (d : PlaybackCursor) (t : Turn)
      → ((lost_from : Option ℤ) (e : PlaybackCursor)
          → LostWithin from_ms lost_from e.position_ms
          → TellsIfOk from_ms (hops library n lost_from e).0 (hops library n lost_from e).1)
      → Turned from_ms d t
      → let r = after_turn (λ lost_from e. hops library n lost_from e) d t in
        TellsIfOk from_ms r.0 r.1
  after_turn-Tells n from_ms d (answer out) go_on v = v
  after_turn-Tells n from_ms d (again lost_from) go_on v = go_on lost_from d v
  after_turn-Tells n from_ms d (failed message) go_on v = tt

  hops-Tells :
      (n : ℕ) (from_ms : ℤ) (lost_from : Option ℤ) (c : PlaybackCursor)
      → LostWithin from_ms lost_from c.position_ms
      → TellsIfOk from_ms (hops library n lost_from c).0 (hops library n lost_from c).1
  unfolding hops
  hops-Tells zero from_ms lost_from c w = nothing_more-Tells from_ms lost_from c w
  hops-Tells (suc n) from_ms lost_from c w =
      let r = turn library lost_from c c.opened in
      after_turn-Tells n from_ms r.0 r.1 (λ l e. hops-Tells n from_ms l e)
        (turn-Turned from_ms lost_from c c.opened w)

-- Over an index that answers as it documents, a step that answers with a frame leaves the cursor at
-- the frame's end, and the frame is marked as replayed; a gap starts no earlier than where the step
-- began, does not run backwards, and ends exactly where the cursor is then; and the end of the
-- recording is told where the cursor is, no earlier than where the step began.
pub advance-Tells :
    (library : Library) (c : PlaybackCursor)
    → AnswersLater library
    → TellsIfOk c.position_ms (advance library c).0 (advance library c).1
unfolding advance
advance-Tells library c later =
    hops-Tells library later max_segment_hops c.position_ms none c (omega arith)
