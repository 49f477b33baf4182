-- ===== src/Services/Recorder/Unbroken.antt =====
-- The runs of frames that are indexed, for write_to_disk of backend/src/services/recorder_service.rs.

use on_air_record.Base.{
  ℕ, ◌+◌, ◌≤◌, ◌≡◌, refl, sym, Option, none, some, List, [], ◌∷◌, ◌++◌, All, All-append, All-map,
  append_assoc, subst, inl, inr, Bool-cases, leb, append-nil, length, arith, false,
}
use on_air_record.Base.Int.{ℤ, pos, ◌+ℤ◌, ◌-ℤ◌, max_ℤ, abs_ℤ}
use on_air_record.Models.AudioFrame.{AudioFrame, end_timestamp_ms, to_le_bytes}
use on_air_record.Services.Recorder.Health.{RecorderHealth}
use on_air_record.Services.Recorder.Writer.{
  Storage, SegmentWriter, SegmentDraft, appended, draft_of,
}
use on_air_record.Services.Recorder.Disk.{
  Disk, enqueue, pop_front, max_waiting_segments, should_roll_over, discontinuity_tolerance_ms,
  write_to_disk,
}
use on_air_record.Services.Recorder.Run.{Invariant, write_to_disk-keeps}

-- Where the next frame is expected in a segment that began at `started` and reaches `end`.
abbrev pub expected_ms : ℤ → ℤ → ℤ
expected_ms started end = started +ℤ max_ℤ (end -ℤ started) (pos 0)

-- Each frame begins where it is expected, to within the tolerance for a frame of its length.
abbrev pub Contiguous : ℤ → ℤ → List AudioFrame → Type 0
Contiguous started end [] = Unit
Contiguous started end (f ∷ fs) =
    (abs_ℤ (f.timestamp_ms -ℤ expected_ms started end) ≤ discontinuity_tolerance_ms f)
    × Contiguous started (end_timestamp_ms f) fs

abbrev pub last_end_ms : ℤ → List AudioFrame → ℤ
last_end_ms end [] = end
last_end_ms end (f ∷ fs) = last_end_ms (end_timestamp_ms f) fs

abbrev pub payload : List AudioFrame → ℕ
payload [] = 0
payload (f ∷ fs) = length (to_le_bytes f) + payload fs

-- From `started` to `ended` a segment of `bytes` bytes holds a run of the frames `rs`, whole and in
-- order, and the run is `Contiguous`.
pub record Backed (rs : List AudioFrame) (started ended : ℤ) (bytes : ℕ) : Type 0 where
  pub before : List AudioFrame
  pub first : AudioFrame
  pub rest : List AudioFrame
  pub after : List AudioFrame
  pub split : rs ≡ before ++ ((first ∷ rest) ++ after)
  pub starts : started ≡ first.timestamp_ms
  pub ends : ended ≡ last_end_ms (end_timestamp_ms first) rest
  pub size : bytes ≡ payload (first ∷ rest)
  pub contiguous : Contiguous started (end_timestamp_ms first) rest

abbrev pub IsUnbroken : List AudioFrame → SegmentDraft → Type 0
IsUnbroken rs x = Backed rs x.started_at_ms x.ended_at_ms x.byte_len

-- The open segment's run reaches to the last frame received.
abbrev Held : List AudioFrame → Option SegmentWriter → Type 0
Held rs none = Unit
Held rs (some s) = (b : Backed rs s.started_at_ms s.last_end_ms s.byte_len) × (b.after ≡ [])

Contiguous-snoc :
    (started end : ℤ) (fs : List AudioFrame) (f : AudioFrame)
    → Contiguous started end fs
    → abs_ℤ (f.timestamp_ms -ℤ expected_ms started (last_end_ms end fs))
      ≤ discontinuity_tolerance_ms f
    → Contiguous started end (fs ++ f ∷ [])
Contiguous-snoc started end [] f c h = (h, tt)
Contiguous-snoc started end (g ∷ gs) f c h =
    (c.0, Contiguous-snoc started (end_timestamp_ms g) gs f c.1 h)

last_end_ms-snoc :
    (end : ℤ) (fs : List AudioFrame) (f : AudioFrame)
    → last_end_ms end (fs ++ f ∷ []) ≡ end_timestamp_ms f
last_end_ms-snoc end [] f = refl
last_end_ms-snoc end (g ∷ gs) f = last_end_ms-snoc (end_timestamp_ms g) gs f

payload-snoc :
    (fs : List AudioFrame) (f : AudioFrame)
    → payload (fs ++ f ∷ []) ≡ payload fs + length (to_le_bytes f)
payload-snoc [] f = omega arith
payload-snoc (g ∷ gs) f = omega (arith, payload-snoc gs f)

Backed-later :
    (rs : List AudioFrame) (f : AudioFrame) (started ended : ℤ) (bytes : ℕ)
    → Backed rs started ended bytes
    → Backed (rs ++ f ∷ []) started ended bytes
Backed-later rs f started ended bytes b = record {
  before = b.before;
  first = b.first;
  rest = b.rest;
  after = b.after ++ f ∷ [];
  split = rw b.split (simp append_assoc);
  starts = b.starts;
  ends = b.ends;
  size = b.size;
  contiguous = b.contiguous;
}

stays_within :
    (s : SegmentWriter) (f : AudioFrame) (ms : ℤ)
    → should_roll_over (some s) f ms ≡ false
    → abs_ℤ (f.timestamp_ms -ℤ expected_ms s.started_at_ms s.last_end_ms)
      ≤ discontinuity_tolerance_ms f
unfolding should_roll_over
stays_within s f ms h = ground arith

Held-extends :
    (rs : List AudioFrame) (s : SegmentWriter) (f : AudioFrame) (ms : ℤ)
    → Held rs (some s)
    → should_roll_over (some s) f ms ≡ false
    → Held (rs ++ f ∷ []) (some (appended s f))
Held-extends rs s f ms (b, open_end) stay = (
  record {
    before = b.before;
    first = b.first;
    rest = b.rest ++ f ∷ [];
    after = [];
    split = rw (b.split, open_end) (simp (append_assoc, append-nil));
    starts = b.starts;
    ends = sym (last_end_ms-snoc (end_timestamp_ms b.first) b.rest f);
    size = omega (arith, b.size, payload-snoc b.rest f);
    contiguous =
        Contiguous-snoc s.started_at_ms (end_timestamp_ms b.first) b.rest f b.contiguous
          (rw (← b.ends) (stays_within s f ms stay));
  },
  refl,
)

module _ (io : Storage) (session_id : ℕ) (index : List SegmentDraft) where
  -- The rows that the thread adds stand behind those that were there.
  pub record Faithful (rs : List AudioFrame) (d : Disk io session_id) : Type 0 where
    pub held : Held rs d.writer
    pub waits : All (IsUnbroken rs) d.waiting
    pub added : List SegmentDraft
    pub rows : d.index ≡ index ++ added
    pub indexed : All (IsUnbroken rs) added

  All-later :
      (rs : List AudioFrame) (f : AudioFrame) (ws : List SegmentDraft)
      → All (IsUnbroken rs) ws
      → All (IsUnbroken (rs ++ f ∷ [])) ws
  All-later rs f ws a =
      All-map (IsUnbroken rs) (IsUnbroken (rs ++ f ∷ [])) ws
        (λ x b. Backed-later rs f x.started_at_ms x.ended_at_ms x.byte_len b) a

  All-pop_front :
      (P : SegmentDraft → Type 0) (ws : List SegmentDraft)
      → All P ws
      → All P (pop_front io session_id ws)
  All-pop_front P [] a = tt
  All-pop_front P (w ∷ ws) a = a.1

  All-enqueue :
      (P : SegmentDraft → Type 0) (ws : List SegmentDraft) (x : SegmentDraft)
      → All P ws
      → P x
      → All P (enqueue io session_id ws x)
  unfolding enqueue
  All-enqueue P ws x a h = elim (Bool-cases (leb max_waiting_segments (length ws))) [
    | inl e ↦
        rw e (All-append P (pop_front io session_id ws) (x ∷ []) (All-pop_front P ws a) (h, tt))
    | inr e ↦ rw e (All-append P ws (x ∷ []) a (h, tt))
  ]

  Faithful-invariant : Invariant io session_id Faithful
  Faithful-invariant = record {
    stores = λ rs d x ws h. record {
      held = h.held;
      waits = h.waits.1;
      added = h.added ++ x ∷ [];
      rows = rw h.rows (append_assoc index h.added (x ∷ []));
      indexed = All-append (IsUnbroken rs) h.added (x ∷ []) h.indexed (h.waits.0, tt);
    };
    drops = λ rs d x ws h. record {
      held = h.held;
      waits = h.waits.1;
      added = h.added;
      rows = h.rows;
      indexed = h.indexed;
    };
    hidden = λ rs d w health n h. record {
      held = h.held;
      waits = h.waits;
      added = h.added;
      rows = h.rows;
      indexed = h.indexed;
    };
    closes = λ rs d h. record {
      held = tt;
      waits = h.waits;
      added = h.added;
      rows = h.rows;
      indexed = h.indexed;
    };
    queues = λ rs d s h e full. record {
      held = tt;
      waits =
          All-enqueue (IsUnbroken rs) d.waiting (draft_of s) h.waits (subst (Held rs) e h.held).0;
      added = h.added;
      rows = h.rows;
      indexed = h.indexed;
    };
    extends = λ rs d s f ms h e stay. record {
      held = Held-extends rs s f ms (subst (Held rs) e h.held) stay;
      waits = All-later rs f d.waiting h.waits;
      added = h.added;
      rows = h.rows;
      indexed = All-later rs f h.added h.indexed;
    };
    begins = λ rs d f h e. record {
      held = (
        record {
          before = rs;
          first = f;
          rest = [];
          after = [];
          split = refl;
          starts = refl;
          ends = refl;
          size = omega arith;
          contiguous = tt;
        },
        refl,
      );
      waits = All-later rs f d.waiting h.waits;
      added = h.added;
      rows = h.rows;
      indexed = All-later rs f h.added h.indexed;
    };
    skips = λ rs d f h e. record {
      held = rw e tt;
      waits = All-later rs f d.waiting h.waits;
      added = h.added;
      rows = h.rows;
      indexed = All-later rs f h.added h.indexed;
    };
    passes = λ rs d h. record {
      held = h.held;
      waits = h.waits;
      added = h.added;
      rows = h.rows;
      indexed = h.indexed;
    };
  }

  -- Whatever the file system and the index answer, every row that the disk thread adds to the index
  -- and every segment still waiting at its end is a run of the frames received: whole, in order,
  -- with no frame missing inside it, its byte length the length of those frames, and each frame
  -- beginning where the one before it ended, to within the discontinuity tolerance. Rows that were
  -- in the index before stay as they were.
  pub write_to_disk-unbroken :
      (world : io.World) (health : RecorderHealth) (frames : List AudioFrame)
      → Faithful frames (write_to_disk io session_id world health index frames)
  write_to_disk-unbroken world health frames =
      write_to_disk-keeps io session_id Faithful Faithful-invariant world health index frames
        (record { held = tt; waits = tt; added = []; rows = sym (append-nil index); indexed = tt })
