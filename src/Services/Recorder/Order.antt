-- ===== src/Services/Recorder/Order.antt =====
-- The order in which segments are indexed, for backend/src/services/recorder_service.rs.
use on_air_record.Base.{
  ℕ, suc, ◌+◌, ◌≤◌, ◌<◌, ◌≡◌, sym, subst, inl, inr, Bool-cases, Option, none, some, List, [], ◌∷◌,
  ◌++◌, All, All-append, All-map, append-nil, append_assoc, length, arith, leb,
}
use on_air_record.Models.AudioFrame.{AudioFrame}
use on_air_record.Services.Recorder.Health.{RecorderHealth}
use on_air_record.Services.Recorder.Writer.{Storage, SegmentWriter, SegmentDraft, draft_of}
use on_air_record.Services.Recorder.Disk.{
  Disk, enqueue, pop_front, max_waiting_segments, write_to_disk,
}
use on_air_record.Services.Recorder.Run.{Invariant, write_to_disk-keeps}

-- Each draft's number is below those of the drafts behind it.
abbrev pub Ascending : List SegmentDraft → Type 0
Ascending [] = Unit
Ascending (x ∷ xs) = All (λ y. x.sequence < y.sequence) xs × Ascending xs

abbrev IsBelow : ℕ → SegmentDraft → Type 0
IsBelow n x = x.sequence < n

All-drop :
    (P : SegmentDraft → Type 0) (xs : List SegmentDraft) (x : SegmentDraft) (ys : List SegmentDraft)
    → All P (xs ++ x ∷ ys)
    → All P (xs ++ ys)
All-drop P [] x ys a = a.1
All-drop P (z ∷ zs) x ys a = (a.0, All-drop P zs x ys a.1)

Ascending-drop :
    (xs : List SegmentDraft) (x : SegmentDraft) (ys : List SegmentDraft)
    → Ascending (xs ++ x ∷ ys)
    → Ascending (xs ++ ys)
Ascending-drop [] x ys a = a.1
Ascending-drop (z ∷ zs) x ys a =
    (All-drop (λ y. z.sequence < y.sequence) zs x ys a.0, Ascending-drop zs x ys a.1)

Ascending-snoc :
    (xs : List SegmentDraft) (x : SegmentDraft)
    → Ascending xs
    → All (IsBelow x.sequence) xs
    → Ascending (xs ++ x ∷ [])
Ascending-snoc [] x a b = (tt, tt)
Ascending-snoc (z ∷ zs) x a b = (
  All-append (λ y. z.sequence < y.sequence) zs (x ∷ []) a.0 (b.0, tt),
  Ascending-snoc zs x a.1 b.1,
)

-- The numbers handed out to closed segments lie below the open one's.
abbrev bound : Option SegmentWriter → ℕ → ℕ
bound none n = n
bound (some s) n = s.sequence

bound_mono : (o : Option SegmentWriter) (n : ℕ) → bound o n ≤ bound o (n + 1)
bound_mono none n = omega arith
bound_mono (some s) n = omega arith

bound-le : (o : Option SegmentWriter) (n : ℕ) → bound o n ≤ n → bound o (n + 1) ≤ n + 1
bound-le none n h = omega arith
bound-le (some s) n h = omega arith

module _ (io : Storage) (session_id : ℕ) (index : List SegmentDraft) where
  pub record Ordered (rs : List AudioFrame) (d : Disk io session_id) : Type 0 where
    pub added : List SegmentDraft
    pub rows : d.index ≡ index ++ added
    pub ascending : Ascending (added ++ d.waiting)
    pub below : All (IsBelow (bound d.writer d.sequence)) (added ++ d.waiting)
    pub open_below : bound d.writer d.sequence ≤ d.sequence
    pub numbered : (s : SegmentWriter) → d.writer ≡ some s → s.sequence < d.sequence

  weaken : (m n : ℕ) (xs : List SegmentDraft) → m ≤ n → All (IsBelow m) xs → All (IsBelow n) xs
  weaken m n xs h = All-map (IsBelow m) (IsBelow n) xs (λ x b. omega arith)

  queue-Ordered :
      (xs ws : List SegmentDraft) (x : SegmentDraft)
      → Ascending (xs ++ ws)
      → All (IsBelow x.sequence) (xs ++ ws)
      → Ascending (xs ++ enqueue io session_id ws x)
        × All (IsBelow (suc x.sequence)) (xs ++ enqueue io session_id ws x)
  unfolding enqueue
  queue-Ordered xs ws x a b = elim (Bool-cases (leb max_waiting_segments (length ws))) [
    | inl e ↦ rw e (behind (pop_front io session_id ws) (front ws a) (front_below ws b))
    | inr e ↦ rw e (behind ws a b)
  ]
    where
      behind :
          (vs : List SegmentDraft)
          → Ascending (xs ++ vs)
          → All (IsBelow x.sequence) (xs ++ vs)
          → Ascending (xs ++ (vs ++ x ∷ [])) × All (IsBelow (suc x.sequence)) (xs ++ (vs ++ x ∷ []))
      behind vs a b = rw (← append_assoc) (
        Ascending-snoc (xs ++ vs) x a b,
        All-append (IsBelow (suc x.sequence)) (xs ++ vs) (x ∷ [])
            (weaken x.sequence (suc x.sequence) (xs ++ vs) (omega arith) b) (omega arith, tt),
      )

      front :
          (vs : List SegmentDraft)
          → Ascending (xs ++ vs)
          → Ascending (xs ++ pop_front io session_id vs)
      front [] a = a
      front (v ∷ vs) a = Ascending-drop xs v vs a

      front_below :
          (vs : List SegmentDraft)
          → All (IsBelow x.sequence) (xs ++ vs)
          → All (IsBelow x.sequence) (xs ++ pop_front io session_id vs)
      front_below [] b = b
      front_below (v ∷ vs) b = All-drop (IsBelow x.sequence) xs v vs b

  Ordered-invariant : Invariant io session_id Ordered
  Ordered-invariant = record {
    stores = λ rs d x ws h. record {
      added = h.added ++ x ∷ [];
      rows = rw h.rows (append_assoc index h.added (x ∷ []));
      ascending = rw append_assoc h.ascending;
      below = rw append_assoc h.below;
      open_below = h.open_below;
      numbered = h.numbered;
    };
    drops = λ rs d x ws h. record {
      added = h.added;
      rows = h.rows;
      ascending = Ascending-drop h.added x ws h.ascending;
      below = All-drop (IsBelow (bound d.writer d.sequence)) h.added x ws h.below;
      open_below = h.open_below;
      numbered = h.numbered;
    };
    hidden = λ rs d w health n h. record {
      added = h.added;
      rows = h.rows;
      ascending = h.ascending;
      below = h.below;
      open_below = h.open_below;
      numbered = h.numbered;
    };
    closes = λ rs d h. record {
      added = h.added;
      rows = h.rows;
      ascending = h.ascending;
      below =
          weaken (bound d.writer d.sequence) d.sequence (h.added ++ d.waiting) h.open_below h.below;
      open_below = omega arith;
      numbered = λ s e. cc;
    };
    queues = λ rs d s h e full.
        let n = h.numbered s e in
        let b = subst (λ o. All (IsBelow (bound o d.sequence)) (h.added ++ d.waiting)) e h.below in
        let (up, under) = queue-Ordered h.added d.waiting (draft_of s) h.ascending b in
        record {
          added = h.added;
          rows = h.rows;
          ascending = up;
          below =
              weaken (suc s.sequence) d.sequence
                (h.added ++ enqueue io session_id d.waiting (draft_of s)) n under;
          open_below = omega arith;
          numbered = λ t f. cc;
        };
    extends = λ rs d s f ms h e stay.
        let n = h.numbered s e in
        record {
          added = h.added;
          rows = h.rows;
          ascending = h.ascending;
          below = subst (λ o. All (IsBelow (bound o d.sequence)) (h.added ++ d.waiting)) e h.below;
          open_below = omega arith;
          numbered = λ t g. ground (arith, n);
        };
    begins = λ rs d f h e. record {
      added = h.added;
      rows = h.rows;
      ascending = h.ascending;
      below = subst (λ o. All (IsBelow (bound o d.sequence)) (h.added ++ d.waiting)) e h.below;
      open_below = omega arith;
      numbered = λ t g. ground arith;
    };
    skips = λ rs d f h e. record {
      added = h.added;
      rows = h.rows;
      ascending = h.ascending;
      below = h.below;
      open_below = h.open_below;
      numbered = h.numbered;
    };
    passes = λ rs d h. record {
      added = h.added;
      rows = h.rows;
      ascending = h.ascending;
      below =
          weaken (bound d.writer d.sequence) (bound d.writer (d.sequence + 1))
            (h.added ++ d.waiting) (bound_mono d.writer d.sequence) h.below;
      open_below = bound-le d.writer d.sequence h.open_below;
      numbered = λ s e. omega (arith, h.numbered s e);
    };
  }

  -- Whatever the file system and the index answer, the segments that the disk thread adds to the
  -- index, followed by those still waiting, are numbered in strictly ascending order: recordings are
  -- indexed in the order in which they were made, and no number of a session is used twice.
  pub write_to_disk-ordered :
      (world : io.World) (health : RecorderHealth) (frames : List AudioFrame)
      → let d = write_to_disk io session_id world health index frames in
        (added : List SegmentDraft) × (d.index ≡ index ++ added) × Ascending (added ++ d.waiting)
  write_to_disk-ordered world health frames =
      let h =
        write_to_disk-keeps io session_id Ordered Ordered-invariant world health index frames
          (record {
            added = [];
            rows = sym (append-nil index);
            ascending = tt;
            below = tt;
            open_below = omega arith;
            numbered = λ s e. cc;
          }) in
      (h.added, h.rows, h.ascending)
