-- ===== src/Services/Retention/Pass.antt =====
-- The rows that a pass of the janitor has dealt with (backend/src/services/retention_service.rs).
pub mod Sweeps
use Prim.Native.String.{String}
use on_air_record.Base.{
  ℕ, zero, suc, ◌+◌, ◌≡◌, refl, sym, ◌∙◌, ap, subst, arith, Bool, true, false, not, Bool-cases, inl,
  inr, Option, none, some, Option-cases, List, [], ◌∷◌, ◌++◌, append-nil, append_assoc, length,
  length-append, All, All-append, All-map, All-parts, ◌==◌, ◌⊎◌,
}
use on_air_record.Base.Filter.{
  filter, filter-append, filter-all, filter-cons_true, filter-cons_false, All-filter,
}
use on_air_record.Base.Int.{ℤ, pos, ◌+ℤ◌, int_laws, eq_of_parts}
use on_air_record.Models.Segment.{Segment}
use on_air_record.Services.Retention.{
  Surroundings, Sweep, SweepReport, Removal, removed, not_found, refused, is_past, delete,
  delete_row, count_deleted, sweep_segment, after_removal, sweep_page, unless_failed, step_over,
}
use on_air_record.Services.Retention.Pages.{
  key, Apart, Ordered, Ordered-at, is_refused, total_bytes, total_bytes-append_one, is_stuck,
  is_deletable, Swept, Splits, Splits-key, delete-one,
}

-- What holds when there is no error, and when there is one.
unfoldable pub Either :
    (Sweep → Type 0) → (Sweep → String → Type 0) → Sweep × Option String → Type 0
Either P Q (p, none) = P p
Either P Q (p, some message) = Q p message

unless_failed-Either :
    (P R : Sweep → Type 0) (Q : Sweep → String → Type 0) (r : Sweep × Option String)
    (rest : Sweep → Sweep × Option String)
    → Either P Q r
    → ((p : Sweep) → P p → Either R Q (rest p))
    → Either R Q (unless_failed r rest)
unfolding Either
unless_failed-Either P R Q (p, none) rest h later = later p h
unless_failed-Either P R Q (p, some message) rest h later = h

-- The database did not delete the row that is next, of a file that is gone.
unfoldable pub DeleteFailed : Surroundings → String → List Segment → Type 0
DeleteFailed around message [] = ⊥
DeleteFailed around message (s ∷ todo) =
    (is_stuck around s ≡ false) × (around.delete_fails s ≡ some message)

module _ (around : Surroundings) (fresh : List Segment) where
  -- Dealt with up to a place, and the position is there.
  unfoldable pub Settled : Sweep → List Segment → List Segment → Type 0
  Settled p done todo = Swept around fresh p done todo × Splits around fresh p.after done todo

  kept_one :
      (p : Sweep) (done : List Segment) (s : Segment) (todo : List Segment)
      → is_stuck around s ≡ true
      → Swept around fresh p done (s ∷ todo)
      → Swept around fresh (step_over p s) (done ++ s ∷ []) todo
  unfolding Swept filter
  kept_one p done s todo stuck (rows, count, bytes) = (
    rows
        ∙ rw (filter-append (is_stuck around) done (s ∷ [])) (
            rw stuck (sym (append_assoc (filter (is_stuck around) done) (s ∷ []) (todo ++ fresh)))),
    count
        ∙ rw (filter-append (is_deletable around) done (s ∷ []))
            (rw stuck (ap length (sym (append-nil (filter (is_deletable around) done))))),
    bytes
        ∙ rw (filter-append (is_deletable around) done (s ∷ []))
            (rw stuck (ap total_bytes (sym (append-nil (filter (is_deletable around) done))))),
  )

  deleted_one :
      (p : Sweep) (done : List Segment) (s : Segment) (todo : List Segment)
      → is_stuck around s ≡ false
      → All (λ x. Apart x s) done
      → All (Apart s) (todo ++ fresh)
      → Swept around fresh p done (s ∷ todo)
      → Swept around fresh (count_deleted (step_over p s) s) (done ++ s ∷ []) todo
  unfolding Swept filter count_deleted
  deleted_one p done s todo stuck before after (rows, count, bytes) = (
    ap (λ r. delete r s.id) rows
        ∙ delete-one around fresh (filter (is_stuck around) done) s (todo ++ fresh)
            (All-filter (λ x. Apart x s) (is_stuck around) done before) after
        ∙ rw (filter-append (is_stuck around) done (s ∷ [])) (
            rw stuck
              (ap (λ r. r ++ (todo ++ fresh)) (sym (append-nil (filter (is_stuck around) done))))),
    ap (λ n. n + 1) count
        ∙ rw (filter-append (is_deletable around) done (s ∷ []))
            (rw stuck (sym (length-append (filter (is_deletable around) done) (s ∷ [])))),
    ap (λ b. b +ℤ s.byte_len) bytes
        ∙ rw (filter-append (is_deletable around) done (s ∷ []))
            (rw stuck (sym (total_bytes-append_one (filter (is_deletable around) done) s))),
  )

  module _ (expired : List Segment) (ordered : Ordered (expired ++ fresh)) where
    -- The pass stopped somewhere among the expired rows, because of a row.
    unfoldable pub Broken : Sweep → String → Type 0
    Broken p message =
        (done : List Segment) × ((todo : List Segment) × ((done ++ todo ≡ expired)
            × Swept around fresh p done todo
            × DeleteFailed around message todo))

    sides :
        (done : List Segment) (s : Segment) (todo : List Segment)
        → done ++ s ∷ todo ≡ expired
        → All (λ x. Apart x s) done × All (Apart s) (todo ++ fresh)
    sides done s todo e =
        Ordered-at done s (todo ++ fresh) (
          subst Ordered (ap (λ r. r ++ fresh) (sym e) ∙ append_assoc done (s ∷ todo) fresh) ordered)

    deleted-Either :
        (p : Sweep) (done : List Segment) (s : Segment) (todo : List Segment) (o : Option String)
        → around.delete_fails s ≡ o
        → done ++ s ∷ todo ≡ expired
        → is_stuck around s ≡ false
        → Swept around fresh p done (s ∷ todo)
        → Either (λ q. Settled q (done ++ s ∷ []) todo) Broken (delete_row (step_over p s) s o)
    unfolding Either delete_row Settled Broken DeleteFailed count_deleted Swept
    deleted-Either p done s todo none answer e stuck h =
        let (before, after) = sides done s todo e in
        (
          deleted_one p done s todo stuck before after h,
          Splits-key around fresh done s todo before (All-parts (Apart s) todo fresh after).0,
        )
    deleted-Either p done s todo (some message) answer e stuck h =
        (done, (s ∷ todo, (e, h, (stuck, answer))))

    stuck-Either :
        (p : Sweep) (done : List Segment) (s : Segment) (todo : List Segment)
        → done ++ s ∷ todo ≡ expired
        → is_stuck around s ≡ true
        → Swept around fresh p done (s ∷ todo)
        → Either (λ q. Settled q (done ++ s ∷ []) todo) Broken (step_over p s, none)
    unfolding Either Settled
    stuck-Either p done s todo e stuck h =
        let (before, after) = sides done s todo e in
        (
          kept_one p done s todo stuck h,
          Splits-key around fresh done s todo before (All-parts (Apart s) todo fresh after).0,
        )

    removal-Either :
        (p : Sweep) (done : List Segment) (s : Segment) (todo : List Segment) (r : Removal)
        → around.remove_file s ≡ r
        → done ++ s ∷ todo ≡ expired
        → Swept around fresh p done (s ∷ todo)
        → Either
            (λ q. Settled q (done ++ s ∷ []) todo)
            Broken
            (after_removal around (step_over p s) s r)
    removal-Either p done s todo removed same e h =
        deleted-Either p done s todo (around.delete_fails s) refl e (ap is_refused same) h
    removal-Either p done s todo not_found same e h =
        deleted-Either p done s todo (around.delete_fails s) refl e (ap is_refused same) h
    removal-Either p done s todo (refused message) same e h =
        stuck-Either p done s todo e (ap is_refused same) h

    segment-Either :
        (p : Sweep) (done : List Segment) (s : Segment) (todo : List Segment)
        → done ++ s ∷ todo ≡ expired
        → Swept around fresh p done (s ∷ todo)
        → Either (λ q. Settled q (done ++ s ∷ []) todo) Broken (sweep_segment around p s)
    unfolding sweep_segment
    segment-Either p done s todo e h = removal-Either p done s todo (around.remove_file s) refl e h

    first_half :
        (p : Sweep) (done todo : List Segment)
        → Settled p done todo
        → Swept around fresh p done todo
    unfolding Settled
    first_half p done todo h = h.0

    no_page :
        (done rest : List Segment) (p : Sweep)
        → Settled p done rest
        → Either (λ q. Settled q (done ++ []) rest) Broken (p, none)
    unfolding Either
    no_page done rest p h = subst (λ d. Settled p d rest) (sym (append-nil done)) h

    pub sweep_page-Either :
        (page : List Segment) (rest : List Segment) (done : List Segment) (p : Sweep)
        → done ++ (page ++ rest) ≡ expired
        → Settled p done (page ++ rest)
        → Either (λ q. Settled q (done ++ page) rest) Broken (sweep_page around page p)
    unfolding sweep_page
    sweep_page-Either [] rest done p e h = no_page done rest p h
    sweep_page-Either (s ∷ page) rest done p e h =
        unless_failed-Either (λ q. Settled q (done ++ s ∷ []) (page ++ rest))
          (λ q. Settled q (done ++ s ∷ page) rest) Broken (sweep_segment around p s) _
          (segment-Either p done s (page ++ rest) e (first_half p done (s ∷ page ++ rest) h))
          (λ q k.
            subst (λ d. Either (λ q. Settled q d rest) Broken (sweep_page around page q))
              (append_assoc done (s ∷ []) page)
              (sweep_page-Either page rest (done ++ s ∷ []) q
                (append_assoc done (s ∷ []) (page ++ rest) ∙ e) k))
