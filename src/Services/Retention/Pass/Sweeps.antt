-- ===== src/Services/Retention/Pass/Sweeps.antt =====
-- The pages of a pass, one after the other.
use Prim.Native.String.{String}
use on_air_record.Base.{
  ℕ, zero, suc, ◌<◌, ◌≤◌, ◌≡◌, refl, sym, ◌∙◌, ap, subst, arith, Bool, true, false, ◌&&◌, ◌||◌,
  Bool-cases, inl, inr, Option, none, some, List, [], ◌∷◌, ◌++◌, append-nil, append_assoc, length,
  take, drop, length-take, length-drop, take-append-drop, All, All-map, All-parts, ltb, leb, ltb→lt,
  leb→le, ◌⊎◌,
}
use on_air_record.Base.Filter.{filter, filter-append, filter-all, filter-none, All-filter}
use on_air_record.Base.Int.{ℤ}
use on_air_record.Models.Segment.{Segment}
use on_air_record.Services.Retention.{
  Surroundings, Position, Sweep, Outcome, finished, failed, is_past, is_expired, find_expired_after,
  sweep_page, sweep_pages, after_page, read_page, batch_size,
}
use on_air_record.Services.Retention.Pages.{Ordered, is_stuck, Swept, Splits}
use on_air_record.Services.Retention.Pass.{Either, Settled, Broken, DeleteFailed, sweep_page-Either}

not_short : (n : ℕ) → ltb n batch_size ≡ false → batch_size ≤ n
not_short n e = ground (arith, e)

and_false : (a b : Bool) → b ≡ false → a && b ≡ false
and_false true b e = e
and_false false b e = refl

-- The database did not answer a query for a page.
unfoldable pub QueryFailed : Surroundings → String → Type 0
QueryFailed around message = (after : Option Position) × (around.query_fails after ≡ some message)

-- The outcome is right for the expired rows that are not dealt with.
unfoldable pub IsRight : Surroundings → Outcome → ℕ → List Segment → Type 0
IsRight around outcome deleted todo =
    ((outcome ≡ finished) × ((todo ≡ []) ⊎ (batch_size ≤ deleted)))
    ⊎ ((message : String) × ((outcome ≡ failed message)
          × (QueryFailed around message ⊎ DeleteFailed around message todo)))

module _ (around : Surroundings) (cutoff_ms : ℤ) (expired fresh : List Segment) where
  unfoldable pub Wanted : List Segment → Type 0
  Wanted rows = All (λ s. is_expired cutoff_ms s ≡ true) rows

  find-take :
      (p : Sweep) (done todo : List Segment) (n : ℕ)
      → Wanted todo
      → All (λ s. is_expired cutoff_ms s ≡ false) fresh
      → Settled around fresh p done todo
      → find_expired_after p.rows cutoff_ms p.after n ≡ take n todo
  unfolding find_expired_after Settled Swept Splits Wanted
  find-take p done todo n wanted young ((rows, count, bytes), (before, after)) =
      let test = λ (s : Segment). is_expired cutoff_ms s && is_past p.after s in
      let none_before = filter-none test (filter (is_stuck around) done) (
        All-filter (λ s. test s ≡ false) (is_stuck around) done
          (All-map (λ s. is_past p.after s ≡ false) (λ s. test s ≡ false) done
            (λ s e. and_false (is_expired cutoff_ms s) (is_past p.after s) e) before)) in
      let all_here = filter-all test todo (both todo wanted after) in
      let none_after = filter-none test fresh (
        All-map (λ s. is_expired cutoff_ms s ≡ false) (λ s. test s ≡ false) fresh (λ s e. rw e refl)
          young) in
      ap (λ r. take n (filter test r)) rows
      ∙ ap (take n) (
          filter-append test (filter (is_stuck around) done) (todo ++ fresh)
          ∙ rw (none_before, filter-append test todo fresh, all_here, none_after) (append-nil todo))
    where
      both :
          (xs : List Segment)
          → All (λ s. is_expired cutoff_ms s ≡ true) xs
          → All (λ s. is_past p.after s ≡ true) xs
          → All (λ s. is_expired cutoff_ms s && is_past p.after s ≡ true) xs
      both [] a b = tt
      both (x ∷ xs) a b = (rw (a.0, b.0) refl, both xs a.1 b.1)

  unfoldable pub Ends : Sweep × Outcome → Type 0
  Ends r =
      (done : List Segment) × ((todo : List Segment) × ((done ++ todo ≡ expired)
          × Swept around fresh r.0 done todo
          × IsRight around r.1 r.0.report.segments_deleted todo))

  no_more : (todo : List Segment) → length todo < batch_size → drop batch_size todo ≡ []
  no_more todo h = nil_of (drop batch_size todo) (omega (arith, length-drop batch_size todo, h))
    where
      nil_of : (xs : List Segment) → length xs ≡ 0 → xs ≡ []
      nil_of [] e = refl
      nil_of (x ∷ xs) e = ground (arith, e)

  or_cases : (a b : Bool) → a || b ≡ true → (a ≡ true) ⊎ (b ≡ true)
  or_cases true b e = inl refl
  or_cases false b e = inr e

  or_neither : (a b : Bool) → a || b ≡ false → (a ≡ false) × (b ≡ false)
  or_neither false b e = (refl, e)
  or_neither true b e = ground (arith, e)

  failed-Ends :
      (p : Sweep) (message : String) (done todo : List Segment)
      → done ++ todo ≡ expired
      → Swept around fresh p done todo
      → QueryFailed around message ⊎ DeleteFailed around message todo
      → Ends (p, failed message)
  unfolding Ends IsRight
  failed-Ends p message done todo e h why = (done, (todo, (e, h, inr (message, (refl, why)))))

  finished-Ends :
      (p : Sweep) (done todo : List Segment)
      → done ++ todo ≡ expired
      → Settled around fresh p done todo
      → (todo ≡ []) ⊎ (batch_size ≤ p.report.segments_deleted)
      → Ends (p, finished)
  unfolding Ends IsRight Settled
  finished-Ends p done todo e h enough = (done, (todo, (e, h.0, inl (refl, enough))))

  -- A page that was not full was the last; after a full one fewer rows are left.
  last_page :
      (todo : List Segment) (deleted : ℕ)
      → ltb (length (take batch_size todo)) batch_size || leb batch_size deleted ≡ true
      → (drop batch_size todo ≡ []) ⊎ (batch_size ≤ deleted)
  last_page todo deleted t =
      elim (or_cases (ltb (length (take batch_size todo)) batch_size) (leb batch_size deleted) t) [
        | inl short ↦ inl (
            no_more todo (
              omega (
                arith,
                ltb→lt (length (take batch_size todo)) batch_size short,
                length-take batch_size todo,
              )))
        | inr many ↦ inr (leb→le batch_size deleted many)
      ]

  full_page :
      (todo : List Segment) (deleted : ℕ)
      → ltb (length (take batch_size todo)) batch_size || leb batch_size deleted ≡ false
      → suc (length (drop batch_size todo)) ≤ length todo
  full_page todo deleted t =
      let (full, few) =
        or_neither (ltb (length (take batch_size todo)) batch_size) (leb batch_size deleted) t in
      omega (
        arith,
        not_short (length (take batch_size todo)) full,
        length-take batch_size todo,
        length-drop batch_size todo,
      )

  module _ (ordered : Ordered (expired ++ fresh)) where
    after_page-Ends :
        (again : Sweep → Sweep × Outcome) (done todo : List Segment) (r : Sweep × Option String)
        → done ++ (take batch_size todo ++ drop batch_size todo) ≡ expired
        → Either
            (λ q. Settled around fresh q (done ++ take batch_size todo) (drop batch_size todo))
            (Broken around fresh expired ordered)
            r
        → ((q : Sweep) (before after : List Segment)
            → suc (length after) ≤ length todo
            → before ++ after ≡ expired
            → Settled around fresh q before after
            → Ends (again q))
        → Ends (after_page again (length (take batch_size todo)) r)
    unfolding Either Broken
    after_page-Ends again done todo (p, some message) e (before, (after, (same, h, why))) later =
        failed-Ends p message before after same h (inr why)
    after_page-Ends again done todo (p, none) e h later =
        let rest = drop batch_size todo in
        let joined = append_assoc done (take batch_size todo) rest ∙ e in
        elim (Bool-cases (
          ltb (length (take batch_size todo)) batch_size
          || leb batch_size p.report.segments_deleted)) [
            | inl t ↦ rw t (
                finished-Ends p (done ++ take batch_size todo) rest joined h
                  (last_page todo p.report.segments_deleted t))
            | inr t ↦ rw t (
                later p (done ++ take batch_size todo) rest
                  (full_page todo p.report.segments_deleted t) joined h)
          ]

    module _ (wanted : Wanted expired)
        (young : All (λ s. is_expired cutoff_ms s ≡ false) fresh) where
      rest_all : (done todo : List Segment) → done ++ todo ≡ expired → Wanted todo
      unfolding Wanted
      rest_all done todo e =
          (All-parts (λ s. is_expired cutoff_ms s ≡ true) done todo
            (subst (All (λ s. is_expired cutoff_ms s ≡ true)) (sym e) wanted)).1

      read_page-Ends :
          (again : Sweep → Sweep × Outcome) (p : Sweep) (done todo : List Segment)
          (o : Option String)
          → around.query_fails p.after ≡ o
          → done ++ todo ≡ expired
          → Settled around fresh p done todo
          → ((q : Sweep) (before after : List Segment)
              → suc (length after) ≤ length todo
              → before ++ after ≡ expired
              → Settled around fresh q before after
              → Ends (again q))
          → Ends (read_page again around cutoff_ms p o)
      unfolding Settled QueryFailed
      read_page-Ends again p done todo (some message) answer e h later =
          failed-Ends p message done todo e h.0 (inl (p.after, answer))
      read_page-Ends again p done todo none answer e h later =
          let page = take batch_size todo in
          let rest = drop batch_size todo in
          let cut = take-append-drop batch_size todo in
          let split = ap (λ r. done ++ r) cut ∙ e in
          subst (λ found. Ends (after_page again (length found) (sweep_page around found p)))
            (sym (find-take p done todo batch_size (rest_all done todo e) young h))
            (after_page-Ends again done todo (sweep_page around page p) split
              (sweep_page-Either around fresh expired ordered page rest done p split
                (subst (λ r. Settled around fresh p done r) (sym cut) h))
              later)

      pub sweep_pages-more :
          (n : ℕ) (p : Sweep) (done todo : List Segment)
          → length todo < n
          → done ++ todo ≡ expired
          → Settled around fresh p done todo
          → Ends (sweep_pages around cutoff_ms n p)
      unfolding sweep_pages
      sweep_pages-more zero p done todo enough e h = elim enough [ ]
      sweep_pages-more (suc n) p done todo enough e h =
          read_page-Ends (λ q. sweep_pages around cutoff_ms n q) p done todo
            (around.query_fails p.after) refl e h
            (λ q d t fewer same k. sweep_pages-more n q d t (omega (arith, fewer, enough)) same k)
