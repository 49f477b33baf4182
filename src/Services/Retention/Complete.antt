-- ===== src/Services/Retention/Complete.antt =====
-- What one pass of the janitor does to the index, for any index in order.
use Prim.Native.String.{String}
use on_air_record.Base.{
  suc, ◌<◌, ◌≡◌, ◌≢◌, refl, sym, ◌∙◌, ap, subst, arith, Bool, true, false, not, Bool-cases, inl,
  inr, List, [], ◌∷◌, ◌++◌, length, length-append, All, All-append, All-map, ◌⊎◌,
}
use on_air_record.Base.Filter.{filter, filter-none}
use on_air_record.Base.Int.{ℤ}
use on_air_record.Models.Segment.{Segment}
use on_air_record.Services.Retention.{
  Surroundings, Sweep, Outcome, finished, failed, is_past, is_expired, sweep_pages, no_sweep,
  batch_size,
}
use on_air_record.Services.Retention.Pages.{Apart, Ordered, total_bytes, is_stuck, Swept, Splits}
use on_air_record.Services.Retention.Pass.{Settled}
use on_air_record.Services.Retention.Pass.Sweeps.{IsRight, Ends, Wanted, sweep_pages-more}

abbrev pub expired_rows : ℤ → List Segment → List Segment
expired_rows cutoff_ms rows = filter (is_expired cutoff_ms) rows

abbrev pub young_rows : ℤ → List Segment → List Segment
young_rows cutoff_ms rows = filter (λ s. not (is_expired cutoff_ms s)) rows

module _ (cutoff_ms : ℤ) where
  later_young :
      (x y : Segment) → is_expired cutoff_ms x ≡ false → Apart x y → is_expired cutoff_ms y ≡ false
  unfolding Apart is_past
  later_young x y e (past, other) = ground (arith, e, past)

  -- In the order of the query, the expired rows come first.
  split_rows :
      (rows : List Segment)
      → Ordered rows
      → expired_rows cutoff_ms rows ++ young_rows cutoff_ms rows ≡ rows
  unfolding filter Ordered
  split_rows [] o = refl
  split_rows (x ∷ rows) o = elim (Bool-cases (is_expired cutoff_ms x)) [
    | inl e ↦ rw (e, split_rows rows o.1) refl
    | inr e ↦
        let none_later = filter-none (is_expired cutoff_ms) rows (
          All-map (Apart x) (λ y. is_expired cutoff_ms y ≡ false) rows (λ y a. later_young x y e a)
            o.0) in
        rw (e, none_later)
          (ap (λ r. x ∷ r)
            (subst (λ r. r ++ young_rows cutoff_ms rows ≡ rows) none_later (split_rows rows o.1)))
  ]

  all_true : (p : Segment → Bool) (rows : List Segment) → All (λ s. p s ≡ true) (filter p rows)
  unfolding filter
  all_true p [] = tt
  all_true p (x ∷ rows) = elim (Bool-cases (p x)) [
    | inl e ↦ rw e (e, all_true p rows)
    | inr e ↦ rw e (all_true p rows)
  ]

  not-true : (b : Bool) → not b ≡ true → b ≡ false
  not-true true e = ground (arith, e)
  not-true false e = refl

module _ (around : Surroundings) (cutoff_ms : ℤ) where
  start-Settled :
      (rows : List Segment)
      → Ordered rows
      → Settled around (young_rows cutoff_ms rows) (no_sweep rows) [] (expired_rows cutoff_ms rows)
  unfolding Settled Swept Splits filter is_past total_bytes
  start-Settled rows o =
      ((sym (split_rows cutoff_ms rows o), refl, refl), (tt, always (expired_rows cutoff_ms rows)))
    where
      always : (xs : List Segment) → All (λ (s : Segment). true ≡ true) xs
      always [] = tt
      always (x ∷ xs) = (refl, always xs)

  shorter :
      (rows : List Segment)
      → Ordered rows
      → length (expired_rows cutoff_ms rows) < suc (length rows)
  shorter rows o = omega (
    arith,
    ap length (split_rows cutoff_ms rows o),
    length-append (expired_rows cutoff_ms rows) (young_rows cutoff_ms rows),
  )

  -- For an index in the order of its query, a pass ends. It has dealt with the first of the expired
  -- rows, in order: the ones whose file could not be deleted keep their row, the others are gone and
  -- are what the report counts, rows and bytes; every other row is as it was. Either no
  -- expired row is left to deal with or a full batch was deleted, or the pass failed with what the
  -- database answered: to a query for a page, or when it was to delete the next row, whose file is gone.
  pub sweep_pages-Ends :
      (rows : List Segment)
      → Ordered rows
      → Ends around cutoff_ms
          (expired_rows cutoff_ms rows)
          (young_rows cutoff_ms rows)
          (sweep_pages around cutoff_ms (suc (length rows)) (no_sweep rows))
  unfolding Wanted
  sweep_pages-Ends rows o =
      sweep_pages-more around cutoff_ms (expired_rows cutoff_ms rows) (young_rows cutoff_ms rows)
        (subst Ordered (sym (split_rows cutoff_ms rows o)) o)
        (all_true cutoff_ms (is_expired cutoff_ms) rows)
        (All-map (λ s. not (is_expired cutoff_ms s) ≡ true) (λ s. is_expired cutoff_ms s ≡ false)
          (young_rows cutoff_ms rows) (λ s e. not-true cutoff_ms (is_expired cutoff_ms s) e)
          (all_true cutoff_ms (λ s. not (is_expired cutoff_ms s)) rows))
        (suc (length rows)) (no_sweep rows) [] (expired_rows cutoff_ms rows) (shorter rows o) refl
        (start-Settled rows o)

  no_todo :
      (r : Sweep × Outcome) (todo : List Segment)
      → IsRight around r.1 r.0.report.segments_deleted todo
      → r.1 ≡ finished
      → r.0.report.segments_deleted < batch_size
      → todo ≡ []
  unfolding IsRight
  no_todo r todo (inl (ended, inl none_left)) e few = none_left
  no_todo r todo (inl (ended, inr many)) e few = absurd (omega (arith, many, few))
  no_todo r todo (inr (message, (broke, why))) e few = absurd (differ message (sym e ∙ broke))
    where
      differ : (message : String) → finished ≢ failed message
      differ message e = ground (arith, e)

  -- A pass that ended without an error and deleted less than a batch has left no expired row but those
  -- whose file cannot be deleted.
  pub sweep_pages-leaves_stuck :
      (rows : List Segment)
      → Ordered rows
      → let r = sweep_pages around cutoff_ms (suc (length rows)) (no_sweep rows) in
        r.1 ≡ finished
        → r.0.report.segments_deleted < batch_size
        → All (λ s. (is_stuck around s ≡ true) ⊎ (is_expired cutoff_ms s ≡ false)) r.0.rows
  unfolding Ends Swept
  sweep_pages-leaves_stuck rows o ended few =
      let r = sweep_pages around cutoff_ms (suc (length rows)) (no_sweep rows) in
      let (done, (todo, (joined, (left, count, bytes), right))) = sweep_pages-Ends rows o in
      let young = young_rows cutoff_ms rows in
      let here = no_todo r todo right ended few in
      subst (All (λ s. (is_stuck around s ≡ true) ⊎ (is_expired cutoff_ms s ≡ false)))
        (sym (left ∙ ap (λ t. filter (is_stuck around) done ++ (t ++ young)) here))
        (All-append _ (filter (is_stuck around) done) young
          (All-map (λ s. is_stuck around s ≡ true) _ (filter (is_stuck around) done) (λ s e. inl e)
            (all_true cutoff_ms (is_stuck around) done))
          (All-map (λ s. not (is_expired cutoff_ms s) ≡ true) _ young
            (λ s e. inr (not-true cutoff_ms (is_expired cutoff_ms s) e))
            (all_true cutoff_ms (λ s. not (is_expired cutoff_ms s)) rows)))
