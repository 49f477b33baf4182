-- ===== src/Repositories/Segments/Effects.antt =====
-- The bands of the timeline, and playback (backend/src/services/playback_service.rs), over the table of
-- segments.
use Prim.Native.String.{String}
use on_air_record.Base.{
  ◌≡◌, refl, sym, subst, true, false, ◌⊎◌, inl, inr, List, [], ◌∷◌, map, All, All-map, All-image,
  arith,
}
use on_air_record.Base.Int.{ℤ, pos, ◌-ℤ◌, ◌≤ℤ◌, ◌<ℤ◌}
use on_air_record.Models.Segment.{Segment, range}
use on_air_record.Models.Segment.Coverage.{
  Sorted, Covers, Separated, merge_ranges, merge_ranges-Separated,
}
use on_air_record.Models.Segment.Coverage.Bridges.{merge_ranges-Good}
use on_air_record.Repositories.Segments.{by_start, coverage}
use on_air_record.Repositories.Segments.Order.{
  InOrder, by_start-InOrder, InOrder-Sorted, by_start-Covers, by_start-All,
}

merge_sorted :
    (rows : List Segment) (tolerance : ℤ)
    → InOrder rows
    → Separated tolerance (merge_ranges (map range rows) tolerance)
      × ((t : ℤ) → Covers t (map range rows) → Covers t (merge_ranges (map range rows) tolerance))
unfolding InOrder Sorted
merge_sorted [] tolerance h = merge_ranges-Separated [] tolerance (pos 0) tt
merge_sorted (s ∷ rows) tolerance (from, h) =
    merge_ranges-Separated (map range (s ∷ rows)) tolerance s.started_at_ms
      (InOrder-Sorted s.started_at_ms (s ∷ rows) (omega arith, from) (from, h))

unfoldable pub Has : List Segment → Segment → Type 0
Has [] s = false ≡ true
Has (r ∷ rows) s = (r ≡ s) ⊎ Has rows s

-- A moment between the end of a row and the start of one, no further apart than the tolerance.
unfoldable pub Bridged : ℤ → List Segment → ℤ → Type 0
Bridged tolerance rows t =
    (r : Segment) × ((q : Segment) × (Has rows r
        × Has rows q
        × (r.ended_at_ms ≤ℤ t)
        × (t <ℤ q.started_at_ms)
        × (q.started_at_ms -ℤ r.ended_at_ms ≤ℤ tolerance)))

all-Has : (rows : List Segment) → All (Has rows) rows
unfolding Has
all-Has [] = tt
all-Has (s ∷ rows) =
    (inl refl, All-map (Has rows) (Has (s ∷ rows)) rows (λ r h. inr h) (all-Has rows))

Has-Covers :
    (t : ℤ) (rows : List Segment) (s : Segment)
    → Has rows s
    → s.started_at_ms ≤ℤ t
    → t <ℤ s.ended_at_ms
    → Covers t (map range rows)
unfolding Has Covers
Has-Covers t [] s h low high = h
Has-Covers t (r ∷ rows) s (inl e) low high = inl (rw e low, rw e high)
Has-Covers t (r ∷ rows) s (inr h) low high = inr (Has-Covers t rows s h low high)

band_moment :
    (rows : List Segment) (tolerance t : ℤ)
    → Covers t (merge_ranges (map range (by_start rows)) tolerance)
    → Covers t (map range rows) ⊎ Bridged tolerance rows t
unfolding Bridged
band_moment rows tolerance t =
    merge_ranges-Good (λ r. (s : Segment) × (Has rows s × (range s ≡ r)))
      (λ t. Covers t (map range rows) ⊎ Bridged tolerance rows t) tolerance
      (λ r t src low high.
        let (s, (h, e)) = src in
        inl (
          Has-Covers t rows s h (subst (λ x. x.start_ms ≤ℤ t) (sym e) low)
            (subst (λ x. t <ℤ x.end_ms) (sym e) high)))
      (λ r q t first next low high near.
        let (s, (h, e)) = first in
        let (u, (k, f)) = next in
        inr (
          s,
          (
            u,
            (
              h,
              k,
              subst (λ x. x.end_ms ≤ℤ t) (sym e) low,
              subst (λ x. t <ℤ x.start_ms) (sym f) high,
              subst (λ x. u.started_at_ms -ℤ x.end_ms ≤ℤ tolerance) (sym e)
                  (subst (λ x. x.start_ms -ℤ r.end_ms ≤ℤ tolerance) (sym f) near),
            ),
          ),
        ))
      t (map range (by_start rows))
      (All-image (Has rows) (λ r. (s : Segment) × (Has rows s × (range s ≡ r))) range
        (by_start rows) (λ s h. (s, (h, refl))) (by_start-All (Has rows) rows (all-Has rows)))

-- The bands that the timeline shades are further apart than the tolerance, and every moment that a row of
-- the table has is in one of them, in whatever order the table holds its rows; and a moment in a band is
-- one that a row has, or lies between the end of a row and the start of one that are no further apart
-- than the tolerance.
pub coverage-Bands :
    (rows : List Segment) (gap_tolerance_ms : ℤ)
    → Separated gap_tolerance_ms (coverage rows gap_tolerance_ms)
      × ((t : ℤ) → Covers t (map range rows) → Covers t (coverage rows gap_tolerance_ms))
      × ((t : ℤ)
          → Covers t (coverage rows gap_tolerance_ms)
          → Covers t (map range rows) ⊎ Bridged gap_tolerance_ms rows t)
unfolding coverage
coverage-Bands rows gap_tolerance_ms =
    let (apart, kept) = merge_sorted (by_start rows) gap_tolerance_ms (by_start-InOrder rows) in
    (apart, λ t c. kept t (by_start-Covers t rows c), band_moment rows gap_tolerance_ms)
