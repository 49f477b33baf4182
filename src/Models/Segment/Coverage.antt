-- ===== src/Models/Segment/Coverage.antt =====
-- merge_ranges of backend/src/repositories/segment_repository.rs: the bands that the timeline shades.
pub mod Bridges
use on_air_record.Base.{
  ◌≡◌, refl, arith, true, false, ◌⊎◌, inl, inr, List, [], ◌∷◌, if◌then◌else◌, if_branches,
}
use on_air_record.Base.Int.{
  ℤ, ◌-ℤ◌, ◌≤ℤ◌, ◌<ℤ◌, leb_ℤ, ltb_ℤ, leb_ℤ→gt, ltb_ℤ→ge, ltb_ℤ→lt, le_ℤ_trans, parts_zero,
}
use on_air_record.Models.Segment.{TimeRange}

abbrev pub extend : TimeRange → TimeRange → TimeRange
extend previous range = record previous {
  end_ms = if ltb_ℤ previous.end_ms range.end_ms then range.end_ms else previous.end_ms;
}

-- With the last of the merged ranges so far.
unfoldable pub merge_into : TimeRange → List TimeRange → ℤ → List TimeRange
merge_into previous [] gap_tolerance_ms = previous ∷ []
merge_into previous (range ∷ ranges) gap_tolerance_ms =
    let joined = merge_into (extend previous range) ranges gap_tolerance_ms in
    let apart = merge_into range ranges gap_tolerance_ms in
    if leb_ℤ (range.start_ms -ℤ previous.end_ms) gap_tolerance_ms then joined else previous ∷ apart

unfoldable pub merge_ranges : List TimeRange → ℤ → List TimeRange
unfolding merge_into
merge_ranges [] gap_tolerance_ms = []
merge_ranges (range ∷ ranges) gap_tolerance_ms = merge_into range ranges gap_tolerance_ms

-- Every range starts at or after the one before it.
unfoldable pub Sorted : ℤ → List TimeRange → Type 0
Sorted from_ms [] = Unit
Sorted from_ms (range ∷ ranges) = (from_ms ≤ℤ range.start_ms) × Sorted range.start_ms ranges

-- Some range has the moment.
unfoldable pub Covers : ℤ → List TimeRange → Type 0
Covers t [] = false ≡ true
Covers t (range ∷ ranges) = ((range.start_ms ≤ℤ t) × (t <ℤ range.end_ms)) ⊎ Covers t ranges

-- Between a range and the next there is more than the tolerance.
unfoldable pub Separated : ℤ → List TimeRange → Type 0
Separated tolerance [] = Unit
Separated tolerance (range ∷ []) = Unit
Separated tolerance (range ∷ next ∷ ranges) =
    (tolerance <ℤ next.start_ms -ℤ range.end_ms) × Separated tolerance (next ∷ ranges)

-- The first merged range starts where it did.
StartsAt : ℤ → List TimeRange → Type 0
StartsAt start_ms [] = false ≡ true
StartsAt start_ms (range ∷ ranges) = range.start_ms ≡ start_ms

merge_into-StartsAt :
    (previous : TimeRange) (ranges : List TimeRange) (tolerance : ℤ)
    → StartsAt previous.start_ms (merge_into previous ranges tolerance)
unfolding merge_into StartsAt
merge_into-StartsAt previous [] tolerance = refl
merge_into-StartsAt previous (range ∷ ranges) tolerance =
    if_branches (StartsAt previous.start_ms) (leb_ℤ (range.start_ms -ℤ previous.end_ms) tolerance) _
      _ (λ e. merge_into-StartsAt (extend previous range) ranges tolerance) (λ e. refl)

Separated-cons :
    (previous : TimeRange) (start_ms tolerance : ℤ) (merged : List TimeRange)
    → StartsAt start_ms merged
    → tolerance <ℤ start_ms -ℤ previous.end_ms
    → Separated tolerance merged
    → Separated tolerance (previous ∷ merged)
unfolding Separated StartsAt
Separated-cons previous start_ms tolerance [] s far h = tt
Separated-cons previous start_ms tolerance (next ∷ merged) s far h = (rw s far, h)

merge_into-Separated :
    (previous : TimeRange) (ranges : List TimeRange) (tolerance : ℤ)
    → Separated tolerance (merge_into previous ranges tolerance)
unfolding merge_into Separated
merge_into-Separated previous [] tolerance = tt
merge_into-Separated previous (range ∷ ranges) tolerance =
    if_branches (Separated tolerance) (leb_ℤ (range.start_ms -ℤ previous.end_ms) tolerance) _ _
      (λ e. merge_into-Separated (extend previous range) ranges tolerance)
      (λ e.
        Separated-cons previous range.start_ms tolerance (merge_into range ranges tolerance)
          (merge_into-StartsAt range ranges tolerance)
          (leb_ℤ→gt (range.start_ms -ℤ previous.end_ms) tolerance e)
          (merge_into-Separated range ranges tolerance))

extend_end :
    (previous range : TimeRange)
    → (previous.end_ms ≤ℤ (extend previous range).end_ms)
      × (range.end_ms ≤ℤ (extend previous range).end_ms)
extend_end previous range =
    if_branches (λ e. (previous.end_ms ≤ℤ e) × (range.end_ms ≤ℤ e))
      (ltb_ℤ previous.end_ms range.end_ms) range.end_ms previous.end_ms
      (λ t. (omega (arith, ltb_ℤ→lt previous.end_ms range.end_ms t), omega arith))
      (λ t. (omega arith, ltb_ℤ→ge previous.end_ms range.end_ms t))

extend-Covers :
    (t : ℤ) (previous range : TimeRange) (ranges : List TimeRange)
    → previous.start_ms ≤ℤ range.start_ms
    → Covers t (previous ∷ range ∷ ranges)
    → Covers t (extend previous range ∷ ranges)
unfolding Covers
extend-Covers t previous range ranges h (inl (low, high)) = inl (
  low,
  omega (
    arith,
    high,
    (extend_end previous range).0,
    parts_zero previous.end_ms,
    parts_zero t,
    parts_zero (extend previous range).end_ms,
  ),
)
extend-Covers t previous range ranges h (inr (inl (low, high))) = inl (
  le_ℤ_trans previous.start_ms range.start_ms t h low,
  omega (
    arith,
    high,
    (extend_end previous range).1,
    parts_zero range.end_ms,
    parts_zero t,
    parts_zero (extend previous range).end_ms,
  ),
)
extend-Covers t previous range ranges h (inr (inr later)) = inr later

Sorted-earlier :
    (low high : ℤ) (ranges : List TimeRange) → low ≤ℤ high → Sorted high ranges → Sorted low ranges
unfolding Sorted
Sorted-earlier low high [] h s = tt
Sorted-earlier low high (range ∷ ranges) h s = (le_ℤ_trans low high range.start_ms h s.0, s.1)

cons-Covers :
    (t : ℤ) (previous : TimeRange) (ranges merged : List TimeRange)
    → (Covers t ranges → Covers t merged)
    → Covers t (previous ∷ ranges)
    → Covers t (previous ∷ merged)
unfolding Covers
cons-Covers t previous ranges merged later (inl here) = inl here
cons-Covers t previous ranges merged later (inr c) = inr (later c)

merge_into-Covers :
    (t : ℤ) (previous : TimeRange) (ranges : List TimeRange) (tolerance : ℤ)
    → Sorted previous.start_ms ranges
    → Covers t (previous ∷ ranges)
    → Covers t (merge_into previous ranges tolerance)
unfolding merge_into Sorted
merge_into-Covers t previous [] tolerance s c = c
merge_into-Covers t previous (range ∷ ranges) tolerance s c =
    if_branches (Covers t) (leb_ℤ (range.start_ms -ℤ previous.end_ms) tolerance) _ _
      (λ e.
        merge_into-Covers t (extend previous range) ranges tolerance
          (Sorted-earlier previous.start_ms range.start_ms ranges s.0 s.1)
          (extend-Covers t previous range ranges s.0 c))
      (λ e.
        cons-Covers t previous (range ∷ ranges) (merge_into range ranges tolerance)
          (λ k. merge_into-Covers t range ranges tolerance s.1 k) c)

-- The bands that are left are further apart than the tolerance, and for ranges in order of their starts
-- every recorded moment is still in one of them.
pub merge_ranges-Separated :
    (ranges : List TimeRange) (tolerance from_ms : ℤ)
    → Sorted from_ms ranges
    → Separated tolerance (merge_ranges ranges tolerance)
      × ((t : ℤ) → Covers t ranges → Covers t (merge_ranges ranges tolerance))
unfolding merge_ranges Sorted Separated
merge_ranges-Separated [] tolerance from_ms s = (tt, λ t c. c)
merge_ranges-Separated (range ∷ ranges) tolerance from_ms s = (
  merge_into-Separated range ranges tolerance,
  λ t c. merge_into-Covers t range ranges tolerance s.1 c,
)
