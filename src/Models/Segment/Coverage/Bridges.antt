-- ===== src/Models/Segment/Coverage/Bridges.antt =====
-- Where the moments of a band come from, for merge_ranges of
-- backend/src/repositories/segment_repository.rs.
use on_air_record.Base.{
  ◌≡◌, refl, sym, subst, arith, Bool-cases, inl, inr, List, [], ◌∷◌, All, if_branches,
}
use on_air_record.Base.Int.{ℤ, ◌-ℤ◌, ◌≤ℤ◌, ◌<ℤ◌, leb_ℤ, ltb_ℤ, leb_ℤ→le, ltb_ℤ→ge, ltb_ℤ→lt}
use on_air_record.Models.Segment.{TimeRange}
use on_air_record.Models.Segment.Coverage.{extend, merge_into, merge_ranges, Covers}

-- `Src` are the ranges that are merged; a moment in one, or in a hole between two that is within the
-- tolerance, is a good one.
module _ (Src : TimeRange → Type 0) (Good : ℤ → Type 0) (tolerance : ℤ)
    (recorded : (r : TimeRange) (t : ℤ) → Src r → r.start_ms ≤ℤ t → t <ℤ r.end_ms → Good t)
    (hole : (r q : TimeRange) (t : ℤ)
      → Src r
      → Src q
      → r.end_ms ≤ℤ t
      → t <ℤ q.start_ms
      → q.start_ms -ℤ r.end_ms ≤ℤ tolerance
      → Good t) where
  -- All of a band is good, and it ends where a merged range does.
  record IsBand (b : TimeRange) : Type 0 where
    within : (t : ℤ) → b.start_ms ≤ℤ t → t <ℤ b.end_ms → Good t
    last : TimeRange
    merged : Src last
    ends : last.end_ms ≡ b.end_ms

  range-IsBand : (r : TimeRange) → Src r → IsBand r
  range-IsBand r h = record { within = λ t. recorded r t h; last = r; merged = h; ends = refl }

  beyond :
      (b r : TimeRange)
      → IsBand b
      → Src r
      → r.start_ms -ℤ b.end_ms ≤ℤ tolerance
      → (t : ℤ) → b.start_ms ≤ℤ t
      → t <ℤ r.end_ms
      → Good t
  beyond b r v h near t low high = elim (Bool-cases (ltb_ℤ t b.end_ms)) [
    | inl e ↦ v.within t low (ltb_ℤ→lt t b.end_ms e)
    | inr e ↦ elim (Bool-cases (ltb_ℤ t r.start_ms)) [
      | inl f ↦
          hole v.last r t v.merged h (subst (λ x. x ≤ℤ t) (sym v.ends) (ltb_ℤ→ge t b.end_ms e))
            (ltb_ℤ→lt t r.start_ms f) (subst (λ x. r.start_ms -ℤ x ≤ℤ tolerance) (sym v.ends) near)
      | inr f ↦ recorded r t h (ltb_ℤ→ge t r.start_ms f) high
    ]
  ]

  extend-IsBand :
      (b r : TimeRange)
      → IsBand b
      → Src r
      → r.start_ms -ℤ b.end_ms ≤ℤ tolerance
      → IsBand (extend b r)
  extend-IsBand b r v h near =
      if_branches (λ (end : ℤ). IsBand (record b { end_ms = end })) (ltb_ℤ b.end_ms r.end_ms)
        r.end_ms b.end_ms
        (λ e. record { within = beyond b r v h near; last = r; merged = h; ends = refl }) (λ e. v)

  first_or_later :
      (t : ℤ) (b : TimeRange) (merged : List TimeRange)
      → IsBand b
      → (Covers t merged → Good t)
      → Covers t (b ∷ merged)
      → Good t
  unfolding Covers
  first_or_later t b merged v later (inl (low, high)) = v.within t low high
  first_or_later t b merged v later (inr c) = later c

  merge_into-Good :
      (t : ℤ) (previous : TimeRange) (ranges : List TimeRange)
      → IsBand previous
      → All Src ranges
      → Covers t (merge_into previous ranges tolerance)
      → Good t
  unfolding merge_into Covers
  merge_into-Good t previous [] v h c = first_or_later t previous [] v (λ e. ground (arith, e)) c
  merge_into-Good t previous (range ∷ ranges) v h c =
      if_branches (λ l. Covers t l → Good t) (leb_ℤ (range.start_ms -ℤ previous.end_ms) tolerance)
        (merge_into (extend previous range) ranges tolerance)
        (previous ∷ merge_into range ranges tolerance)
        (λ e.
          merge_into-Good t (extend previous range) ranges
            (extend-IsBand previous range v h.0
              (leb_ℤ→le (range.start_ms -ℤ previous.end_ms) tolerance e))
            h.1)
        (λ e.
          first_or_later t previous (merge_into range ranges tolerance) v
            (merge_into-Good t range ranges (range-IsBand range h.0) h.1))
        c

  pub merge_ranges-Good :
      (t : ℤ) (ranges : List TimeRange)
      → All Src ranges
      → Covers t (merge_ranges ranges tolerance)
      → Good t
  unfolding merge_ranges Covers
  merge_ranges-Good t [] h c = ground (arith, c)
  merge_ranges-Good t (range ∷ ranges) h c =
      merge_into-Good t range ranges (range-IsBand range h.0) h.1 c
