-- ===== src/Audio/Sounds/Percentile.antt =====
-- The noise floor of a block, against the source's comment on FLOOR_PERCENTILE
-- (backend/src/audio/activity.rs).
use native.Mathlib.Numerals.{add-one}
use on_air_record.Base.{
  ap, ℕ, zero, suc, ◌+◌, ◌*◌, ◌≤◌, ◌<◌, ◌≡◌, refl, inl, inr, Bool-cases, false, arith, leb, ◌==◌,
}
use on_air_record.Audio.Sounds.Floor.{Histogram, sum_below, find_level, percentile, target_of}

-- The level at which the counts first reach the target.
abbrev Reaches : Histogram → ℕ → ℕ → Type 0
Reaches h target level =
    (sum_below h level < target) × (target ≤ sum_below h (suc level)) × (level < 256)

sum_below-suc : (h : Histogram) (n : ℕ) → sum_below h (suc n) ≡ sum_below h n + h n
unfolding sum_below
sum_below-suc h n = refl

sum_below-suc' : (h : Histogram) (n : ℕ) → sum_below h (n + 1) ≡ sum_below h n + h n
sum_below-suc' h n = rw add-one (sum_below-suc h n)

sum_below-zero : (h : Histogram) → 0 ≡ sum_below h 0
unfolding sum_below
sum_below-zero h = refl

find_level-Reaches :
    (h : Histogram) (target seen level left : ℕ)
    → seen ≡ sum_below h level
    → level + left ≡ 256
    → seen < target
    → target ≤ sum_below h 256
    → Reaches h target (find_level h target seen level left)
unfolding find_level
find_level-Reaches h target seen level zero s e l t =
    let full : level ≡ 256 = omega (arith, e) in
    absurd (omega (arith, s, l, t, ap (sum_below h) full))
find_level-Reaches h target seen level (suc left) s e l t =
    elim (Bool-cases (leb target (seen + h level))) [
      | inl hit ↦ rw hit (omega (arith, s, l), ground (arith, sum_below-suc h level), omega arith)
      | inr miss ↦ rw miss (
          find_level-Reaches h target (seen + h level) (level + 1) left
            (omega (arith, s, sum_below-suc' h level)) (omega (arith, e)) (ground arith) t)
    ]

-- The target is three tenths of the total, rounded up.
three_tenths :
    (total under upto : ℕ)
    → under < target_of total
    → target_of total ≤ upto
    → 0 < total
    → (3 * total ≤ 10 * upto) × (10 * under < 3 * total)
three_tenths total under upto below above some_slots = omega (arith, below, above, some_slots)

target-le : (total : ℕ) → 0 < total → (0 < target_of total) × (target_of total ≤ total)
target-le total some_slots = omega (arith, some_slots)

not-zero : (total : ℕ) → 0 < total → (total == 0) ≡ false
not-zero total some_slots = ground (arith, some_slots)

-- In a block that holds any recording, the floor is a byte, at least three tenths of the block's
-- slots lie at or below it, and fewer than three tenths lie below it.
pub percentile_lem :
    (h : Histogram)
    → 0 < sum_below h 256
    → let level = percentile h in
      let total = sum_below h 256 in
      (level < 256)
      × (3 * total ≤ 10 * sum_below h (suc level))
      × (10 * sum_below h level < 3 * total)
unfolding percentile
percentile_lem h some_slots =
    let total = sum_below h 256 in
    let target = target_of total in
    let (positive, most) = target-le total some_slots in
    let (under, over, byte) =
      find_level-Reaches h target 0 0 256 (sum_below-zero h) refl positive most in
    let level = find_level h target 0 0 256 in
    let (least, fewer) =
      three_tenths total (sum_below h level) (sum_below h (suc level)) under over some_slots in
    rw (not-zero total some_slots) (byte, least, fewer)
