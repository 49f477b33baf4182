-- ===== src/Audio/Sounds/Floor.antt =====
-- The level that counts as a sound, and the noise floor it is measured from.
-- The source multiplies by 2.5, 3.5 and 5.0 in f64, which is exact for a byte, and rounds up; tenths
-- of a natural number do the same. It rounds `total * 0.3` up; the f64 0.3 lies just below 3/10, and
-- rounding is monotone, so for every total below 2 ^ 50 the result is that of the exact fraction.
use on_air_record.Base.{
  ℕ, zero, suc, ◌+◌, ◌*◌, ◌/◌, min, max, Option, none, some, List, [], ◌∷◌, map, leb, ◌==◌,
  if◌then◌else◌,
}
use on_air_record.Base.Int.{ℤ, pos, ◌+ℤ◌, ◌-ℤ◌, ◌==ℤ◌, ltb_ℤ, div_euclid}

pub data SoundSensitivity : Type 0 where
  low medium high : SoundSensitivity

abbrev pub peak_bucket_ms : ℕ
peak_bucket_ms = 100

abbrev pub floor_block_ms : ℕ
floor_block_ms = 300000

abbrev pub sparse_block_slots : ℕ
sparse_block_slots = 600

abbrev pub min_level : ℕ
min_level = 2

pub record EnvelopeRun : Type 0 where
  pub start_ms : ℤ
  pub values : List ℕ  -- u8

-- The factor in tenths, and the margin.
abbrev pub thresholds : SoundSensitivity → ℕ × ℕ
thresholds high = (25, 3)
thresholds medium = (35, 5)
thresholds low = (50, 10)

unfoldable pub threshold : ℕ → SoundSensitivity → ℕ
threshold floor sensitivity =
    let (factor, margin) = thresholds sensitivity in
    let multiple = min ((floor * factor + 9) / 10) 255 in
    max (max multiple (min (floor + margin) 255)) min_level

-- How many slots of a block have each level.
abbrev pub Histogram : Type 0
Histogram = ℕ → ℕ

abbrev pub empty : Histogram
empty level = 0

unfoldable pub add_slot : Histogram → ℕ → Histogram
add_slot h value level = if value == level then h level + 1 else h level

-- The counts of the levels below `n`.
unfoldable pub sum_below : Histogram → ℕ → ℕ
sum_below h zero = 0
sum_below h (suc n) = sum_below h n + h n

-- The loop over the levels that are left, from `level` on.
unfoldable pub find_level : Histogram → ℕ → ℕ → ℕ → ℕ → ℕ
find_level h target seen level zero = 255
find_level h target seen level (suc left) =
    let rest = find_level h target (seen + h level) (level + 1) left in
    if leb target (seen + h level) then level else rest

abbrev pub target_of : ℕ → ℕ
target_of total = max ((total * 3 + 9) / 10) 1

unfoldable pub percentile : Histogram → ℕ
percentile h =
    let total = sum_below h 256 in
    let level = find_level h (target_of total) 0 0 256 in if total == 0 then 0 else level

-- The map from a block's number to its histogram.
abbrev pub Histograms : Type 0
Histograms = List (ℤ × Histogram)

unfoldable pub get : ℤ → Histograms → Option Histogram
get k [] = none
get k ((j, h) ∷ rest) = if j ==ℤ k then some h else get k rest

-- `entry(block).or_insert(..)` and the increment, in the order of the keys.
unfoldable pub count_slot : ℤ → ℕ → Histograms → Histograms
unfolding add_slot
count_slot k value [] = (k, add_slot empty value) ∷ []
count_slot k value ((j, h) ∷ rest) =
    let later = count_slot k value rest in
    if j ==ℤ k
    then (j, add_slot h value) ∷ rest
    else if ltb_ℤ k j
    then (k, add_slot empty value) ∷ (j, h) ∷ rest
    else (j, h) ∷ later

unfoldable pub count_values : ℤ → List ℕ → Histograms → Histograms
count_values slot_start_ms [] hs = hs
count_values slot_start_ms (value ∷ values) hs =
    count_values (slot_start_ms +ℤ pos peak_bucket_ms) values
      (count_slot (div_euclid slot_start_ms floor_block_ms) value hs)

unfoldable pub histograms : List EnvelopeRun → Histograms → Histograms
histograms [] hs = hs
histograms (run ∷ runs) hs = histograms runs (count_values run.start_ms run.values hs)

abbrev pub or_empty : Option Histogram → Histogram
or_empty none = empty
or_empty (some h) = h

abbrev pub combined : ℤ → Histograms → Histogram
combined block hs level =
    or_empty (get (block -ℤ pos 1) hs) level
    + or_empty (get block hs) level
    + or_empty (get (block +ℤ pos 1) hs) level

unfoldable pub floor_of : Histograms → ℤ × Histogram → ℤ × ℕ
floor_of hs (block, own) =
    if leb sparse_block_slots (sum_below own 256)
    then (block, percentile own)
    else (block, percentile (combined block hs))

unfoldable pub noise_floors : List EnvelopeRun → List (ℤ × ℕ)
unfolding histograms floor_of
noise_floors runs = let hs = histograms runs [] in map (floor_of hs) hs

-- `floors.get(..).copied().unwrap_or(0)`.
unfoldable pub floor_at : ℤ → List (ℤ × ℕ) → ℕ
floor_at k [] = 0
floor_at k ((j, level) ∷ rest) = if j ==ℤ k then level else floor_at k rest
