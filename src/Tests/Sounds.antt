-- ===== src/Tests/Sounds.antt =====
-- The sounds of backend/src/audio/activity.rs, in a short recording.
use on_air_record.Base.{none, ◌*◌, ◌≤◌, ◌<◌, suc, [], ◌∷◌, ◌++◌, All, replicate, arith}
use on_air_record.Base.Int.{pos, negsuc}
use on_air_record.Audio.Sounds.Floor.{
  EnvelopeRun, medium, low, high, threshold, min_level, Histogram, sum_below, percentile,
}
use on_air_record.Audio.Sounds.Detect.{detect}
use on_air_record.Audio.Sounds.Percentile.{percentile_lem}
use on_air_record.Audio.Sounds.Bounds.{threshold_monotone, IsHeard}
use on_air_record.Audio.Sounds.Stretches.{InStretch, detect-heard}

threshold_monotone_example :
    (min_level ≤ threshold 4 high)
    × (threshold 4 high ≤ threshold 4 medium)
    × (threshold 4 medium ≤ threshold 4 low)
threshold_monotone_example = threshold_monotone 4

-- Ten slots at every level.
abbrev ten_each : Histogram
ten_each level = 10

percentile_lem_example :
    (percentile ten_each < 256)
    × (3 * sum_below ten_each 256 ≤ 10 * sum_below ten_each (suc (percentile ten_each)))
    × (10 * sum_below ten_each (percentile ten_each) < 3 * sum_below ten_each 256)
unfolding sum_below
percentile_lem_example = percentile_lem ten_each (omega arith)

-- Half a second of speech between two quiet seconds, and a later recording that starts with some.
abbrev spoken : EnvelopeRun
spoken = record {
  start_ms = pos 10000;
  values = replicate 10 4 ++ replicate 5 90 ++ replicate 10 4;
}

abbrev later : EnvelopeRun
later = record { start_ms = pos 60000; values = replicate 5 90 ++ replicate 10 4 }

detect-heard_example :
    All
      (IsHeard (InStretch none (negsuc 9223372036854775807) (spoken ∷ later ∷ [])))
      (detect (spoken ∷ later ∷ []) medium)
detect-heard_example = detect-heard (spoken ∷ later ∷ []) medium (omega arith, (omega arith, tt))
