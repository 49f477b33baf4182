-- ===== src/Tests/Segments.antt =====
-- The table of segments, out of order, with the timeline and playback over it.
use Prim.Native.String.{String}
use on_air_record.Base.{
  ◌⊎◌, ℕ, Option, none, some, List, [], ◌∷◌, map, take, drop, replicate, if◌then◌else◌,
}
use on_air_record.Base.Int.{ℤ, pos, ◌==ℤ◌}
use on_air_record.Models.Segment.{Segment, range}
use on_air_record.Models.Segment.Coverage.{Covers, Separated}
use on_air_record.Repositories.Segments.{
  covers, starts_from, find_covering, find_next_after, coverage,
}
use on_air_record.Repositories.Segments.Answers.{Best, NotLater, NotEarlier, lookups-Best}
use on_air_record.Repositories.Segments.Effects.{Bridged, coverage-Bands}
use on_air_record.Tests.Models.{second_row}

abbrev shelf : List Segment
shelf =
    record second_row { id = 9; started_at_ms = pos 9000; ended_at_ms = pos 10000 }
    ∷ second_row
    ∷ record second_row { id = 3; started_at_ms = pos 1000; ended_at_ms = pos 2000 }
    ∷ []

-- Half a second of silence in each file.
abbrev silence : Segment → ℕ → ℕ → Option (List ℕ)
silence s offset n = some (take n (drop offset (replicate 44100 0)))

abbrev busy_at_9999 : ℤ → Option String
busy_at_9999 t = if t ==ℤ pos 9999 then some "database is locked" else none

lookups-Best_example :
    Best NotLater (covers (pos 5500)) shelf (find_covering shelf (pos 5500))
    × Best NotEarlier (starts_from (pos 5500)) shelf (find_next_after shelf (pos 5500))
lookups-Best_example = lookups-Best shelf (pos 5500)

coverage-Bands_example :
    Separated (pos 50) (coverage shelf (pos 50))
    × ((t : ℤ) → Covers t (map range shelf) → Covers t (coverage shelf (pos 50)))
    × ((t : ℤ)
        → Covers t (coverage shelf (pos 50))
        → Covers t (map range shelf) ⊎ Bridged (pos 50) shelf t)
coverage-Bands_example = coverage-Bands shelf (pos 50)
