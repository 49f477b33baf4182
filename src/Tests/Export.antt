-- ===== src/Tests/Export.antt =====
-- An export of backend/src/services/export_service.rs on concrete values.
use on_air_record.Base.{
  ℕ, ◌+◌, ◌≡◌, arith, true, false, none, some, [], ◌∷◌, if◌then◌else◌, take, drop, replicate,
}
use on_air_record.Base.Int.{pos, leb_ℤ}
use on_air_record.Models.Segment.{TimeRange, contains, range}
use on_air_record.Audio.Wav.{header, header_bytes, header-sizes}
use on_air_record.Services.Playback.{Library, ok}
use on_air_record.Services.Export.{ExportPlan, Resampling, write, plan}
use on_air_record.Services.Export.Plan.{IfPlanned, Promises, plan-Promises}
use on_air_record.Services.Export.Length.{Exact, write-Exact}
use on_air_record.Tests.Models.{second_row}
use on_air_record.Ws.Protocol.{slice, from_le_bytes}

-- One second of recording from 5000 on, whose file holds half a second of silence.
abbrev shelf : Library
unfolding contains
shelf = record {
  find_covering = λ t. ok (if contains (range second_row) t then some second_row else none);
  find_next_after = λ t. ok (if leb_ℤ t (pos 5000) then some second_row else none);
  read_segment_bytes = λ s offset n. some (take n (drop offset (replicate 44100 0)));
}

abbrev whole_second : TimeRange
whole_second = record { start_ms = pos 5000; end_ms = pos 6000 }

abbrev one_second : ExportPlan
one_second = record {
  range = whole_second;
  sample_rate = 44100;
  channels = 1;
  data_bytes = 88200;
  total_bytes = 88244;
  mixed_rates = false;
}

-- Every audio is passed through.
abbrev pass_through : Resampling
pass_through = record {
  Filter = ℕ;
  build = λ from to. some from;
  process = λ active samples. (active, samples);
}

header-sizes_example :
    (from_le_bytes (slice (header 44100 1 88200) 4 8) + 8 ≡ header_bytes + 88200)
    × (from_le_bytes (slice (header 44100 1 88200) 40 44) ≡ 88200)
header-sizes_example = header-sizes 44100 1 88200 (omega arith)

plan-Promises_example :
    IfPlanned (Promises whole_second (second_row ∷ [])) (plan whole_second (ok (second_row ∷ [])))
plan-Promises_example = plan-Promises whole_second (second_row ∷ [])

write-Exact_example :
    Exact pass_through shelf
      (λ n. true)
      one_second
      (write pass_through shelf (λ n. true) one_second 5)
write-Exact_example = write-Exact pass_through shelf (λ n. true) one_second 5
