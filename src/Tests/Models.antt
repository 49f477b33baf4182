-- ===== src/Tests/Models.antt =====
-- backend/src/models on concrete values.
use Prim.Native.Nat.{Ordering}
use on_air_record.Models.Update.{Version, cmp}
use on_air_record.Models.Update.Order.{flip, Older, cmp-total}
use on_air_record.Base.{none, some, ℕ, ◌%◌, ◌≡◌, refl, true, List, [], ◌∷◌, arith}
use on_air_record.Base.Int.{pos, ◌+ℤ◌, ◌-ℤ◌, ◌≤ℤ◌, max_ℤ, min_ℤ}
use on_air_record.Models.Activity.{ActivityEvent, role_changed, admin, listener}
use on_air_record.Models.Activity.Tally.{
  new, follow, finish, Report, reported, went_back, paused, playing, heard, went_back_in,
  finish-heard,
}
use on_air_record.Models.Segment.{
  Segment, byte_offset_for, timestamp_for_offset, bytes_per_sample_frame, elapsed_ms,
  saturating_mul,
}
use on_air_record.Models.Segment.Seek.{WrittenWhole, byte_offset_for-near}

abbrev demoted : ActivityEvent ℕ
demoted = role_changed "a@example.com" admin listener

-- Played, paused, went back, played again.
abbrev session : List Report
session = reported paused (pos 500) ∷ went_back (pos 20) ∷ reported playing (pos 900) ∷ []

finish-heard_example :
    ((finish (follow (new (pos 100)) session) (pos 1000)).connected_ms
      ≡ max_ℤ (pos 1000 -ℤ pos 100) (pos 0))
    × ((finish (follow (new (pos 100)) session) (pos 1000)).played_ms
        ≡ heard true (pos 100) session (pos 1000))
    × ((finish (follow (new (pos 100)) session) (pos 1000)).played_back ≡ went_back_in session)
finish-heard_example =
    finish-heard (pos 100) (pos 1000) session (omega arith, (omega arith, omega arith))

abbrev pub second_row : Segment
second_row = record {
  id = 1;
  session_id = 1;
  sequence = 0;
  day = "2026-01-01";
  path = "2026/a.pcm";
  started_at_ms = pos 5000;
  ended_at_ms = pos 6000;
  sample_rate = 44100;
  channels = 1;
  byte_len = pos 88200;
  peaks = [];
}

second_row-WrittenWhole : WrittenWhole second_row
unfolding elapsed_ms bytes_per_sample_frame ◌-ℤ◌ max_ℤ min_ℤ
second_row-WrittenWhole = record {
  ordered = omega arith;
  rate = omega arith;
  small = omega arith;
  covered = omega arith;
}

byte_offset_for-near_example :
    (byte_offset_for second_row (pos 5501) % bytes_per_sample_frame second_row ≡ 0)
    × (timestamp_for_offset second_row (byte_offset_for second_row (pos 5501)) ≤ℤ pos 5501)
    × (pos 5501 ≤ℤ timestamp_for_offset second_row (byte_offset_for second_row (pos 5501)) +ℤ pos 1)
byte_offset_for-near_example =
    byte_offset_for-near second_row (pos 5501) second_row-WrittenWhole (omega arith) (omega arith)

-- The moment is rounded down to a sample, and that to a millisecond.
near_5501 : timestamp_for_offset second_row (byte_offset_for second_row (pos 5501)) ≡ pos 5500
unfolding timestamp_for_offset byte_offset_for elapsed_ms bytes_per_sample_frame ◌-ℤ◌ ◌+ℤ◌ max_ℤ
    min_ℤ saturating_mul
near_5501 = refl

abbrev release : Version
release = record { major = 0; minor = 6; patch = 0; pre = none }

-- Its second beta.
abbrev preview : Version
preview = record { major = 0; minor = 6; patch = 0; pre = some 2 }

abbrev next_release : Version
next_release = record { major = 0; minor = 10; patch = 0; pre = none }

cmp-total_example :
    (cmp release preview ≡ flip (cmp preview release))
    × (cmp preview release ≡ Ordering.eq → preview ≡ release)
    × (cmp preview release ≡ Ordering.lt
        → cmp release next_release ≡ Ordering.lt
        → cmp preview next_release ≡ Ordering.lt)
    × (Older preview release → cmp preview release ≡ Ordering.lt)
cmp-total_example = cmp-total preview release next_release
