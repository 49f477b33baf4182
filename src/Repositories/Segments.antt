-- ===== src/Repositories/Segments.antt =====
-- backend/src/repositories/segment_repository.rs: the statements on the table of segments, on its rows. Among
-- rows that start at the same moment SQLite may take any; here the order of the table decides.
-- The pages of expired rows are in Services/Retention.
pub mod Order
pub mod Answers
pub mod Effects
use Prim.Native.String.{String}
use on_air_record.Base.{
  ℕ, ◌+◌, Bool, true, false, Option, none, some, List, [], ◌∷◌, ◌++◌, map, length, if◌then◌else◌,
}
use on_air_record.Base.Filter.{filter}
use on_air_record.Base.Int.{ℤ, pos, ◌+ℤ◌, max_ℤ, min_ℤ, leb_ℤ, ltb_ℤ}
use on_air_record.Models.Segment.{Segment, TimeRange, range, contains, overlaps}
use on_air_record.Models.Segment.Coverage.{merge_ranges}
use on_air_record.Services.Playback.{Answer, ok, error, Library}

pub record SegmentDraft : Type 0 where
  pub session_id : ℕ
  pub sequence : ℕ
  pub day : String
  pub path : String
  pub started_at_ms : ℤ
  pub ended_at_ms : ℤ
  pub sample_rate : ℕ
  pub channels : ℕ
  pub byte_len : ℤ
  pub peaks : List ℕ

-- With the id that the database gives.
unfoldable pub insert : List Segment → ℕ → SegmentDraft → List Segment
insert rows id draft =
    rows
    ++ record {
      id = id;
      session_id = draft.session_id;
      sequence = draft.sequence;
      day = draft.day;
      path = draft.path;
      started_at_ms = draft.started_at_ms;
      ended_at_ms = draft.ended_at_ms;
      sample_rate = draft.sample_rate;
      channels = draft.channels;
      byte_len = draft.byte_len;
      peaks = draft.peaks;
    }
      ∷ []

unfoldable pub place : Segment → List Segment → List Segment
place s [] = s ∷ []
place s (r ∷ rows) =
    let rest = place s rows in
    if leb_ℤ s.started_at_ms r.started_at_ms then s ∷ r ∷ rows else r ∷ rest

-- `ORDER BY started_at_ms ASC`
unfoldable pub by_start : List Segment → List Segment
unfolding place
by_start [] = []
by_start (s ∷ rows) = place s (by_start rows)

unfoldable pub first : List Segment → Option Segment
first [] = none
first (s ∷ rows) = some s

unfoldable pub last_after : Segment → List Segment → Segment
last_after s [] = s
last_after s (r ∷ rows) = last_after r rows

unfoldable pub last : List Segment → Option Segment
unfolding last_after
last [] = none
last (s ∷ rows) = some (last_after s rows)

abbrev pub covers : ℤ → Segment → Bool
covers timestamp_ms s = contains (range s) timestamp_ms

abbrev pub starts_from : ℤ → Segment → Bool
starts_from timestamp_ms s = leb_ℤ timestamp_ms s.started_at_ms

-- `ORDER BY started_at_ms DESC LIMIT 1`
unfoldable pub find_covering : List Segment → ℤ → Option Segment
unfolding last filter by_start contains
find_covering rows timestamp_ms = last (by_start (filter (covers timestamp_ms) rows))

unfoldable pub find_next_after : List Segment → ℤ → Option Segment
unfolding first filter by_start
find_next_after rows timestamp_ms = first (by_start (filter (starts_from timestamp_ms) rows))

unfoldable pub find_in_range : List Segment → TimeRange → List Segment
unfolding filter by_start overlaps
find_in_range rows wanted = by_start (filter (λ s. overlaps (range s) wanted) rows)

unfoldable pub coverage : List Segment → ℤ → List TimeRange
unfolding by_start merge_ranges
coverage rows gap_tolerance_ms = merge_ranges (map range (by_start rows)) gap_tolerance_ms

pub record SegmentStorageStats : Type 0 where
  pub segment_count : ℕ
  pub bytes : ℤ
  pub oldest_ms : Option ℤ
  pub newest_ms : Option ℤ

unfoldable pub sum_bytes : List Segment → ℤ
unfolding ◌+ℤ◌
sum_bytes [] = pos 0
sum_bytes (s ∷ rows) = s.byte_len +ℤ sum_bytes rows

unfoldable pub least : (ℤ → ℤ → ℤ) → (Segment → ℤ) → List Segment → Option ℤ
least better of [] = none
least better of (s ∷ rows) = elim (least better of rows) [
  | none ↦ some (of s)
  | some best ↦ some (better (of s) best)
]

unfoldable pub latest_end_ms : List Segment → Option ℤ
unfolding least
latest_end_ms rows = least max_ℤ (λ s. s.ended_at_ms) rows

unfoldable pub stats : List Segment → SegmentStorageStats
unfolding sum_bytes least latest_end_ms
stats rows = record {
  segment_count = length rows;
  bytes = sum_bytes rows;
  oldest_ms = least min_ℤ (λ s. s.started_at_ms) rows;
  newest_ms = latest_end_ms rows;
}

-- What a cursor reads from, with what the database answers instead, if it fails.
abbrev pub answered : Option String → Option Segment → Answer (Option Segment)
answered none found = ok found
answered (some message) found = error message

unfoldable pub library_of :
    List Segment → (ℤ → Option String) → (Segment → ℕ → ℕ → Option (List ℕ)) → Library
library_of rows fails files = record {
  find_covering = λ t. answered (fails t) (find_covering rows t);
  find_next_after = λ t. answered (fails t) (find_next_after rows t);
  read_segment_bytes = files;
}
