-- ===== src/Services/Retention.antt =====
-- backend/src/services/retention_service.rs: one pass of the janitor, with the two statements of
-- backend/src/repositories/segment_repository.rs that it calls. The index is its rows in the order of
-- (ended_at_ms, id), the order of the query.
pub mod Pages
pub mod Pass
pub mod Complete
use Prim.Native.String.{String}
use on_air_record.Base.{
  ℕ, zero, suc, ◌+◌, Bool, true, false, not, ◌&&◌, ◌||◌, Option, none, some, List, [], ◌∷◌, length,
  take, ltb, leb, ◌==◌, if◌then◌else◌,
}
use on_air_record.Base.Filter.{filter}
use on_air_record.Base.Int.{ℤ, pos, ◌+ℤ◌, ◌-ℤ◌, ltb_ℤ, ◌==ℤ◌}
use on_air_record.Models.Segment.{Segment}
use on_air_record.Services.Playback.{Answer, ok, error}

abbrev pub batch_size : ℕ
batch_size = 500

pub record SweepReport : Type 0 where
  pub segments_deleted : ℕ
  pub bytes_reclaimed : ℤ
  pub sessions_deleted : ℕ
  pub bookmarks_deleted : ℕ
  pub activity_deleted : ℕ

abbrev pub no_report : SweepReport
no_report = record {
  segments_deleted = 0;
  bytes_reclaimed = pos 0;
  sessions_deleted = 0;
  bookmarks_deleted = 0;
  activity_deleted = 0;
}

-- `std::fs::remove_file`.
pub data Removal : Type 0 where
  removed not_found : Removal
  refused : String → Removal

abbrev pub Position : Type 0
Position = ℤ × ℕ

-- What the disk and the database answer during one pass; none is success.
pub record Surroundings : Type 0 where
  pub remove_file : Segment → Removal
  pub query_fails : Option Position → Option String
  pub delete_fails : Segment → Option String
  pub delete_empty : Answer ℕ
  pub delete_before : ℤ → Answer ℕ

unfoldable pub is_past : Option Position → Segment → Bool
is_past none s = true
is_past (some (ended_ms, id)) s =
    ltb_ℤ ended_ms s.ended_at_ms || (s.ended_at_ms ==ℤ ended_ms && ltb id s.id)

abbrev pub is_expired : ℤ → Segment → Bool
is_expired cutoff_ms s = ltb_ℤ s.ended_at_ms cutoff_ms

unfoldable pub find_expired_after : List Segment → ℤ → Option Position → ℕ → List Segment
unfolding is_past filter
find_expired_after rows cutoff_ms after limit =
    take limit (filter (λ s. is_expired cutoff_ms s && is_past after s) rows)

unfoldable pub delete : List Segment → ℕ → List Segment
unfolding filter
delete rows id = filter (λ s. not (s.id == id)) rows

-- A pass under way.
pub record Sweep : Type 0 where
  pub report : SweepReport
  pub rows : List Segment
  pub after : Option Position

abbrev pub step_over : Sweep → Segment → Sweep
step_over p s = record p { after = some (s.ended_at_ms, s.id) }

unfoldable pub count_deleted : Sweep → Segment → Sweep
unfolding delete
count_deleted p s = record p {
  rows = delete p.rows s.id;
  report = record p.report {
    segments_deleted = p.report.segments_deleted + 1;
    bytes_reclaimed = p.report.bytes_reclaimed +ℤ s.byte_len;
  };
}

-- The error of `?`, if any.
unfoldable pub delete_row : Sweep → Segment → Option String → Sweep × Option String
unfolding count_deleted
delete_row p s none = (count_deleted p s, none)
delete_row p s (some message) = (p, some message)

abbrev pub after_removal : Surroundings → Sweep → Segment → Removal → Sweep × Option String
after_removal around p s removed = delete_row p s (around.delete_fails s)
after_removal around p s not_found = delete_row p s (around.delete_fails s)
after_removal around p s (refused message) = (p, none)

unfoldable pub sweep_segment : Surroundings → Sweep → Segment → Sweep × Option String
unfolding delete_row
sweep_segment around p s = after_removal around (step_over p s) s (around.remove_file s)

abbrev pub unless_failed :
    Sweep × Option String → (Sweep → Sweep × Option String) → Sweep × Option String
unless_failed (p, none) rest = rest p
unless_failed (p, some message) rest = (p, some message)

unfoldable pub sweep_page : Surroundings → List Segment → Sweep → Sweep × Option String
unfolding sweep_segment
sweep_page around [] p = (p, none)
sweep_page around (s ∷ expired) p =
    unless_failed (sweep_segment around p s) (λ q. sweep_page around expired q)

pub data Outcome : Type 0 where
  finished : Outcome
  failed : String → Outcome
  out_of_fuel : Outcome

abbrev pub after_page : (Sweep → Sweep × Outcome) → ℕ → Sweep × Option String → Sweep × Outcome
after_page again fetched (p, some message) = (p, failed message)
after_page again fetched (p, none) =
    let later = again p in
    if ltb fetched batch_size || leb batch_size p.report.segments_deleted
    then (p, finished)
    else later

abbrev pub read_page :
    (Sweep → Sweep × Outcome) → Surroundings → ℤ → Sweep → Option String → Sweep × Outcome
read_page again around cutoff_ms p (some message) = (p, failed message)
read_page again around cutoff_ms p none =
    let expired = find_expired_after p.rows cutoff_ms p.after batch_size in
    after_page again (length expired) (sweep_page around expired p)

unfoldable pub sweep_pages : Surroundings → ℤ → ℕ → Sweep → Sweep × Outcome
sweep_pages around cutoff_ms zero p = (p, out_of_fuel)
sweep_pages around cutoff_ms (suc n) p =
    read_page (λ q. sweep_pages around cutoff_ms n q) around cutoff_ms p
      (around.query_fails p.after)

abbrev pub no_sweep : List Segment → Sweep
no_sweep rows = record { report = no_report; rows = rows; after = none }

abbrev pub finish : Surroundings → ℤ → SweepReport → Answer SweepReport
finish around cutoff_ms report = elim (around.delete_before cutoff_ms) [
  | ok bookmarks ↦ ok (record report { bookmarks_deleted = bookmarks })
  | error message ↦ error message
]

abbrev pub prune_sessions : Surroundings → SweepReport → Answer SweepReport
prune_sessions around report = elim around.delete_empty [
  | ok sessions ↦ ok (record report { sessions_deleted = sessions })
  | error message ↦ error message
]

abbrev pub then_finish : Surroundings → ℤ → Answer SweepReport → Answer SweepReport
then_finish around cutoff_ms (ok report) = finish around cutoff_ms report
then_finish around cutoff_ms (error message) = error message

abbrev pub after_pages : Surroundings → ℤ → Sweep × Outcome → List Segment × Answer SweepReport
after_pages around cutoff_ms (p, finished) = (
  p.rows,
  then_finish around cutoff_ms
      (if ltb 0 p.report.segments_deleted then prune_sessions around p.report else ok p.report),
)
after_pages around cutoff_ms (p, failed message) = (p.rows, error message)
after_pages around cutoff_ms (p, out_of_fuel) = (p.rows, error "")

-- The rows that are left, and the report. There is one page more than there are rows at most.
unfoldable pub sweep_before : Surroundings → ℤ → List Segment → List Segment × Answer SweepReport
unfolding sweep_pages
sweep_before around cutoff_ms rows =
    after_pages around cutoff_ms (sweep_pages around cutoff_ms (suc (length rows)) (no_sweep rows))

-- The pass before the log is pruned; keeping forever is no window at all.
abbrev pub with_window :
    Surroundings → ℤ → Option ℤ → ℕ → List Segment → List Segment × Answer SweepReport
with_window around now_ms none pruned rows =
    (rows, ok (record no_report { activity_deleted = pruned }))
with_window around now_ms (some retention_ms) pruned rows =
    let (left, answer) = sweep_before around (now_ms -ℤ retention_ms) rows in
    (
      left,
      elim answer [
        | ok report ↦ ok (record report { activity_deleted = pruned })
        | error message ↦ error message
      ],
    )

-- `prune` is what the log answers; without a log it is 0.
unfoldable pub sweep :
    Surroundings → ℤ → Option ℤ → Answer ℕ → List Segment → List Segment × Answer SweepReport
sweep around now_ms retention_ms (error message) rows = (rows, error message)
sweep around now_ms retention_ms (ok pruned) rows =
    with_window around now_ms retention_ms pruned rows
