-- ===== src/Repositories/Sessions.antt =====
-- backend/src/repositories/session_repository.rs: the table of sessions. A statement takes what the
-- database answered: none when it did its work, or the error, and then the table is as before.
-- `uncut` lists the sessions whose end the database refused to write.
use on_air_record.Base.{
  ℕ, ◌+◌, Bool, true, false, ◌&&◌, not, Option, none, some, List, [], ◌∷◌, ◌++◌, map, ◌==◌,
  if◌then◌else◌,
}
use on_air_record.Base.Int.{ℤ, max_ℤ}
use on_air_record.Base.Filter.{filter}
use on_air_record.Error.{AppError, Result, success_of, err}
use on_air_record.Models.Segment.{Segment}
use on_air_record.Models.Session.{RecordingSession, SessionDraft}

-- An AUTOINCREMENT id is one more than the largest that there ever was.
pub record SessionTable : Type 0 where
  pub rows : List RecordingSession
  pub last_id : ℕ
  pub uncut : List ℕ

abbrev pub new_session : ℕ → SessionDraft → RecordingSession
new_session id draft = record {
  id = id;
  device_id = draft.device_id;
  device_name = draft.device_name;
  sample_rate = draft.sample_rate;
  channels = draft.channels;
  started_at_ms = draft.started_at_ms;
  ended_at_ms = none;
}

unfoldable pub create :
    SessionTable → SessionDraft → Option AppError → SessionTable × Result RecordingSession
create t draft (some error) = (t, err error)
create t draft none =
    let session = new_session (t.last_id + 1) draft in
    (record t { rows = t.rows ++ session ∷ []; last_id = t.last_id + 1 }, success_of session)

-- One row under `WHERE id = ?1 AND ended_at_ms IS NULL`.
unfoldable pub end_row : ℕ → ℤ → RecordingSession → RecordingSession
end_row session_id ended_at_ms row = elim row.ended_at_ms [
  | some _ ↦ row
  | none ↦ if row.id == session_id then record row { ended_at_ms = some ended_at_ms } else row
]

unfoldable pub close : SessionTable → ℕ → ℤ → Option AppError → SessionTable
close t session_id ended_at_ms none = record t {
  rows = map (end_row session_id ended_at_ms) t.rows;
}
close t session_id ended_at_ms (some _) = record t { uncut = session_id ∷ t.uncut }

-- `SELECT MAX(ended_at_ms) … WHERE session_id = …`
unfoldable pub newest_end : ℕ → List Segment → Option ℤ
newest_end id [] = none
newest_end id (s ∷ segments) =
    let rest = newest_end id segments in
    if s.session_id == id
    then elim rest [ none ↦ some s.ended_at_ms | some ms ↦ some (max_ℤ s.ended_at_ms ms) ]
    else rest

abbrev pub coalesce : Option ℤ → ℤ → ℤ
coalesce (some ms) _ = ms
coalesce none other = other

unfoldable pub end_dangling : List Segment → RecordingSession → RecordingSession
end_dangling segments row = elim row.ended_at_ms [
  | some _ ↦ row
  | none ↦ record row {
    ended_at_ms = some (coalesce (newest_end row.id segments) row.started_at_ms);
  }
]

unfoldable pub close_dangling : SessionTable → List Segment → SessionTable
close_dangling t segments = record t { rows = map (end_dangling segments) t.rows }

unfoldable pub find : List RecordingSession → ℕ → Option RecordingSession
find [] session_id = none
find (row ∷ rows) session_id =
    let rest = find rows session_id in if row.id == session_id then some row else rest

unfoldable pub owns_any : List Segment → ℕ → Bool
owns_any [] id = false
owns_any (s ∷ segments) id =
    let rest = owns_any segments id in if s.session_id == id then true else rest

abbrev pub has_ended : RecordingSession → Bool
has_ended row = elim row.ended_at_ms [ some _ ↦ true | none ↦ false ]

unfoldable pub delete_empty : SessionTable → List Segment → SessionTable
delete_empty t segments = record t {
  rows = filter (λ row. not (has_ended row && not (owns_any segments row.id))) t.rows;
}
