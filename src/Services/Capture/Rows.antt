-- ===== src/Services/Capture/Rows.antt =====
-- The rows of sessions that backend/src/services/capture_service.rs opens and ends.
use on_air_record.Base.{
  ℕ, ◌+◌, ◌≤◌, ◌≡◌, refl, ◌⊎◌, inl, inr, true, Option, none, some, List, [], ◌∷◌, ◌++◌, All,
  All-append, All-map, All-image, arith,
}
use on_air_record.Base.Int.{ℤ}
use on_air_record.Error.{AppError}
use on_air_record.Models.Segment.{Segment}
use on_air_record.Models.Session.{RecordingSession, SessionDraft}
use on_air_record.Repositories.Sessions.{
  SessionTable, new_session, create, end_row, close, end_dangling, close_dangling, find, has_ended,
}
use on_air_record.Services.Capture.Threads.{among}

-- A row has an end, or is of the session shown, or the database refused its end.
unfoldable pub Accounted : Option ℕ → List ℕ → RecordingSession → Type 0
Accounted shown uncut r = (has_ended r ≡ true) ⊎ ((shown ≡ some r.id) ⊎ (among r.id uncut ≡ true))

-- So is every row, and no row has an id that is still to be given out.
unfoldable pub Filed : Option ℕ → SessionTable → Type 0
unfolding Accounted
Filed shown t = All (Accounted shown t.uncut) t.rows × All (λ r. r.id ≤ t.last_id) t.rows

some_path : {a b : ℕ} → some a ≡ some b → a ≡ b
some_path e = cc e

end_row-Accounted :
    (k : ℕ) (ms : ℤ) (uncut : List ℕ) (r : RecordingSession)
    → Accounted (some k) uncut r
    → Accounted none uncut (end_row k ms r)
unfolding Accounted end_row among
end_row-Accounted k ms uncut r h = ground arith

same_id : (k : ℕ) (ms : ℤ) (r : RecordingSession) → (end_row k ms r).id ≡ r.id
unfolding end_row
same_id k ms r = ground arith

now_uncut :
    (k : ℕ) (uncut : List ℕ) (r : RecordingSession)
    → Accounted (some k) uncut r
    → Accounted none (k ∷ uncut) r
unfolding Accounted among
now_uncut k uncut r h = ground arith

pub close-Filed :
    (t : SessionTable) (k : ℕ) (ms : ℤ) (answer : Option AppError)
    → Filed (some k) t
    → Filed none (close t k ms answer)
unfolding Filed close
close-Filed t k ms none (rows, below) = (
  All-image _ (Accounted none t.uncut) (end_row k ms) t.rows (λ r. end_row-Accounted k ms t.uncut r)
      rows,
  All-image (λ r. r.id ≤ t.last_id) (λ r. r.id ≤ t.last_id) (end_row k ms) t.rows
      (λ r h. rw (same_id k ms r) h) below,
)
close-Filed t k ms (some error) (rows, below) =
    (All-map _ _ t.rows (now_uncut k t.uncut) rows, below)

now_shown :
    (k : ℕ) (uncut : List ℕ) (r : RecordingSession)
    → Accounted none uncut r
    → Accounted (some k) uncut r
unfolding Accounted
now_shown k uncut r (inl h) = inl h
now_shown k uncut r (inr (inl e)) = absurd (cc e)
now_shown k uncut r (inr (inr h)) = inr (inr h)

pub create-Filed :
    (t : SessionTable) (draft : SessionDraft)
    → Filed none t
    → Filed (some (t.last_id + 1)) (create t draft none).0
unfolding Filed create Accounted
create-Filed t draft (rows, below) = (
  All-append (Accounted (some (t.last_id + 1)) t.uncut) t.rows _
      (All-map _ _ t.rows (now_shown (t.last_id + 1) t.uncut) rows) (inr (inl refl), tt),
  All-append (λ r. r.id ≤ t.last_id + 1) t.rows _
      (All-map (λ r. r.id ≤ t.last_id) _ t.rows (λ r h. omega arith) below) (omega arith, tt),
)

find-last :
    (n : ℕ) (row : RecordingSession) (rows : List RecordingSession)
    → row.id ≡ n + 1
    → All (λ r. r.id ≤ n) rows
    → find (rows ++ row ∷ []) (n + 1) ≡ some row
unfolding find
find-last n row [] e below = ground arith
find-last n row (r ∷ rows) e (small, below) =
    let later = find-last n row rows e below in ground (arith, later)

-- The row that was just created is found under its id.
pub find-create :
    (t : SessionTable) (draft : SessionDraft) (shown : Option ℕ)
    → Filed shown t
    → find (create t draft none).0.rows (t.last_id + 1) ≡ some (new_session (t.last_id + 1) draft)
unfolding create Filed
find-create t draft shown h =
    find-last t.last_id (new_session (t.last_id + 1) draft) t.rows refl h.1

end_dangling-ends :
    (segments : List Segment) (r : RecordingSession) → has_ended (end_dangling segments r) ≡ true
unfolding end_dangling
end_dangling-ends segments r = ground arith

dangling_id : (segments : List Segment) (r : RecordingSession) → (end_dangling segments r).id ≡ r.id
unfolding end_dangling
dangling_id segments r = ground arith

-- After a start of the program every row has an end.
pub close_dangling-Filed :
    (t : SessionTable) (segments : List Segment)
    → All (λ r. r.id ≤ t.last_id) t.rows
    → Filed none (close_dangling t segments)
unfolding Filed close_dangling Accounted
close_dangling-Filed t segments below = (
  All-image _ (Accounted none t.uncut) (end_dangling segments) t.rows
      (λ r h. inl (end_dangling-ends segments r)) below,
  All-image _ (λ r. r.id ≤ t.last_id) (end_dangling segments) t.rows
      (λ r h. rw (dangling_id segments r) h) below,
)
