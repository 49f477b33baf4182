-- ===== src/Services/Capture/View.antt =====
-- The handles, the snapshot, the threads and the rows of backend/src/services/capture_service.rs, side by
-- side.
use Prim.Native.String.{String}
use on_air_record.Base.{
  ℕ, ◌≡◌, refl, sym, ◌∙◌, ap, subst, ◌⊎◌, true, false, Option, none, some, List, [], ◌∷◌,
  if_branches,
}
use on_air_record.Base.Filter.{filter}
use on_air_record.Base.Maps.{same_key}
use on_air_record.Models.Session.{RecordingSession, idle, recording, failed}
use on_air_record.Repositories.Sessions.{find}
use on_air_record.Services.Capture.Threads.{
  Engine, among, without, start_stream, stop_stream, stop_recorder,
}
use on_air_record.Services.Capture.State.{ActiveCapture, CaptureService}
use on_air_record.Services.Capture.Rows.{Filed}

-- One stream, the recorder that it feeds, and nothing else.
pub record Threads (e : Engine) (streams : List ℕ) (recorders : List ℕ) : Type 0 where
  pub running : e.streams ≡ streams
  pub recording_threads : e.recorders ≡ recorders
  pub never_blocked : e.blocked ≡ false

-- Nothing runs, and the snapshot says so: idle, or the error.
pub record AtRest (s : CaptureService) : Type 0 where
  pub threads : Threads s.engine [] []
  pub no_session : s.stored.session_id ≡ none
  pub state :
      ((s.stored.state ≡ idle) × (s.stored.error ≡ none))
      ⊎ ((s.stored.state ≡ failed) × ((m : String) × (s.stored.error ≡ some m)))

-- One stream and its recorder run, and the snapshot names the session, whose row is open.
pub record Records (a : ActiveCapture) (s : CaptureService) : Type 0 where
  pub threads : Threads s.engine (a.capture ∷ []) (a.capture ∷ [])
  pub fed : a.recorder ≡ a.capture
  pub session : s.stored.session_id ≡ some a.session_id
  pub state : s.stored.state ≡ recording
  pub row :
      (r : RecordingSession) × ((find s.sessions.rows a.session_id ≡ some r)
        × (r.ended_at_ms ≡ none))

unfoldable pub View : Option ActiveCapture → CaptureService → Type 0
View none s = AtRest s
View (some a) s = Records a s

pub record Coupled (s : CaptureService) : Type 0 where
  pub view : View s.transition s
  pub filed : Filed s.stored.session_id s.sessions

without-one : (k : ℕ) → without k (k ∷ []) ≡ []
unfolding without filter
without-one k = rw (same_key k) refl

pub stop_stream-Threads :
    (e : Engine) (k : ℕ) (rs : List ℕ) → Threads e (k ∷ []) rs → Threads (stop_stream e k) [] rs
unfolding stop_stream
stop_stream-Threads e k rs t = record {
  running = ap (without k) t.running ∙ without-one k;
  recording_threads = t.recording_threads;
  never_blocked = t.never_blocked;
}

pub not_false : ¬ (false ≡ true)
not_false e = cc e

pub stop_recorder-Threads :
    (e : Engine) (k : ℕ) → Threads e [] (k ∷ []) → Threads (stop_recorder e k) [] []
unfolding stop_recorder among
stop_recorder-Threads e k t =
    if_branches (λ x. Threads x [] []) (among k e.streams) _ _
      (λ yes. absurd (not_false (sym (ap (among k) t.running) ∙ yes)))
      (λ no. record {
        running = t.running;
        recording_threads = ap (without k) t.recording_threads ∙ without-one k;
        never_blocked = t.never_blocked;
      })

pub start_stream-Threads :
    (e : Engine) → Threads e [] [] → Threads (start_stream e).0 ((start_stream e).1 ∷ []) []
unfolding start_stream
start_stream-Threads e t = record {
  running = ap (λ l. e.next_number ∷ l) t.running;
  recording_threads = t.recording_threads;
  never_blocked = t.never_blocked;
}

-- With no handle nothing runs.
pub idle_view : (s : CaptureService) → s.transition ≡ none → Coupled s → AtRest s
unfolding View
idle_view s e c = subst (λ o. View o s) e c.view

pub busy_view :
    (s : CaptureService) (a : ActiveCapture) → s.transition ≡ some a → Coupled s → Records a s
unfolding View
busy_view s a e c = subst (λ o. View o s) e c.view
