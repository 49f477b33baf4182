-- ===== src/Services/Capture/State.antt =====
-- The state of CaptureService in backend/src/services/capture_service.rs, and what is shown of it.
use Prim.Native.String.{String, [] as empty_text, ◌∷◌ as ◌∷text◌, ◌++◌ as ◌+text◌}
use Prim.Native.Char.{code as code_point}
use on_air_record.Base.{ℕ, Bool, true, false, Option, none, some, ◌==◌, if◌then◌else◌}
use on_air_record.Base.Int.{ℤ}
use on_air_record.Error.{AppError, audio, Result}
use on_air_record.Models.Session.{
  RecordingSession, SessionDraft, CaptureState, idle, starting, recording, failed, CaptureSnapshot,
  default_snapshot,
}
use on_air_record.Models.Session as S
use on_air_record.Models.Settings.{Settings}
use on_air_record.Repositories.Sessions.{SessionTable}
use on_air_record.Services.Recorder.Health.{
  RecorderHealth, fresh_health, RecorderReport, problem, report,
}
use on_air_record.Services.Capture.Threads.{CaptureOptions, CaptureRuntime, Engine, quiet}

-- The numbers stand for the two handles.
pub record ActiveCapture : Type 0 where
  pub capture : ℕ
  pub recorder : ℕ
  pub session_id : ℕ

pub record CaptureService : Type 0 where
  pub transition : Option ActiveCapture
  pub stored : CaptureSnapshot
  pub recorder_health : RecorderHealth
  pub dropped_frames : ℕ
  pub engine : Engine
  pub sessions : SessionTable

abbrev pub new : SessionTable → CaptureService
new sessions = record {
  transition = none;
  stored = default_snapshot;
  recorder_health = fresh_health;
  dropped_frames = 0;
  engine = quiet;
  sessions = sessions;
}

pub record Surroundings : Type 0 where
  pub current : Settings
  pub open_device : CaptureOptions → Result CaptureRuntime
  pub problem_advice : Option String
  pub started_at_ms : ℤ
  pub create_answer : Option AppError
  pub spawn_answer : Option AppError
  pub unwound_at_ms : ℤ
  pub unwind_answer : Option AppError

-- The clock and the database when a capture is stopped.
pub record Closing : Type 0 where
  pub closed_at_ms : ℤ
  pub close_answer : Option AppError

unfoldable pub stored_problem : CaptureSnapshot → RecorderHealth → Option String
unfolding problem
stored_problem stored health = elim stored.state [
  | recording ↦ elim stored.error [ none ↦ problem health | some message ↦ some message ]
  | _ ↦ stored.error
]

unfoldable pub snapshot : CaptureService → CaptureSnapshot
unfolding stored_problem
snapshot s = record s.stored {
  dropped_frames = s.dropped_frames;
  error = stored_problem s.stored s.recorder_health;
}

unfoldable pub recorder_report : CaptureService → RecorderReport
unfolding report
recorder_report s = report s.recorder_health

unfoldable pub is_active : CaptureService → Bool
unfolding snapshot S.is_active
is_active s = S.is_active (snapshot s).state

unfoldable pub rests : CaptureState → Bool
rests idle = true
rests failed = true
rests _ = false

unfoldable pub set_state : CaptureService → CaptureState → Option String → CaptureService
unfolding rests
set_state s state error =
    let shown = record s.stored { state = state; error = error } in
    record s {
      stored =
          if rests state then record shown { session_id = none; started_at_ms = none } else shown;
    }

abbrev is_nil : String → Bool
is_nil empty_text = true
is_nil (_ ∷text _) = false

-- `trim_end_matches('.')`
unfoldable pub trim_end_stops : String → String
trim_end_stops empty_text = empty_text
trim_end_stops (c ∷text text) =
    let rest = trim_end_stops text in
    if code_point c == 46
    then elim rest [ empty_text ↦ empty_text | d ∷text more ↦ c ∷text (d ∷text more) ]
    else c ∷text rest

unfoldable pub with_container_advice : Option String → AppError → AppError
unfolding trim_end_stops
with_container_advice (some advice) (audio message) =
    audio (trim_end_stops message +text (". " +text advice))
with_container_advice none (audio message) = audio message
with_container_advice _ error = error
