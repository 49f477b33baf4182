-- ===== src/Services/Capture/Start.antt =====
-- CaptureService::start of backend/src/services/capture_service.rs, stage by stage.
use on_air_record.Base.{ℕ, Option, none, some}
use on_air_record.Base.Int.{ℤ}
use on_air_record.Error.{AppError, conflict, Result, success_of, err, to_string}
use on_air_record.Models.Session.{
  RecordingSession, SessionDraft, starting, recording, failed, CaptureSnapshot,
}
use on_air_record.Models.Settings.{Settings}
use on_air_record.Repositories.Sessions.{SessionTable, create, close}
use on_air_record.Services.Recorder.Health.{reset}
use on_air_record.Services.Capture.Threads.{
  CaptureOptions, CaptureRuntime, start_stream, start_recorder, stop_stream,
}
use on_air_record.Services.Capture.State.{
  ActiveCapture, CaptureService, Surroundings, snapshot, set_state, with_container_advice,
}

-- Whatever went wrong, the snapshot shows it and the caller gets it.
unfoldable pub fail_start : CaptureService → AppError → CaptureService × Result CaptureSnapshot
unfolding set_state to_string
fail_start s error = (set_state s failed (some (to_string error)), err error)

abbrev pub recording_snapshot : RecordingSession → CaptureRuntime → ℤ → CaptureSnapshot
recording_snapshot session runtime started_at_ms = record {
  state = recording;
  session_id = some session.id;
  device_id = some runtime.device_id;
  device_name = some runtime.device_name;
  sample_rate = runtime.sample_rate;
  device_sample_rate = runtime.source_sample_rate;
  channels = runtime.channels;
  frame_ms = runtime.frame_ms;
  started_at_ms = some started_at_ms;
  dropped_frames = 0;
  error = none;
}

unfoldable pub begin_recording :
    Surroundings
    → CaptureService
    → ℕ
    → CaptureRuntime
    → RecordingSession
    → CaptureService × Result CaptureSnapshot
unfolding snapshot start_recorder
begin_recording around s capture runtime session =
    let active : ActiveCapture = record {
      capture = capture;
      recorder = capture;
      session_id = session.id;
    } in
    let begun = record s {
      engine = start_recorder s.engine capture;
      transition = some active;
      stored = recording_snapshot session runtime around.started_at_ms;
    } in
    (begun, success_of (snapshot begun))

-- The stream is stopped and the row ended; whether the row could be ended does not matter here.
abbrev pub unwound : Surroundings → CaptureService → ℕ → ℕ → CaptureService
unwound around s capture session_id = record s {
  engine = stop_stream s.engine capture;
  sessions = close s.sessions session_id around.unwound_at_ms around.unwind_answer;
}

-- What `RecorderService::spawn` answered.
unfoldable pub spawn_recorder :
    Surroundings
    → CaptureService
    → ℕ
    → CaptureRuntime
    → RecordingSession
    → Option AppError
    → CaptureService × Result CaptureSnapshot
unfolding begin_recording fail_start stop_stream close
spawn_recorder around s capture runtime session none =
    begin_recording around s capture runtime session
spawn_recorder around s capture runtime session (some error) =
    fail_start (unwound around s capture session.id) error

unfoldable pub draft_for : CaptureRuntime → ℤ → SessionDraft
draft_for runtime started_at_ms = record {
  device_id = runtime.device_id;
  device_name = runtime.device_name;
  sample_rate = runtime.sample_rate;
  channels = runtime.channels;
  started_at_ms = started_at_ms;
}

-- What `sessions.create` answered.
unfoldable pub file_under :
    Surroundings
    → CaptureService
    → ℕ
    → CaptureRuntime
    → SessionTable × Result RecordingSession
    → CaptureService × Result CaptureSnapshot
unfolding spawn_recorder fail_start stop_stream
file_under around s capture runtime (table, success_of session) =
    spawn_recorder around (record s { sessions = table }) capture runtime session
      around.spawn_answer
file_under around s capture runtime (table, err error) =
    fail_start (record s { sessions = table; engine = stop_stream s.engine capture }) error

unfoldable pub open_session :
    Surroundings → CaptureService → ℕ → CaptureRuntime → CaptureService × Result CaptureSnapshot
unfolding file_under draft_for create
open_session around s capture runtime =
    file_under around s capture runtime
      (create s.sessions (draft_for runtime around.started_at_ms) around.create_answer)

-- What `audio::capture::spawn` answered.
unfoldable pub after_device :
    Surroundings → CaptureService → Result CaptureRuntime → CaptureService × Result CaptureSnapshot
unfolding fail_start with_container_advice start_stream open_session
after_device around s (err error) = fail_start s (with_container_advice around.problem_advice error)
after_device around s (success_of runtime) =
    let (engine, capture) = start_stream s.engine in
    open_session around (record s { engine = engine }) capture runtime

abbrev pub options_for : Settings → CaptureOptions
options_for settings = record {
  device_id = settings.input_device_id;
  target_sample_rate = settings.recording_sample_rate;
  frame_ms = settings.frame_ms;
}

-- The state Starting, and a fresh health record.
unfoldable pub announced : CaptureService → CaptureService
unfolding set_state reset
announced s = record (set_state s starting none) { recorder_health = reset s.recorder_health }

unfoldable pub start_from :
    Surroundings → CaptureService → Option ActiveCapture → CaptureService × Result CaptureSnapshot
unfolding announced after_device
start_from around s (some _) = (s, err (conflict "capture is already running"))
start_from around s none =
    after_device around (announced s) (around.open_device (options_for around.current))

unfoldable pub start : Surroundings → CaptureService → CaptureService × Result CaptureSnapshot
unfolding start_from
start around s = start_from around s s.transition
