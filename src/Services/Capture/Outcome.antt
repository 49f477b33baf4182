-- ===== src/Services/Capture/Outcome.antt =====
-- What CaptureService::start of backend/src/services/capture_service.rs answers, told from the answers of the
-- device, the database and the thread builder alone.
use on_air_record.Base.{ℕ, ◌+◌, ◌≡◌, refl, subst, Option, none, some}
use on_air_record.Error.{AppError, conflict, Result, success_of, err, to_string}
use on_air_record.Models.Session.{SessionDraft, recording, failed, CaptureSnapshot}
use on_air_record.Repositories.Sessions.{create, new_session}
use on_air_record.Services.Capture.Threads.{CaptureRuntime, start_stream, stop_stream}
use on_air_record.Services.Capture.State.{
  ActiveCapture, CaptureService, Surroundings, snapshot, set_state, with_container_advice,
}
use on_air_record.Services.Capture.Start.{
  fail_start, begin_recording, spawn_recorder, draft_for, file_under, open_session, after_device,
  unwound, announced, options_for, start_from, start,
}

abbrev pub device_answer : Surroundings → Result CaptureRuntime
device_answer around = around.open_device (options_for around.current)

-- The first of the three answers that is an error.
unfoldable pub trouble_of : Surroundings → Result CaptureRuntime → Option AppError
trouble_of around (err error) = some (with_container_advice around.problem_advice error)
trouble_of around (success_of _) = elim around.create_answer [
  | some error ↦ some error
  | none ↦ around.spawn_answer
]

-- The caller gets the error, nothing is held, and the snapshot shows the error's text.
pub record Fails (error : AppError) (r : CaptureService × Result CaptureSnapshot) : Type 0 where
  pub answer : r.1 ≡ err error
  pub nothing_held : r.0.transition ≡ none
  pub state : r.0.stored.state ≡ failed
  pub text : r.0.stored.error ≡ some (to_string error)

-- The caller gets the snapshot of a recording from the device that opened, under a new session.
pub record Begins (around : Surroundings) (s : CaptureService)
    (r : CaptureService × Result CaptureSnapshot) : Type 0 where
  pub answer : r.1 ≡ success_of (snapshot r.0)
  pub held :
      (a : ActiveCapture) × ((r.0.transition ≡ some a) × (a.session_id ≡ s.sessions.last_id + 1))
  pub state : r.0.stored.state ≡ recording
  pub device :
      (runtime : CaptureRuntime) × ((device_answer around ≡ success_of runtime)
        × ((r.0.stored.device_id ≡ some runtime.device_id)
            × (r.0.stored.sample_rate ≡ runtime.sample_rate)))
  pub begun : r.0.stored.started_at_ms ≡ some around.started_at_ms

unfoldable pub Outcome :
    Surroundings
    → CaptureService
    → Option ActiveCapture
    → Option AppError
    → CaptureService × Result CaptureSnapshot
    → Type 0
Outcome around s (some _) trouble r = r ≡ (s, err (conflict "capture is already running"))
Outcome around s none (some error) r = Fails error r
Outcome around s none none r = Begins around s r

failing :
    (s : CaptureService) (error : AppError) → s.transition ≡ none → Fails error (fail_start s error)
unfolding fail_start set_state
failing s error e = record { answer = refl; nothing_held = e; state = refl; text = refl }

spawned :
    (around : Surroundings) (s t : CaptureService) (k : ℕ) (runtime : CaptureRuntime)
    (draft : SessionDraft) (answer : Option AppError)
    → device_answer around ≡ success_of runtime
    → t.transition ≡ none
    → Outcome around s none answer
        (spawn_recorder around t k runtime (new_session (s.sessions.last_id + 1) draft) answer)
unfolding spawn_recorder Outcome begin_recording
spawned around s t k runtime draft (some error) opened e =
    failing (unwound around t k (s.sessions.last_id + 1)) error e
spawned around s t k runtime draft none opened e = record {
  answer = refl;
  held = (_, (refl, refl));
  state = refl;
  device = (runtime, (opened, (refl, refl)));
  begun = refl;
}

filed :
    (around : Surroundings) (s t : CaptureService) (k : ℕ) (runtime : CaptureRuntime)
    (draft : SessionDraft) (answer : Option AppError)
    → device_answer around ≡ success_of runtime
    → t.transition ≡ none
    → Outcome around s none
        (elim answer [ some error ↦ some error | none ↦ around.spawn_answer ])
        (file_under around t k runtime (create s.sessions draft answer))
unfolding file_under create Outcome
filed around s t k runtime draft (some error) opened e =
    failing (record t { sessions = s.sessions; engine = stop_stream t.engine k }) error e
filed around s t k runtime draft none opened e =
    spawned around s (record t { sessions = (create s.sessions draft none).0 }) k runtime draft
      around.spawn_answer opened e

after_device-Outcome :
    (around : Surroundings) (s t : CaptureService) (answer : Result CaptureRuntime)
    → device_answer around ≡ answer
    → t.transition ≡ none
    → s.sessions ≡ t.sessions
    → Outcome around s none (trouble_of around answer) (after_device around t answer)
unfolding after_device open_session trouble_of Outcome
after_device-Outcome around s t (err error) opened e same =
    failing t (with_container_advice around.problem_advice error) e
after_device-Outcome around s t (success_of runtime) opened e same =
    let (engine, capture) = start_stream t.engine in
    subst
      (λ table. Outcome around s none (trouble_of around (success_of runtime)) (
        file_under around (record t { engine = engine }) capture runtime
          (create table (draft_for runtime around.started_at_ms) around.create_answer)))
      same
      (filed around s (record t { engine = engine }) capture runtime
        (draft_for runtime around.started_at_ms) around.create_answer opened e)

start_from-Outcome :
    (around : Surroundings) (s : CaptureService) (o : Option ActiveCapture)
    → s.transition ≡ o
    → Outcome around s o (trouble_of around (device_answer around)) (start_from around s o)
unfolding start_from announced set_state Outcome
start_from-Outcome around s (some a) e = refl
start_from-Outcome around s none e =
    after_device-Outcome around s (announced s) (device_answer around) refl e refl

-- A start while a capture is held changes nothing and answers with a conflict. Otherwise, when the device, the
-- row or the recorder could not be had, it answers with the first of these errors (the device's with the
-- container's advice), holds nothing, and shows the text; and when all three could, it records from that device under
-- a new session, and answers with the snapshot it then shows.
pub start-Outcome :
    (around : Surroundings) (s : CaptureService)
    → Outcome around s s.transition (trouble_of around (device_answer around)) (start around s)
unfolding start
start-Outcome around s = start_from-Outcome around s s.transition refl
