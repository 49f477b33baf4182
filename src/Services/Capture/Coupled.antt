-- ===== src/Services/Capture/Coupled.antt =====
-- The coupling of View through each operation of backend/src/services/capture_service.rs.
use on_air_record.Base.{
  ℕ, ◌+◌, ◌≡◌, refl, sym, ap, subst, inl, inr, Option, none, some, List, [], ◌∷◌,
}
use on_air_record.Error.{AppError, Result, success_of, err, to_string}
use on_air_record.Models.Session.{RecordingSession, SessionDraft}
use on_air_record.Repositories.Sessions.{new_session, create, find}
use on_air_record.Services.Capture.Threads.{
  CaptureRuntime, Engine, start_stream, start_recorder, stop_stream, stop_recorder,
}
use on_air_record.Services.Capture.State.{
  ActiveCapture, CaptureService, Surroundings, Closing, set_state, with_container_advice,
}
use on_air_record.Services.Capture.Start.{
  fail_start, begin_recording, spawn_recorder, draft_for, file_under, open_session, after_device,
  unwound, announced, start_from, start,
}
use on_air_record.Services.Capture.Operations.{
  stop_active, stop_locked, stop, shutdown, Operation, starts, stops, shuts_down, operate,
}
use on_air_record.Services.Capture.Rows.{Filed, close-Filed, create-Filed, find-create}
use on_air_record.Services.Capture.View.{
  Threads, AtRest, View, Coupled, stop_stream-Threads, stop_recorder-Threads, start_stream-Threads,
  idle_view, busy_view,
}

-- A start that has not failed and has not succeeded yet: what runs, and the rows.
pub record Between (streams : List ℕ) (shown : Option ℕ) (s : CaptureService) : Type 0 where
  pub waiting : s.transition ≡ none
  pub threads : Threads s.engine streams []
  pub filed : Filed shown s.sessions

failure_shown :
    (s : CaptureService) (e : AppError) → Threads s.engine [] [] → AtRest (fail_start s e).0
unfolding fail_start set_state
failure_shown s e quiet = record {
  threads = quiet;
  no_session = refl;
  state = inr (refl, (to_string e, refl));
}

pub fail_start-Coupled :
    (s : CaptureService) (e : AppError) → Between [] none s → Coupled (fail_start s e).0
unfolding fail_start set_state View
fail_start-Coupled s e b = record {
  view = subst (λ o. View o (fail_start s e).0) (sym b.waiting) (failure_shown s e b.threads);
  filed = b.filed;
}

pub begin_recording-Coupled :
    (around : Surroundings) (s : CaptureService) (k : ℕ) (runtime : CaptureRuntime)
    (session : RecordingSession)
    → Between (k ∷ []) (some session.id) s
    → find s.sessions.rows session.id ≡ some session
    → session.ended_at_ms ≡ none
    → Coupled (begin_recording around s k runtime session).0
unfolding begin_recording start_recorder View
begin_recording-Coupled around s k runtime session b found open_row = record {
  view = record {
    threads = record {
      running = b.threads.running;
      recording_threads = ap (λ l. k ∷ l) b.threads.recording_threads;
      never_blocked = b.threads.never_blocked;
    };
    fed = refl;
    session = refl;
    state = refl;
    row = (session, (found, open_row));
  };
  filed = b.filed;
}

spawn_recorder-Coupled :
    (around : Surroundings) (s : CaptureService) (k : ℕ) (runtime : CaptureRuntime)
    (session : RecordingSession) (answer : Option AppError)
    → Between (k ∷ []) (some session.id) s
    → find s.sessions.rows session.id ≡ some session
    → session.ended_at_ms ≡ none
    → Coupled (spawn_recorder around s k runtime session answer).0
unfolding spawn_recorder
spawn_recorder-Coupled around s k runtime session none b found open_row =
    begin_recording-Coupled around s k runtime session b found open_row
spawn_recorder-Coupled around s k runtime session (some error) b found open_row =
    fail_start-Coupled (unwound around s k session.id) error (record {
      waiting = b.waiting;
      threads = stop_stream-Threads s.engine k [] b.threads;
      filed = close-Filed s.sessions session.id around.unwound_at_ms around.unwind_answer b.filed;
    })

filed_under-Coupled :
    (around : Surroundings) (s : CaptureService) (k : ℕ) (runtime : CaptureRuntime)
    (draft : SessionDraft) (answer : Option AppError)
    → Between (k ∷ []) none s
    → Coupled (file_under around s k runtime (create s.sessions draft answer)).0
unfolding file_under create
filed_under-Coupled around s k runtime draft none b =
    spawn_recorder-Coupled around (record s { sessions = (create s.sessions draft none).0 }) k
      runtime (new_session (s.sessions.last_id + 1) draft) around.spawn_answer
      (record {
        waiting = b.waiting;
        threads = b.threads;
        filed = create-Filed s.sessions draft b.filed;
      })
      (find-create s.sessions draft none b.filed) refl
filed_under-Coupled around s k runtime draft (some error) b =
    fail_start-Coupled (record s { engine = stop_stream s.engine k }) error
      (record {
        waiting = b.waiting;
        threads = stop_stream-Threads s.engine k [] b.threads;
        filed = b.filed;
      })

after_device-Coupled :
    (around : Surroundings) (s : CaptureService) (answer : Result CaptureRuntime)
    → Between [] none s
    → Coupled (after_device around s answer).0
unfolding after_device open_session
after_device-Coupled around s (err error) b =
    fail_start-Coupled s (with_container_advice around.problem_advice error) b
after_device-Coupled around s (success_of runtime) b =
    filed_under-Coupled around (record s { engine = (start_stream s.engine).0 })
      (start_stream s.engine).1 runtime (draft_for runtime around.started_at_ms)
      around.create_answer
      (record {
        waiting = b.waiting;
        threads = start_stream-Threads s.engine b.threads;
        filed = b.filed;
      })

start_from-Coupled :
    (around : Surroundings) (s : CaptureService) (o : Option ActiveCapture)
    → s.transition ≡ o
    → Coupled s
    → Coupled (start_from around s o).0
unfolding start_from announced set_state
start_from-Coupled around s (some active) e c = c
start_from-Coupled around s none e c = after_device-Coupled around (announced s) _ (record {
  waiting = e;
  threads = (idle_view s e c).threads;
  filed = subst (λ k. Filed k s.sessions) (idle_view s e c).no_session c.filed;
})

pub start-Coupled :
    (around : Surroundings) (s : CaptureService) → Coupled s → Coupled (start around s).0
unfolding start
start-Coupled around s c = start_from-Coupled around s s.transition refl c

stopped-Threads :
    (e : Engine) (a : ActiveCapture)
    → a.recorder ≡ a.capture
    → Threads e (a.capture ∷ []) (a.capture ∷ [])
    → Threads (stop_recorder (stop_stream e a.capture) a.recorder) [] []
stopped-Threads e a fed t =
    subst (λ k. Threads (stop_recorder (stop_stream e a.capture) k) [] []) (sym fed)
      (stop_recorder-Threads _ a.capture (stop_stream-Threads e a.capture (a.capture ∷ []) t))

stop_active-Coupled :
    (closing : Closing) (s : CaptureService) (o : Option ActiveCapture)
    → s.transition ≡ o
    → Coupled s
    → Coupled (stop_active closing s o)
unfolding stop_active set_state View
stop_active-Coupled closing s none e c = c
stop_active-Coupled closing s (some a) e c =
    let records = busy_view s a e c in
    record {
      view = record {
        threads = stopped-Threads s.engine a records.fed records.threads;
        no_session = refl;
        state = inl (refl, refl);
      };
      filed =
          close-Filed s.sessions a.session_id closing.closed_at_ms closing.close_answer
            (subst (λ k. Filed k s.sessions) records.session c.filed);
    }

pub stop_locked-Coupled :
    (closing : Closing) (s : CaptureService) → Coupled s → Coupled (stop_locked closing s)
unfolding stop_locked
stop_locked-Coupled closing s c = stop_active-Coupled closing s s.transition refl c

pub operate-Coupled :
    (s : CaptureService) (operation : Operation) → Coupled s → Coupled (operate s operation)
unfolding operate stop shutdown
operate-Coupled s (starts around) c = start-Coupled around s c
operate-Coupled s (stops closing) c = stop_locked-Coupled closing s c
operate-Coupled s (shuts_down closing) c = stop_locked-Coupled closing s c
