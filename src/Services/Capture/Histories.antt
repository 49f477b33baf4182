-- ===== src/Services/Capture/Histories.antt =====
-- Any history of backend/src/services/capture_service.rs from the start of the program, restarts and the
-- automatic start among them.
use on_air_record.Base.{
  ◌≤◌, ◌≡◌, refl, sym, ◌∙◌, ap, subst, ◌⊎◌, inl, inr, Bool, true, some, List, [], ◌∷◌, All,
  if_branches, ltb,
}
use on_air_record.Models.Segment.{Segment}
use on_air_record.Models.Session.{recording, CaptureState}
use on_air_record.Models.Session as S
use on_air_record.Models.Settings.{Settings}
use on_air_record.Repositories.Sessions.{SessionTable, close_dangling}
use on_air_record.Services.Capture.State.{
  ActiveCapture, CaptureService, Surroundings, Closing, new, snapshot, is_active,
}
use on_air_record.Services.Capture.Start.{start_from, start}
use on_air_record.Services.Capture.Operations.{
  stop_locked, Operation, operate, run, restart, Delay, not_wanted_after, waited,
  start_unless_active, start_if_configured,
}
use on_air_record.Services.Capture.Rows.{close_dangling-Filed}
use on_air_record.Services.Capture.View.{Records, View, Coupled, busy_view, not_false}
use on_air_record.Services.Capture.Coupled.{start-Coupled, stop_locked-Coupled, operate-Coupled}

run-Coupled :
    (s : CaptureService) (operations : List Operation) → Coupled s → Coupled (run s operations)
unfolding run
run-Coupled s [] c = c
run-Coupled s (operation ∷ operations) c =
    run-Coupled (operate s operation) operations (operate-Coupled s operation c)

pub fresh-Coupled :
    (t : SessionTable) (segments : List Segment)
    → All (λ r. r.id ≤ t.last_id) t.rows
    → Coupled (new (close_dangling t segments))
unfolding View
fresh-Coupled t segments below = record {
  view = record {
    threads = record { running = refl; recording_threads = refl; never_blocked = refl };
    no_session = refl;
    state = inl (refl, refl);
  };
  filed = close_dangling-Filed t segments below;
}

restart-Coupled :
    (around : Surroundings) (closing : Closing) (others : List Operation) (s : CaptureService)
    → Coupled s
    → Coupled (restart around closing others s).0
unfolding restart
restart-Coupled around closing others s c =
    start-Coupled around (run (stop_locked closing s) others)
      (run-Coupled (stop_locked closing s) others (stop_locked-Coupled closing s c))

-- From a table whose ids are at most its counter, with the rows of an earlier run closed first, any
-- sequence of starts, stops and shutdowns leaves the service coupled, and so does a restart after it
-- with others between its stop and its start, whatever devices, database and thread builder answer: a handle is held exactly while one stream and one recorder run, the snapshot
-- then says recording with the handle's session, whose row is open; otherwise nothing runs and the snapshot
-- is idle or an error with its text; no recorder is stopped before its stream; and each other row has an
-- end, unless the database refused to write it.
pub history-Coupled :
    (t : SessionTable) (segments : List Segment) (operations : List Operation)
    (around : Surroundings) (closing : Closing) (others : List Operation)
    → All (λ r. r.id ≤ t.last_id) t.rows
    → let s = run (new (close_dangling t segments)) operations in
      Coupled s × Coupled (restart around closing others s).0
history-Coupled t segments operations around closing others below =
    let c = run-Coupled _ operations (fresh-Coupled t segments below) in
    (c, restart-Coupled around closing others _ c)

busy-is_active : (s : CaptureService) (a : ActiveCapture) → Records a s → is_active s ≡ true
unfolding is_active snapshot S.is_active
busy-is_active s a r = ap S.is_active r.state

busy-start :
    (around : Surroundings) (s : CaptureService) (a : ActiveCapture)
    → s.transition ≡ some a
    → (start around s).0 ≡ s
unfolding start start_from
busy-start around s a e = subst (λ o. (start_from around s o).0 ≡ s) (sym e) refl

-- What the task of the automatic start may leave, when the service was `after` at the end of the wait.
unfoldable pub Yields : CaptureService → List Operation → CaptureService → Type 0
Yields after others left =
    Coupled left
    × (((a : ActiveCapture) → after.transition ≡ some a → left ≡ after)
        × ((a : ActiveCapture)
            → (run after others).transition ≡ some a
            → (left ≡ after) ⊎ (left ≡ run after others)))

untouched : (s : CaptureService) (others : List Operation) → Coupled s → Yields s others s
unfolding Yields
untouched s others c = (c, ((λ a e. refl), (λ a e. inl refl)))

start_unless_active-Yields :
    (around : Surroundings) (others : List Operation) (s : CaptureService)
    → Coupled s
    → Yields s others (start_unless_active around others s)
unfolding start_unless_active Yields
start_unless_active-Yields around others s c =
    if_branches (Yields s others) (is_active s) s (start around (run s others)).0
      (λ active. untouched s others c)
      (λ inactive. (
        start-Coupled around (run s others) (run-Coupled s others c),
        (
          (λ a e. absurd (not_false (sym inactive ∙ busy-is_active s a (busy_view s a e c)))),
          (λ a e. inr (busy-start around (run s others) a e)),
        ),
      ))

waited-Coupled :
    (settings : Settings) (delay : Delay) (s : CaptureService)
    → Coupled s
    → Coupled (waited settings delay s)
waited-Coupled settings delay s c =
    if_branches Coupled (ltb 0 settings.auto_start_delay_seconds) (run s delay.meanwhile) s
      (λ _. run-Coupled s delay.meanwhile c) (λ _. c)

-- The automatic start of a coupled service, when the settings ask for it, leaves it coupled; with a capture held
-- once the wait is over, it does nothing; and with one that others begin before it gets the lock, it
-- changes nothing.
pub auto_start-Yields :
    (settings : Settings) (delay : Delay) (shutting_down : Bool) (around : Surroundings)
    (others : List Operation) (s : CaptureService)
    → settings.auto_start ≡ true
    → Coupled s
    → Yields
        (waited settings delay s)
        others
        (start_if_configured settings delay shutting_down around others s)
unfolding start_if_configured
auto_start-Yields settings delay shutting_down around others s on c =
    let after = waited settings delay s in
    let calm = waited-Coupled settings delay s c in
    rw on (
      if_branches (Yields after others) (not_wanted_after settings.auto_start_delay_seconds delay)
        after _ (λ _. untouched after others calm)
        (λ _.
          if_branches (Yields after others) shutting_down after _ (λ _. untouched after others calm)
            (λ _. start_unless_active-Yields around others after calm)))
