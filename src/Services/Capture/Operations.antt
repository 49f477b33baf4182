-- ===== src/Services/Capture/Operations.antt =====
-- backend/src/services/capture_service.rs: stopping, restarting, the automatic start, and any sequence of
-- operations.
use on_air_record.Base.{
  ℕ, ltb, Bool, ◌&&◌, ◌||◌, not, Option, none, some, List, [], ◌∷◌, if◌then◌else◌,
}
use on_air_record.Error.{Result, success_of}
use on_air_record.Models.Session.{idle, CaptureSnapshot}
use on_air_record.Models.Settings.{Settings}
use on_air_record.Repositories.Sessions.{close}
use on_air_record.Services.Capture.Threads.{stop_stream, stop_recorder}
use on_air_record.Services.Capture.State.{
  ActiveCapture, CaptureService, Surroundings, Closing, snapshot, is_active, set_state,
}
use on_air_record.Services.Capture.Start.{start}

unfoldable pub stop_active : Closing → CaptureService → Option ActiveCapture → CaptureService
unfolding stop_stream stop_recorder close set_state
stop_active closing s none = s
stop_active closing s (some active) =
    let unfed = stop_stream s.engine active.capture in
    set_state
      (record s {
        transition = none;
        engine = stop_recorder unfed active.recorder;
        sessions = close s.sessions active.session_id closing.closed_at_ms closing.close_answer;
      })
      idle none

unfoldable pub stop_locked : Closing → CaptureService → CaptureService
unfolding stop_active
stop_locked closing s = stop_active closing s s.transition

unfoldable pub stop : Closing → CaptureService → CaptureService × Result CaptureSnapshot
unfolding stop_locked snapshot
stop closing s = let stopped = stop_locked closing s in (stopped, success_of (snapshot stopped))

unfoldable pub shutdown : Closing → CaptureService → CaptureService
unfolding stop_locked
shutdown closing s = stop_locked closing s

pub data Operation : Type 0 where
  starts : Surroundings → Operation
  stops : Closing → Operation
  shuts_down : Closing → Operation

unfoldable pub operate : CaptureService → Operation → CaptureService
unfolding start stop shutdown
operate s (starts around) = (start around s).0
operate s (stops closing) = (stop closing s).0
operate s (shuts_down closing) = shutdown closing s

unfoldable pub run : CaptureService → List Operation → CaptureService
run s [] = s
run s (operation ∷ operations) = run (operate s operation) operations

-- The lock is free between the stop and the start, so others may come first.
unfoldable pub restart :
    Surroundings
    → Closing
    → List Operation
    → CaptureService
    → CaptureService × Result CaptureSnapshot
unfolding stop_locked start run
restart around closing others s = start around (run (stop_locked closing s) others)

-- The wait before an automatic start: what others did meanwhile, whether the shutdown came first, and the
-- setting read again.
pub record Delay : Type 0 where
  pub meanwhile : List Operation
  pub interrupted : Bool
  pub still_wanted : Bool

abbrev pub not_wanted_after : ℕ → Delay → Bool
not_wanted_after seconds delay = ltb 0 seconds && (delay.interrupted || not delay.still_wanted)

-- Past the wait. Others run between the check and the lock.
unfoldable pub start_unless_active : Surroundings → List Operation → CaptureService → CaptureService
unfolding run is_active start
start_unless_active around others s =
    let begun = (start around (run s others)).0 in if is_active s then s else begun

abbrev pub waited : Settings → Delay → CaptureService → CaptureService
waited settings delay s =
    if ltb 0 settings.auto_start_delay_seconds then run s delay.meanwhile else s

-- What `start` answers is only logged.
unfoldable pub start_if_configured :
    Settings → Delay → Bool → Surroundings → List Operation → CaptureService → CaptureService
unfolding start_unless_active
start_if_configured settings delay shutting_down around others s =
    let after = waited settings delay s in
    let tried = start_unless_active around others after in
    if not settings.auto_start
    then s
    else if not_wanted_after settings.auto_start_delay_seconds delay
    then after
    else if shutting_down
    then after
    else tried
