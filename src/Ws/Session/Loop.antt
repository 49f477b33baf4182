-- ===== src/Ws/Session/Loop.antt =====
-- One turn of the loop of `run` in backend/src/ws/session.rs: the report to the listener list, the
-- choice of `select!`, and the branch of each event; `Reached` is what the loop can come to.
use Prim.Native.String.{◌++◌}
use on_air_record.Base.{
  ℕ, Bool, true, false, Option, none, some, [], ◌∷◌, ◌≡◌, not, ◌&&◌, ◌||◌, if◌then◌else◌,
}
use on_air_record.Models.AudioFrame.{AudioFrame}
use on_air_record.Models.Access.{
  AuthMode, User, requires_login, listen, administer, authorize, is_ok,
}
use on_air_record.Models.Activity.Tally.{went_back_to, PlayerState, playing}
use on_air_record.Models.Activity.Tally
use on_air_record.Services.Listeners.{
  ListenerActivity, following, playback, halted, sets_activity, sets_player,
}
use on_air_record.Services.Playback.{Answer, ok, error, PlaybackCursor}
use on_air_record.Ws.Session.{
  World, StreamSession, StreamMode, live, playing_back, paused, ServerMessage, ClientMessage,
  seek_to, player, listeners_hidden, level, listeners_message, stream_info, deliver, send_message,
  send_audio, and_then, is_silent, tick_period, ping_frame, close_frame, go_live, pause, resume,
  play_at, ping, effective_frame_ms,
}
use on_air_record.Ws.Session
use on_air_record.Ws.Session.Commands.{
  PlaybackStep, continues, caught_up, exhausted, socket_closed, handle_command, drive_playback,
  rejoin, run_out,
}

-- A text is a command, or what serde says of it.
pub data Incoming : Type 0 where
  said : Answer ClientMessage → Incoming
  goodbye other : Incoming

pub data Event : Type 0 where
  incoming : Incoming → Event
  gone : Event  -- the socket ended or failed
  live_frame : AudioFrame → Event
  live_closed : Event
  live_lagged : ℕ → Event
  tick access_check presence input_level : Event

unfoldable pub activity_of : StreamMode → Option PlaybackCursor → ListenerActivity
activity_of playing_back (some c) = playback c.position_ms
activity_of paused cursor = halted
activity_of _ _ = following

unfoldable pub may_watch_user : AuthMode → Answer (Option User) → Bool
may_watch_user mode (ok user) = is_ok (authorize mode user administer)
may_watch_user mode (error message) = false

unfoldable pub may_watch_listeners : Answer AuthMode → Answer (Option User) → Bool
unfolding may_watch_user
may_watch_listeners (ok mode) user = if requires_login mode then may_watch_user mode user else true
may_watch_listeners (error message) user = false

unfoldable pub still_allowed_user : AuthMode → Answer (Option User) → Bool
still_allowed_user mode (ok user) = is_ok (authorize mode user listen)
still_allowed_user mode (error message) = true

unfoldable pub still_allowed : Answer AuthMode → Answer (Option User) → Bool
unfolding still_allowed_user
still_allowed (ok mode) user = if requires_login mode then still_allowed_user mode user else true
still_allowed (error message) user = true

-- `discriminant`
unfoldable pub same_kind : ListenerActivity → ListenerActivity → Bool
same_kind following following = true
same_kind (playback from_ms) (playback other_ms) = true
same_kind halted halted = true
same_kind _ _ = false

abbrev pub note_playback : StreamSession → ListenerActivity → StreamSession
note_playback s (playback from_ms) = record s { tally = went_back_to s.tally from_ms }
note_playback s following = s
note_playback s halted = s

unfoldable pub report_as : StreamSession → ListenerActivity → StreamSession
report_as s activity =
    let t = note_playback s activity in
    record t {
      calls = sets_activity s.id activity ∷ s.calls;
      reported = activity;
      repositioned = false;
    }

-- The top of the loop.
unfoldable pub report : StreamSession → StreamSession
unfolding report_as
report s =
    let activity = activity_of s.mode s.cursor in
    if not (same_kind activity s.reported) || s.repositioned then report_as s activity else s

abbrev pub is_live : StreamMode → Bool
is_live live = true
is_live playing_back = false
is_live paused = false

abbrev pub is_playback : StreamMode → Bool
is_playback playing_back = true
is_playback live = false
is_playback paused = false

-- The guards of `select!`; without a subscription no frame comes.
unfoldable pub enabled : World → StreamSession → Event → Bool
enabled w s (live_frame frame) = is_live s.mode && s.live_rx
enabled w s live_closed = is_live s.mode && s.live_rx
enabled w s (live_lagged missed) = is_live s.mode && s.live_rx
enabled w s tick = is_playback s.mode
enabled w s presence = s.may_watch
enabled w s input_level = not (is_live s.mode) && w.capturing
enabled w s _ = true

-- The list is handed over or taken away.
unfoldable pub hand_over_list : World → StreamSession → Bool → StreamSession × Bool
hand_over_list w s true =
    if s.may_watch
    then (s, true)
    else send_message w (record s { may_watch = true }) (listeners_message w)
hand_over_list w s false =
    if s.may_watch
    then send_message w (record s { may_watch = false }) listeners_hidden
    else (s, true)

unfoldable pub check_access : World → StreamSession → StreamSession × Bool
unfolding hand_over_list
check_access w s =
    if still_allowed w.auth_mode w.signed_in
    then if is_silent s.last_heard w.instant_ms
      then (s, false)
      else and_then (deliver w s ping_frame)
          (λ t. hand_over_list w t (may_watch_listeners w.auth_mode w.signed_in))
    else ((deliver w s close_frame).0, false)

-- A player report stays out of the transport; a seek is reported even within history.
unfoldable pub take_command : World → StreamSession → ClientMessage → StreamSession × Bool
take_command w s (player state) = (
  record s {
    calls = sets_player s.id state ∷ s.calls;
    tally = Tally.player s.tally state w.now_ms;
  },
  true,
)
take_command w s (seek_to timestamp_ms) =
    handle_command w (record s { repositioned = true }) (seek_to timestamp_ms)
take_command w s command = handle_command w s command

unfoldable pub take_incoming : World → StreamSession → Incoming → StreamSession × Bool
unfolding take_command
take_incoming w s goodbye = (s, false)
take_incoming w s other = (s, true)
take_incoming w s (said (ok command)) = take_command w s command
take_incoming w s (said (error message)) =
    send_message w s
      (Session.error "bad_request" ("could not parse the control message: " ++ message))

unfoldable pub after_tick :
    World → StreamSession × (PlaybackCursor × PlaybackStep) → StreamSession × Bool
after_tick w (s, (c, continues)) = (record s { cursor = some c }, true)
after_tick w (s, (c, socket_closed)) = (record s { cursor = some c }, false)
after_tick w (s, (c, caught_up)) = rejoin w (record s { cursor = some c })
after_tick w (s, (c, exhausted)) =
    run_out w c.position_ms
      (record s { cursor = some c; mode = paused; resume_mode = playing_back })

unfoldable pub tick_with : World → StreamSession → Option PlaybackCursor → StreamSession × Bool
unfolding after_tick
tick_with w s none = (record s { mode = live }, true)
tick_with w s (some c) = after_tick w (drive_playback w 1 s c)

unfoldable pub handle : World → StreamSession → Event → StreamSession × Bool
unfolding take_incoming tick_with
handle w s access_check = check_access w s
handle w s input_level = send_message w s level
handle w s presence = send_message w s (listeners_message w)
handle w s gone = (s, false)
handle w s (incoming message) = take_incoming w (record s { last_heard = w.instant_ms }) message
handle w s live_closed =
    let t = record s { live_rx = false } in send_message w t (stream_info w t.mode)
handle w s (live_lagged missed) = (s, true)
handle w s (live_frame frame) = and_then (send_audio w s frame) (λ t. send_message w t level)
handle w s tick = tick_with w s s.cursor

-- The variables of `run` before its loop, with the listener registered as `id`.
abbrev pub opening : World → ℕ → StreamSession
opening w id =
    let frame_ms = effective_frame_ms w in
    record {
      mode = live;
      resume_mode = live;
      live_rx = true;
      cursor = none;
      frame_ms = frame_ms;
      speed = 100;
      period_ms = tick_period frame_ms 100;
      reported = following;
      repositioned = false;
      may_watch = may_watch_listeners w.auth_mode w.signed_in;
      last_heard = w.instant_ms;
      tally = Tally.new w.now_ms;
      id = id;
      calls = [];
      sent = [];
    }

-- What is sent before the loop.
unfoldable pub greet : World → StreamSession → StreamSession × Bool
greet w s =
    and_then (send_message w s (stream_info w s.mode))
      (λ t. if t.may_watch then send_message w t (listeners_message w) else (t, true))

-- The states in which the loop comes to its top.
pub data Reached : StreamSession → Type 0 where
  opened :
      (w : World) (id : ℕ) → (greet w (opening w id)).1 ≡ true → Reached (greet w (opening w id)).0
  turned :
      (w : World) (s : StreamSession) (event : Event)
      → Reached s
      → enabled w (report s) event ≡ true
      → (handle w (report s) event).1 ≡ true
      → Reached (handle w (report s) event).0
