-- ===== src/Ws/Session/Coherent/Heard.antt =====
-- The calls that a session makes to the listener registry, in backend/src/ws/session.rs.
use on_air_record.Base.{
  ℕ, zero, suc, Bool, true, false, Option, none, some, List, [], ◌∷◌, ◌≡◌, refl, ◌==◌, not, ◌||◌,
  if_branches, if◌then◌else◌, arith,
}
use on_air_record.Base.Int.{ℤ, max_ℤ}
use on_air_record.Services.Listeners.{
  ListenerActivity, following, playback, halted, Call, registers, sets_activity, sets_player, drops,
}
use on_air_record.Services.Playback.{
  PlaybackCursor, Answer, ok, error, CursorOutput, advance, cursor_at,
}
use on_air_record.Services.Playback
use on_air_record.Ws.Session.{
  World, StreamSession, StreamMode, live, playing_back, paused, Outgoing, deliver, and_then,
  send_message, switched_to_live, end_of_recording, mode_message, is_silent, ClientMessage, go_live,
  seek_to, pause, resume, play_at, ping, player, clamp_speed, prebuffer_frames, ping_frame,
}
use on_air_record.Ws.Session.Commands.{
  PlaybackStep, continues, caught_up, exhausted, socket_closed, back_to_real_time, join_live,
  rejoin, run_out, edge_of, edge_or, after_output, drive_playback, after_seek, resume_in,
  apply_speed, start_playback, pause_session, handle_command, go_on,
}
use on_air_record.Ws.Session.Loop.{
  Event, incoming, gone, live_frame, live_closed, live_lagged, tick, access_check, presence,
  input_level, Incoming, said, goodbye, other, report, report_as, activity_of, same_kind, handle,
  hand_over_list, check_access, take_command, take_incoming, after_tick, tick_with, opening, greet,
  Reached, opened, turned, still_allowed, may_watch_listeners,
}

-- What the registry was told last of an entry; a new one follows the live feed.
unfoldable pub last_told : ℕ → List Call → ListenerActivity
last_told of_id [] = following
last_told of_id (sets_activity id activity ∷ calls) =
    let before = last_told of_id calls in if id == of_id then activity else before
last_told of_id (sets_player id state ∷ calls) = last_told of_id calls
last_told of_id (registers account address user_agent now_ms ∷ calls) = last_told of_id calls
last_told of_id (drops id ∷ calls) = last_told of_id calls

-- It is what the session takes as reported.
unfoldable pub Told : StreamSession → Type 0
unfolding last_told
Told s = last_told s.id s.calls ≡ s.reported

deliver-Told : (w : World) (s : StreamSession) (m : Outgoing) → Told s → Told (deliver w s m).0
unfolding Told deliver
deliver-Told w s m h = h

and_then-Told :
    (r : StreamSession × Bool) (rest : StreamSession → StreamSession × Bool)
    → Told r.0
    → ((t : StreamSession) → Told t → Told (rest t).0)
    → Told (and_then r rest).0
unfolding and_then
and_then-Told (s, true) rest h later = later s h
and_then-Told (s, false) rest h later = h

-- Two messages, whatever they are.
rejoined-Told : (w : World) (s : StreamSession) → Told s → Told (rejoin w s).0
unfolding rejoin back_to_real_time join_live deliver Told
rejoined-Told w s h =
    and_then-Told (back_to_real_time w (join_live s)) _
      (if_branches (λ (r : StreamSession × Bool). Told r.0) (s.speed == 100) _ _ (λ _. h) (λ _. h))
      (λ t k. and_then-Told (send_message w t (switched_to_live (edge_of w))) _ k (λ u j. j))

run_out-Told : (w : World) (at_ms : ℤ) (s : StreamSession) → Told s → Told (run_out w at_ms s).0
unfolding run_out deliver Told
run_out-Told w at_ms s h = and_then-Told (send_message w s (end_of_recording at_ms)) _ h (λ t k. k)

go_on-Told :
    (rest : StreamSession → PlaybackCursor → StreamSession × (PlaybackCursor × PlaybackStep))
    (c : PlaybackCursor) (r : StreamSession × Bool)
    → ((t : StreamSession) (e : PlaybackCursor) → Told t → Told (rest t e).0)
    → Told r.0
    → Told (go_on rest c r).0
go_on-Told rest c (s, true) later h = later s c h
go_on-Told rest c (s, false) later h = h

after_output-Told :
    (w : World)
    (rest : StreamSession → PlaybackCursor → StreamSession × (PlaybackCursor × PlaybackStep))
    (s : StreamSession) (c : PlaybackCursor) (output : Answer CursorOutput)
    → ((t : StreamSession) (e : PlaybackCursor) → Told t → Told (rest t e).0)
    → Told s
    → Told (after_output w rest s c output).0
unfolding after_output deliver Told
after_output-Told w rest s c (error message) later h = h
after_output-Told w rest s c (ok (Playback.frame f)) later h = go_on-Told rest c _ later h
after_output-Told w rest s c (ok (Playback.gap from_ms to_ms)) later h = go_on-Told rest c _ later h
after_output-Told w rest s c (ok (Playback.end_of_recording at_ms)) later h = h

drive_playback-Told :
    (w : World) (steps : ℕ) (s : StreamSession) (c : PlaybackCursor)
    → Told s
    → Told (drive_playback w steps s c).0
unfolding drive_playback
drive_playback-Told w zero s c h = h
drive_playback-Told w (suc steps) s c h =
    let (d, output) = advance w.library c in
    after_output-Told w (λ t e. drive_playback w steps t e) s d output
      (λ t e k. drive_playback-Told w steps t e k) h

after_seek-Told :
    (w : World) (at_ms : ℤ) (r : StreamSession × (PlaybackCursor × PlaybackStep))
    → Told r.0
    → Told (after_seek w at_ms r).0
unfolding after_seek Told
after_seek-Told w at_ms (s, (c, continues)) h = h
after_seek-Told w at_ms (s, (c, socket_closed)) h = h
after_seek-Told w at_ms (s, (c, caught_up)) h = rejoined-Told w (record s { cursor = some c }) h
after_seek-Told w at_ms (s, (c, exhausted)) h =
    run_out-Told w (max_ℤ at_ms (edge_or w.live_edge_ms at_ms))
      (record s { cursor = some c; mode = paused }) h

resume_in-Told : (s : StreamSession) (r : StreamMode) → Told s → Told (resume_in s r)
unfolding resume_in Told
resume_in-Told s live h = h
resume_in-Told s playing_back h = h
resume_in-Told s paused h = h

apply_speed-Told : (s : StreamSession) (applied : ℕ) → Told s → Told (apply_speed s applied)
unfolding apply_speed Told
apply_speed-Told s applied h = if_branches Told (applied == s.speed) _ _ (λ _. h) (λ _. h)

handle_command-Told :
    (w : World) (s : StreamSession) (command : ClientMessage)
    → Told s
    → Told (handle_command w s command).0
unfolding handle_command back_to_real_time join_live deliver start_playback pause_session Told
handle_command-Told w s go_live h =
    and_then-Told (back_to_real_time w (join_live s)) _
      (if_branches (λ (r : StreamSession × Bool). Told r.0) (s.speed == 100) _ _ (λ _. h) (λ _. h))
      (λ t k. k)
handle_command-Told w s (play_at value) h = apply_speed-Told s (clamp_speed value) h
handle_command-Told w s (seek_to at_ms) h =
    and_then-Told (send_message w (start_playback s) (mode_message playing_back at_ms)) _ h (λ t k.
      after_seek-Told w at_ms _
        (drive_playback-Told w prebuffer_frames t (cursor_at at_ms t.frame_ms) k))
handle_command-Told w s pause h = h
handle_command-Told w s resume h = resume_in-Told s s.resume_mode h
handle_command-Told w s (ping at_ms) h = h
handle_command-Told w s (player state) h = h

take_command-Told :
    (w : World) (s : StreamSession) (command : ClientMessage)
    → Told s
    → Told (take_command w s command).0
unfolding take_command Told last_told
take_command-Told w s (player state) h = h
take_command-Told w s (seek_to at_ms) h =
    handle_command-Told w (record s { repositioned = true }) (seek_to at_ms) h
take_command-Told w s go_live h = handle_command-Told w s go_live h
take_command-Told w s pause h = handle_command-Told w s pause h
take_command-Told w s resume h = handle_command-Told w s resume h
take_command-Told w s (play_at value) h = handle_command-Told w s (play_at value) h
take_command-Told w s (ping at_ms) h = handle_command-Told w s (ping at_ms) h

take_incoming-Told :
    (w : World) (s : StreamSession) (message : Incoming)
    → Told s
    → Told (take_incoming w s message).0
unfolding take_incoming deliver Told
take_incoming-Told w s goodbye h = h
take_incoming-Told w s other h = h
take_incoming-Told w s (said (ok command)) h = take_command-Told w s command h
take_incoming-Told w s (said (error message)) h = h

after_tick-Told :
    (w : World) (r : StreamSession × (PlaybackCursor × PlaybackStep))
    → Told r.0
    → Told (after_tick w r).0
unfolding after_tick Told
after_tick-Told w (s, (c, continues)) h = h
after_tick-Told w (s, (c, socket_closed)) h = h
after_tick-Told w (s, (c, caught_up)) h = rejoined-Told w (record s { cursor = some c }) h
after_tick-Told w (s, (c, exhausted)) h =
    run_out-Told w c.position_ms
      (record s { cursor = some c; mode = paused; resume_mode = playing_back }) h

tick-Told :
    (w : World) (s : StreamSession) (c : Option PlaybackCursor) → Told s → Told (tick_with w s c).0
unfolding tick_with Told
tick-Told w s none h = h
tick-Told w s (some c) h =
    after_tick-Told w (drive_playback w 1 s c) (drive_playback-Told w 1 s c h)

hand_over_list-Told :
    (w : World) (s : StreamSession) (b : Bool) → Told s → Told (hand_over_list w s b).0
unfolding hand_over_list deliver Told
hand_over_list-Told w s true h =
    if_branches (λ (r : StreamSession × Bool). Told r.0) s.may_watch _ _ (λ _. h) (λ _. h)
hand_over_list-Told w s false h =
    if_branches (λ (r : StreamSession × Bool). Told r.0) s.may_watch _ _ (λ _. h) (λ _. h)

check_access-Told : (w : World) (s : StreamSession) → Told s → Told (check_access w s).0
unfolding check_access deliver Told
check_access-Told w s h =
    if_branches (λ (r : StreamSession × Bool). Told r.0) (still_allowed w.auth_mode w.signed_in) _ _
      (λ _.
        if_branches (λ (r : StreamSession × Bool). Told r.0) (is_silent s.last_heard w.instant_ms) _
          _ (λ _. h)
          (λ _.
            and_then-Told (deliver w s ping_frame) _ h
              (λ t k. hand_over_list-Told w t (may_watch_listeners w.auth_mode w.signed_in) k)))
      (λ _. h)

handle-Told : (w : World) (s : StreamSession) (event : Event) → Told s → Told (handle w s event).0
unfolding handle deliver Told
handle-Told w s access_check h = check_access-Told w s h
handle-Told w s input_level h = h
handle-Told w s presence h = h
handle-Told w s gone h = h
handle-Told w s (incoming message) h =
    take_incoming-Told w (record s { last_heard = w.instant_ms }) message h
handle-Told w s live_closed h = h
handle-Told w s (live_lagged missed) h = h
handle-Told w s (live_frame frame) h = and_then-Told _ _ h (λ t k. k)
handle-Told w s tick h = tick-Told w s s.cursor h

same_id : (id : ℕ) → (id == id) ≡ true
same_id id = ground arith

report_as-Told : (s : StreamSession) (a : ListenerActivity) → Told (report_as s a)
unfolding report_as Told last_told
report_as-Told s following = rw (same_id s.id) refl
report_as-Told s (playback from_ms) = rw (same_id s.id) refl
report_as-Told s halted = rw (same_id s.id) refl

pub report-Told : (s : StreamSession) → Told s → Told (report s)
unfolding report
report-Told s h =
    let a = activity_of s.mode s.cursor in
    if_branches Told (not (same_kind a s.reported) || s.repositioned) _ _ (λ _. report_as-Told s a)
      (λ _. h)

greet-Told : (w : World) (id : ℕ) → Told (greet w (opening w id)).0
unfolding greet deliver Told last_told
greet-Told w id =
    and_then-Told _ _ refl (λ t k.
      if_branches (λ (r : StreamSession × Bool). Told r.0) t.may_watch _ _ (λ _. k) (λ _. k))

pub Reached-Told : (s : StreamSession) → Reached s → Told s
Reached-Told s (opened w id e) = greet-Told w id
Reached-Told s (turned w t event r enabled e) =
    handle-Told w (report t) event (report-Told t (Reached-Told t r))
