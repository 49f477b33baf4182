-- ===== src/Ws/Session/Commands.antt =====
-- The commands of a client and the driving of playback: back_to_real_time, handle_command and
-- drive_playback of backend/src/ws/session.rs.
use on_air_record.Base.{ℕ, zero, suc, Bool, true, false, Option, none, some, ◌==◌, if◌then◌else◌}
use on_air_record.Base.Int.{ℤ, max_ℤ}
use on_air_record.Services.Playback.{
  Answer, ok, error, CursorOutput, PlaybackCursor, cursor_at, advance,
}
use on_air_record.Services.Playback
use on_air_record.Ws.Session.{
  World, StreamSession, StreamMode, live, playing_back, paused, ServerMessage, mode_is,
  switched_to_live, gap, end_of_recording, speed_is, pong, ClientMessage, go_live, seek_to, pause,
  resume, play_at, ping, player, clamp_speed, tick_period, mode_message, send_message, send_audio,
  and_then, prebuffer_frames,
}
use on_air_record.Ws.Session

pub data PlaybackStep : Type 0 where
  continues caught_up exhausted socket_closed : PlaybackStep

-- `state.live_edge_ms().unwrap_or_else(now_ms)`
abbrev pub edge_or : Option ℤ → ℤ → ℤ
edge_or none otherwise_ms = otherwise_ms
edge_or (some edge_ms) otherwise_ms = edge_ms

abbrev pub edge_of : World → ℤ
edge_of w = edge_or w.live_edge_ms w.now_ms

abbrev pub set_speed : StreamSession → ℕ → StreamSession
set_speed s speed = record s { speed = speed; period_ms = tick_period s.frame_ms speed }

unfoldable pub back_to_real_time : World → StreamSession → StreamSession × Bool
back_to_real_time w s =
    if s.speed == 100 then (s, true) else send_message w (set_speed s 100) (speed_is 100)

unfoldable pub join_live : StreamSession → StreamSession
join_live s = record s { cursor = none; mode = live; resume_mode = live; live_rx = true }

-- Playback caught up with the recording: the same steps on a tick and on a seek.
unfoldable pub rejoin : World → StreamSession → StreamSession × Bool
rejoin w s = and_then (back_to_real_time w (join_live s)) (λ t.
    and_then (send_message w t (switched_to_live (edge_of w)))
      (λ u. send_message w u (mode_message u.mode (edge_of w))))

-- Playback ran out.
unfoldable pub run_out : World → ℤ → StreamSession → StreamSession × Bool
run_out w at_ms s =
    and_then (send_message w s (end_of_recording at_ms))
      (λ t. send_message w t (mode_message t.mode at_ms))

abbrev pub stop_or : PlaybackStep → Bool → PlaybackStep
stop_or step true = step
stop_or step false = socket_closed

abbrev pub go_on :
    (StreamSession → PlaybackCursor → StreamSession × (PlaybackCursor × PlaybackStep))
    → PlaybackCursor
    → StreamSession × Bool
    → StreamSession × (PlaybackCursor × PlaybackStep)
go_on rest c (s, true) = rest s c
go_on rest c (s, false) = (s, (c, socket_closed))

abbrev pub end_step : World → PlaybackStep
end_step w = if w.capturing then caught_up else exhausted

unfoldable pub after_output :
    World
    → (StreamSession → PlaybackCursor → StreamSession × (PlaybackCursor × PlaybackStep))
    → StreamSession
    → PlaybackCursor
    → Answer CursorOutput
    → StreamSession × (PlaybackCursor × PlaybackStep)
after_output w rest s c (error message) =
    let (t, delivered) =
      send_message w s (Session.error "internal" "could not read the recording") in
    (t, (c, stop_or exhausted delivered))
after_output w rest s c (ok (Playback.frame f)) = go_on rest c (send_audio w s f)
after_output w rest s c (ok (Playback.gap from_ms to_ms)) =
    go_on rest c (send_message w s (gap from_ms to_ms))
after_output w rest s c (ok (Playback.end_of_recording at_ms)) = (s, (c, end_step w))

unfoldable pub drive_playback :
    World → ℕ → StreamSession → PlaybackCursor → StreamSession × (PlaybackCursor × PlaybackStep)
unfolding after_output
drive_playback w zero s c = (s, (c, continues))
drive_playback w (suc steps) s c =
    let (d, output) = advance w.library c in
    after_output w (λ t e. drive_playback w steps t e) s d output

unfoldable pub after_seek :
    World → ℤ → StreamSession × (PlaybackCursor × PlaybackStep) → StreamSession × Bool
after_seek w timestamp_ms (s, (c, continues)) = (record s { cursor = some c }, true)
after_seek w timestamp_ms (s, (c, socket_closed)) = (record s { cursor = some c }, false)
after_seek w timestamp_ms (s, (c, caught_up)) = rejoin w (record s { cursor = some c })
after_seek w timestamp_ms (s, (c, exhausted)) =
    run_out w (max_ℤ timestamp_ms (edge_or w.live_edge_ms timestamp_ms))
      (record s { cursor = some c; mode = paused })

abbrev pub position_of : World → Option PlaybackCursor → ℤ
position_of w none = edge_of w
position_of w (some c) = c.position_ms

abbrev pub resume_after_pause : StreamMode → StreamMode → StreamMode
resume_after_pause paused resume_mode = resume_mode
resume_after_pause live resume_mode = live
resume_after_pause playing_back resume_mode = playing_back

unfoldable pub pause_session : StreamSession → StreamSession
pause_session s = record s {
  resume_mode = resume_after_pause s.mode s.resume_mode;
  mode = paused;
  live_rx = false;
}

unfoldable pub resume_in : StreamSession → StreamMode → StreamSession
resume_in s live = record s { mode = live; cursor = none; live_rx = true }
resume_in s playing_back = record s { mode = playing_back }
resume_in s paused = record s { mode = paused }

unfoldable pub start_playback : StreamSession → StreamSession
start_playback s = record s { mode = playing_back; resume_mode = playing_back; live_rx = false }

unfoldable pub apply_speed : StreamSession → ℕ → StreamSession
apply_speed s applied = if applied == s.speed then s else set_speed s applied

-- `ticker.reset()` starts the current period again and is left out.
unfoldable pub handle_command : World → StreamSession → ClientMessage → StreamSession × Bool
handle_command w s go_live =
    and_then (back_to_real_time w (join_live s))
      (λ t. send_message w t (mode_message t.mode (edge_of w)))
handle_command w s (play_at value) =
    let applied = clamp_speed value in send_message w (apply_speed s applied) (speed_is applied)
handle_command w s (seek_to timestamp_ms) =
    let t = start_playback s in
    and_then (send_message w t (mode_message t.mode timestamp_ms)) (λ u.
      after_seek w timestamp_ms
        (drive_playback w prebuffer_frames u (cursor_at timestamp_ms u.frame_ms)))
handle_command w s pause =
    let t = pause_session s in send_message w t (mode_message t.mode (position_of w t.cursor))
handle_command w s resume =
    let t = resume_in s s.resume_mode in
    send_message w t (mode_message t.mode (position_of w t.cursor))
handle_command w s (ping client_time_ms) = send_message w s (pong client_time_ms w.now_ms)
handle_command w s (player state) = (s, true)
