-- ===== src/Ws/Session/Coherent/Commands.antt =====
-- `handle_command` of backend/src/ws/session.rs, and `Coherent`.
use on_air_record.Base.{
  ℕ, arith, Bool, true, false, Option, none, some, ◌∷◌, ◌≡◌, refl, ◌==◌, Bool-cases, inl, inr, ◌∙◌,
  sym, ap,
}
use on_air_record.Base.Int.{ℤ, max_ℤ}
use on_air_record.Services.Playback.{PlaybackCursor, cursor_at}
use on_air_record.Ws.Session.{
  World, StreamSession, StreamMode, live, playing_back, paused, mode_is, speed_is, Outgoing, text,
  deliver, pong, send_message, ClientMessage, go_live, seek_to, pause, resume, play_at, ping,
  player, mode_message, prebuffer_frames, clamp_speed, playback_speeds,
}
use on_air_record.Ws.Session.Commands.{
  back_to_real_time, join_live, after_seek, handle_command, start_playback, pause_session,
  resume_in, apply_speed, set_speed, edge_of, edge_or, PlaybackStep, continues, caught_up,
  exhausted, socket_closed, position_of, resume_after_pause,
}
use on_air_record.Ws.Session.Speeds.{clamp_speed-offered}
use on_air_record.Ws.Session.Coherent.{
  fits, told, told_speed, offered, Paced, Coherent, IfOpen, and_then-IfOpen, deliver-IfOpen,
}
use on_air_record.Ws.Session.Coherent.Steps.{
  Joined, join_live-Joined, back-Joined, tell_live, rejoin-Coherent, Halted, run_out-Coherent,
  Playing, drive_playback-Playing,
}

pub placed-Coherent :
    (w : World) (s : StreamSession) (at_ms : ℤ)
    → fits s.mode s.resume_mode s.live_rx s.cursor ≡ true
    → Paced s
    → IfOpen Coherent (send_message w s (mode_message s.mode at_ms))
unfolding Coherent told told_speed Paced
placed-Coherent w s at_ms f p =
    deliver-IfOpen Coherent w s (text (mode_is s.mode at_ms)) (f, refl, p)

pause-fits :
    (m r : StreamMode) (x : Bool) (c : Option PlaybackCursor)
    → fits m r x c ≡ true
    → fits paused (resume_after_pause m r) false c ≡ true
unfolding fits
pause-fits live live x none e = refl
pause-fits playing_back playing_back false (some c) e = refl
pause-fits paused live false none e = refl
pause-fits paused playing_back false (some c) e = refl
pause-fits _ _ _ _ e = ground (arith, e)

playing-fits :
    (m : StreamMode) (x : Bool) (c : Option PlaybackCursor)
    → fits m playing_back x c ≡ true
    → fits playing_back playing_back x c ≡ true
unfolding fits
playing-fits playing_back false (some c) e = refl
playing-fits paused false (some c) e = refl
playing-fits _ _ _ e = ground (arith, e)

never_paused : (m : StreamMode) (x : Bool) (c : Option PlaybackCursor) → fits m paused x c ≡ false
unfolding fits
never_paused live x c = refl
never_paused playing_back x c = refl
never_paused paused x c = refl

live_fits : fits live live true none ≡ true
unfolding fits
live_fits = refl

resume-fits :
    (s : StreamSession) (r : StreamMode)
    → s.resume_mode ≡ r
    → fits s.mode r s.live_rx s.cursor ≡ true
    → let t = resume_in s r in fits t.mode t.resume_mode t.live_rx t.cursor ≡ true
unfolding resume_in
resume-fits s live e f = rw e (live_fits)
resume-fits s playing_back e f = rw e (playing-fits s.mode s.live_rx s.cursor f)
resume-fits s paused e f = ground (arith, f, never_paused s.mode s.live_rx s.cursor)

resume-Paced : (s : StreamSession) (r : StreamMode) → Paced s → Paced (resume_in s r)
unfolding resume_in Paced
resume-Paced s live p = p
resume-Paced s playing_back p = p
resume-Paced s paused p = p

pub seek-Coherent :
    (w : World) (timestamp_ms : ℤ) (r : StreamSession × (PlaybackCursor × PlaybackStep))
    → Playing r.0
    → IfOpen Coherent (after_seek w timestamp_ms r)
unfolding after_seek IfOpen Playing Paced Coherent fits Halted
seek-Coherent w at_ms (s, (c, continues)) (m, r, x, t, p) =
    λ e. (rw m (rw r (rw x refl)), t ∙ ap some (sym m), p)
seek-Coherent w at_ms (s, (c, socket_closed)) h = λ e. ground (arith, e)
seek-Coherent w at_ms (s, (c, caught_up)) (m, r, x, t, p) =
    rejoin-Coherent w (record s { cursor = some c }) p
seek-Coherent w at_ms (s, (c, exhausted)) (m, r, x, t, p) =
    run_out-Coherent w (max_ℤ at_ms (edge_or w.live_edge_ms at_ms))
      (record s { cursor = some c; mode = paused }) c (refl, r, x, refl, p)

subst_eq : (a b : ℕ) → (a == b) ≡ true → a ≡ b
subst_eq a b e = ground arith

speed-Coherent :
    (w : World) (s : StreamSession) (applied : ℕ)
    → offered applied playback_speeds ≡ true
    → Coherent s
    → IfOpen Coherent (send_message w (apply_speed s applied) (speed_is applied))
unfolding apply_speed Coherent Paced told told_speed
speed-Coherent w s applied o (f, t, (period, same, old)) = elim (Bool-cases (applied == s.speed)) [
  | inl e ↦ rw e (
      deliver-IfOpen Coherent w s (text (speed_is applied))
        (f, t, (period, sym (subst_eq applied s.speed e), old)))
  | inr e ↦ rw e (
      deliver-IfOpen Coherent w (set_speed s applied) (text (speed_is applied))
        (f, t, (refl, refl, o)))
]

started-Playing :
    (w : World) (s : StreamSession) (at_ms : ℤ)
    → Paced s
    → let t = start_playback s in IfOpen Playing (send_message w t (mode_message t.mode at_ms))
unfolding start_playback Playing told told_speed Paced
started-Playing w s at_ms p =
    deliver-IfOpen Playing w (start_playback s) (text (mode_is playing_back at_ms))
      (refl, refl, refl, refl, p)

paused-Coherent :
    (w : World) (s : StreamSession) (at_ms : ℤ)
    → Coherent s
    → let t = pause_session s in IfOpen Coherent (send_message w t (mode_message t.mode at_ms))
unfolding pause_session Coherent Paced
paused-Coherent w s at_ms (f, t, p) =
    placed-Coherent w (pause_session s) at_ms (pause-fits s.mode s.resume_mode s.live_rx s.cursor f)
      p

-- A message that is neither a mode nor a speed.
pub quiet-Coherent :
    (w : World) (s : StreamSession) (message : Outgoing)
    → told (message ∷ s.sent) ≡ told s.sent
    → told_speed (message ∷ s.sent) ≡ told_speed s.sent
    → Coherent s
    → IfOpen Coherent (deliver w s message)
unfolding Coherent Paced
quiet-Coherent w s message m v (f, t, (period, same, old)) =
    deliver-IfOpen Coherent w s message (f, m ∙ t, (period, same ∙ sym v, old))

pub handle_command-Coherent :
    (w : World) (s : StreamSession) (command : ClientMessage)
    → Coherent s
    → IfOpen Coherent (handle_command w s command)
unfolding handle_command Coherent IfOpen told told_speed
handle_command-Coherent w s go_live (f, t, p) =
    and_then-IfOpen Joined Coherent (back_to_real_time w (join_live s)) _
      (back-Joined w (join_live s) (join_live-Joined s p)) (λ u j. tell_live w u (edge_of w) j)
handle_command-Coherent w s (play_at value) h =
    speed-Coherent w s (clamp_speed value) (clamp_speed-offered value) h
handle_command-Coherent w s (seek_to at_ms) (f, t, p) =
    let u = start_playback s in
    and_then-IfOpen Playing Coherent _ _ (started-Playing w s at_ms p) (λ v k.
      seek-Coherent w at_ms _
        (drive_playback-Playing w prebuffer_frames v (cursor_at at_ms v.frame_ms) k))
handle_command-Coherent w s pause h =
    let u = pause_session s in paused-Coherent w s (position_of w u.cursor) h
handle_command-Coherent w s resume (f, t, p) =
    let u = resume_in s s.resume_mode in
    placed-Coherent w u (position_of w u.cursor) (resume-fits s s.resume_mode refl f)
      (resume-Paced s s.resume_mode p)
handle_command-Coherent w s (ping client_time_ms) h =
    quiet-Coherent w s (text (pong client_time_ms w.now_ms)) refl refl h
handle_command-Coherent w s (player state) h = λ e. h
