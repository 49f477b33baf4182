-- ===== src/Ws/Session/Coherent/Run.antt =====
-- The turns of the loop of `run` in backend/src/ws/session.rs, and `Coherent`.
use on_air_record.Base.{
  ℕ, arith, List, Bool, true, false, Option, none, some, ◌≡◌, refl, Bool-cases, inl, inr, not, ◌&&◌,
  ◌||◌, ◌∙◌, sym, ap, subst,
}
use on_air_record.Services.Listeners.{ListenerActivity, following, playback, halted}
use on_air_record.Services.Playback.{PlaybackCursor, ok, error}
use on_air_record.Ws.Session.{
  World, StreamSession, StreamMode, live, playing_back, paused, text, binary, ping_frame, level,
  listeners_hidden, listeners_message, stream_info, ClientMessage, seek_to, player, go_live, pause,
  resume, play_at, ping, and_then, deliver, send_message, is_silent,
}
use on_air_record.Ws.Session.Commands.{
  PlaybackStep, continues, caught_up, exhausted, socket_closed, drive_playback,
}
use on_air_record.Ws.Session.Loop.{
  Event, incoming, gone, live_frame, live_closed, live_lagged, tick, access_check, presence,
  input_level, Incoming, said, goodbye, other, report, report_as, activity_of, same_kind, enabled,
  handle, hand_over_list, check_access, take_command, take_incoming, after_tick, tick_with, opening,
  greet, Reached, opened, turned, is_playback, is_live, still_allowed, may_watch_listeners,
}
use on_air_record.Ws.Session.Coherent.{
  fits, told, told_speed, offered, Paced, Coherent, IfOpen, and_then-IfOpen, if-IfOpen,
  deliver-IfOpen,
}
use on_air_record.Ws.Session.Coherent.Steps.{
  rejoin-Coherent, Halted, run_out-Coherent, Playing, drive_playback-Playing,
}
use on_air_record.Ws.Session.Coherent.Commands.{handle_command-Coherent, quiet-Coherent}

report_as-Coherent :
    (s : StreamSession) (a : ListenerActivity) → Coherent s → Coherent (report_as s a)
unfolding report_as Coherent Paced
report_as-Coherent s following h = h
report_as-Coherent s (playback from_ms) h = h
report_as-Coherent s halted h = h

pub report-Coherent : (s : StreamSession) → Coherent s → Coherent (report s)
unfolding report
report-Coherent s h =
    elim (Bool-cases (not (same_kind (activity_of s.mode s.cursor) s.reported) || s.repositioned)) [
      | inl e ↦ rw e (report_as-Coherent s (activity_of s.mode s.cursor) h)
      | inr e ↦ rw e h
    ]

hand_over_list-Coherent :
    (w : World) (s : StreamSession) (b : Bool) → Coherent s → IfOpen Coherent (hand_over_list w s b)
unfolding hand_over_list IfOpen told told_speed Coherent Paced
hand_over_list-Coherent w s true h =
    if-IfOpen Coherent s.may_watch _ _ (λ e same. h)
      (λ e.
        quiet-Coherent w (record s { may_watch = true }) (text (listeners_message w)) refl refl h)
hand_over_list-Coherent w s false h =
    if-IfOpen Coherent s.may_watch _ _
      (λ e. quiet-Coherent w (record s { may_watch = false }) (text listeners_hidden) refl refl h)
      (λ e same. h)

check_access-Coherent :
    (w : World) (s : StreamSession) → Coherent s → IfOpen Coherent (check_access w s)
unfolding check_access IfOpen told told_speed
check_access-Coherent w s h =
    if-IfOpen Coherent (still_allowed w.auth_mode w.signed_in) _ _
      (λ a.
        if-IfOpen Coherent (is_silent s.last_heard w.instant_ms) _ _ (λ e same. h)
          (λ e.
            and_then-IfOpen Coherent Coherent _ _ (quiet-Coherent w s ping_frame refl refl h)
              (λ t k. hand_over_list-Coherent w t (may_watch_listeners w.auth_mode w.signed_in) k)))
      (λ a e. ground (arith, e))

take_command-Coherent :
    (w : World) (s : StreamSession) (command : ClientMessage)
    → Coherent s
    → IfOpen Coherent (take_command w s command)
unfolding take_command IfOpen Coherent Paced
take_command-Coherent w s (player state) h = λ e. h
take_command-Coherent w s (seek_to at_ms) h =
    handle_command-Coherent w (record s { repositioned = true }) (seek_to at_ms) h
take_command-Coherent w s go_live h = handle_command-Coherent w s go_live h
take_command-Coherent w s pause h = handle_command-Coherent w s pause h
take_command-Coherent w s resume h = handle_command-Coherent w s resume h
take_command-Coherent w s (play_at value) h = handle_command-Coherent w s (play_at value) h
take_command-Coherent w s (ping at_ms) h = handle_command-Coherent w s (ping at_ms) h

take_incoming-Coherent :
    (w : World) (s : StreamSession) (message : Incoming)
    → Coherent s
    → IfOpen Coherent (take_incoming w s message)
unfolding take_incoming IfOpen told told_speed
take_incoming-Coherent w s goodbye h = λ e. h
take_incoming-Coherent w s other h = λ e. h
take_incoming-Coherent w s (said (ok command)) h = take_command-Coherent w s command h
take_incoming-Coherent w s (said (error message)) h = quiet-Coherent w s _ refl refl h

after_tick-Coherent :
    (w : World) (r : StreamSession × (PlaybackCursor × PlaybackStep))
    → Playing r.0
    → IfOpen Coherent (after_tick w r)
unfolding after_tick IfOpen Playing Paced Coherent fits Halted
after_tick-Coherent w (s, (c, continues)) (m, r, x, t, p) =
    λ e. (rw m (rw r (rw x refl)), t ∙ ap some (sym m), p)
after_tick-Coherent w (s, (c, socket_closed)) h = λ e. ground (arith, e)
after_tick-Coherent w (s, (c, caught_up)) (m, r, x, t, p) =
    rejoin-Coherent w (record s { cursor = some c }) p
after_tick-Coherent w (s, (c, exhausted)) (m, r, x, t, p) =
    run_out-Coherent w c.position_ms
      (record s { cursor = some c; mode = paused; resume_mode = playing_back }) c
      (refl, refl, x, refl, p)

-- A session that plays a recording has a position, will return to it, and has no subscription.
pub playing_parts :
    (m r : StreamMode) (x : Bool) (c : Option PlaybackCursor)
    → is_playback m ≡ true
    → fits m r x c ≡ true
    → (m ≡ playing_back) × (r ≡ playing_back) × (x ≡ false) × ((d : PlaybackCursor) × (c ≡ some d))
unfolding fits
playing_parts playing_back playing_back false (some d) p f = (refl, refl, refl, (d, refl))
playing_parts _ _ _ _ p f = ground (arith, p, f)

closed-fits :
    (m r : StreamMode) (x : Bool) (c : Option PlaybackCursor)
    → is_live m ≡ true
    → fits m r x c ≡ true
    → fits m r false c ≡ true
unfolding fits
closed-fits live live x none p f = refl
closed-fits _ _ _ _ p f = ground (arith, p, f)

tick-Coherent :
    (w : World) (s : StreamSession)
    → is_playback s.mode ≡ true
    → Coherent s
    → IfOpen Coherent (tick_with w s s.cursor)
unfolding tick_with Coherent Playing
tick-Coherent w s p (f, t, paced) =
    let (m, r, x, (c, has)) = playing_parts s.mode s.resume_mode s.live_rx s.cursor p f in
    subst (λ o. IfOpen Coherent (tick_with w s o)) (sym has)
      (after_tick-Coherent w (drive_playback w 1 s c)
        (drive_playback-Playing w 1 s c (m, r, x, t ∙ ap some m, paced)))

left_of : (a b : Bool) → a && b ≡ true → a ≡ true
left_of true b e = refl
left_of false b e = e

closed-Coherent :
    (w : World) (s : StreamSession)
    → is_live s.mode ≡ true
    → Coherent s
    → let t = record s { live_rx = false } in
      IfOpen Coherent (send_message w t (stream_info w t.mode))
unfolding stream_info Coherent told told_speed Paced
closed-Coherent w s p (f, t, paced) =
    let u = record s { live_rx = false } in
    deliver-IfOpen Coherent w u (text (stream_info w u.mode))
      (closed-fits s.mode s.resume_mode s.live_rx s.cursor p f, refl, paced)

frame-Coherent :
    (w : World) (s : StreamSession) (bytes : List ℕ)
    → Coherent s
    → IfOpen Coherent (and_then (deliver w s (binary bytes)) (λ t. send_message w t level))
unfolding told told_speed
frame-Coherent w s bytes h =
    and_then-IfOpen Coherent Coherent _ _ (quiet-Coherent w s (binary bytes) refl refl h)
      (λ t k. quiet-Coherent w t (text level) refl refl k)

pub handle-Coherent :
    (w : World) (s : StreamSession) (event : Event)
    → enabled w s event ≡ true
    → Coherent s
    → IfOpen Coherent (handle w s event)
unfolding handle enabled IfOpen told told_speed Coherent Paced
handle-Coherent w s access_check e h = check_access-Coherent w s h
handle-Coherent w s input_level e h = quiet-Coherent w s (text level) refl refl h
handle-Coherent w s presence e h = quiet-Coherent w s (text (listeners_message w)) refl refl h
handle-Coherent w s gone e h = λ o. ground (arith, o)
handle-Coherent w s (incoming message) e h =
    take_incoming-Coherent w (record s { last_heard = w.instant_ms }) message h
handle-Coherent w s live_closed e h = closed-Coherent w s (left_of (is_live s.mode) s.live_rx e) h
handle-Coherent w s (live_lagged missed) e h = λ o. h
handle-Coherent w s (live_frame frame) e h = frame-Coherent w s _ h
handle-Coherent w s tick e h = tick-Coherent w s e h

holds : (r : StreamSession × Bool) → IfOpen Coherent r → r.1 ≡ true → Coherent r.0
unfolding IfOpen
holds (s, b) h e = h e

informed-Coherent :
    (w : World) (id : ℕ)
    → let s = opening w id in IfOpen Coherent (send_message w s (stream_info w s.mode))
unfolding Coherent Paced told told_speed stream_info offered fits
informed-Coherent w id =
    let s = opening w id in
    deliver-IfOpen Coherent w s (text (stream_info w s.mode)) (refl, refl, (refl, refl, refl))

same-Coherent : (s : StreamSession) → Coherent s → IfOpen Coherent (s, true)
unfolding IfOpen
same-Coherent s h = λ e. h

listed-Coherent :
    (w : World) (s : StreamSession)
    → Coherent s
    → IfOpen Coherent (send_message w s (listeners_message w))
unfolding told told_speed
listed-Coherent w s h = quiet-Coherent w s (text (listeners_message w)) refl refl h

greet-Coherent : (w : World) (id : ℕ) → IfOpen Coherent (greet w (opening w id))
unfolding greet
greet-Coherent w id = and_then-IfOpen Coherent Coherent _ _ (informed-Coherent w id) (λ t k.
    if-IfOpen Coherent t.may_watch _ _ (λ e. listed-Coherent w t k) (λ e. same-Coherent t k))

-- In every state to which the loop comes, the client was last told the mode and the speed that are in
-- force; the pace is that of an offered speed; and live goes without a cursor, a recording with a
-- cursor and without a subscription, a pause with neither sound and with what resuming needs.
pub Reached-Coherent : (s : StreamSession) → Reached s → Coherent s
Reached-Coherent s (opened w id e) = holds _ (greet-Coherent w id) e
Reached-Coherent s (turned w t event r enabled e) =
    holds _ (handle-Coherent w (report t) event enabled (report-Coherent t (Reached-Coherent t r)))
      e
