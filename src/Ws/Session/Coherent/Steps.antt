-- ===== src/Ws/Session/Coherent/Steps.antt =====
-- The driving of playback and the way back to the live feed in backend/src/ws/session.rs, and `Coherent`.
use on_air_record.Base.{
  ℕ, zero, suc, false, none, some, ◌≡◌, refl, ◌==◌, Bool-cases, inl, inr, length,
}
use on_air_record.Base.Int.{ℤ}
use on_air_record.Services.Playback.{
  PlaybackCursor, Answer, ok, error, CursorOutput, advance, cursor_at,
}
use on_air_record.Services.Playback
use on_air_record.Ws.Session.{
  World, StreamSession, live, playing_back, paused, mode_is, speed_is, text, deliver,
  switched_to_live, end_of_recording, send_message, mode_message,
}
use on_air_record.Ws.Session.Commands.{
  back_to_real_time, join_live, rejoin, run_out, drive_playback, after_output, set_speed, edge_of,
  PlaybackStep,
}
use on_air_record.Ws.Session.Coherent.{
  fits, told, told_speed, offered, Paced, Coherent, IfOpen, and_then-IfOpen, if-IfOpen,
  deliver-IfOpen,
}

-- On the live feed, the client not told yet.
unfoldable pub Joined : StreamSession → Type 0
Joined s = (s.mode ≡ live) × (s.resume_mode ≡ live) × (s.cursor ≡ none) × Paced s

pub join_live-Joined : (s : StreamSession) → Paced s → Joined (join_live s)
unfolding Joined join_live Paced
join_live-Joined s h = (refl, refl, refl, h)

pub tell_live :
    (w : World) (s : StreamSession) (at_ms : ℤ)
    → Joined s
    → IfOpen Coherent (send_message w s (mode_message s.mode at_ms))
unfolding Joined Coherent told told_speed fits Paced
tell_live w s at_ms (m, r, c, p) =
    deliver-IfOpen Coherent w s (text (mode_is s.mode at_ms)) (rw m (rw r (rw c refl)), refl, p)

pub back-Joined : (w : World) (s : StreamSession) → Joined s → IfOpen Joined (back_to_real_time w s)
unfolding back_to_real_time Joined Paced told_speed IfOpen offered
back-Joined w s (m, r, c, p) =
    if-IfOpen Joined (s.speed == 100) _ _ (λ e same. (m, r, c, p))
      (λ e.
        deliver-IfOpen Joined w (set_speed s 100) (text (speed_is 100))
          (m, r, c, (refl, refl, refl)))

switched-Joined :
    (w : World) (s : StreamSession)
    → Joined s
    → IfOpen Joined (send_message w s (switched_to_live (edge_of w)))
unfolding Joined Paced told_speed
switched-Joined w s h = deliver-IfOpen Joined w s (text (switched_to_live (edge_of w))) h

pub rejoin-Coherent : (w : World) (s : StreamSession) → Paced s → IfOpen Coherent (rejoin w s)
unfolding rejoin
rejoin-Coherent w s h =
    and_then-IfOpen Joined Coherent (back_to_real_time w (join_live s)) _
      (back-Joined w (join_live s) (join_live-Joined s h))
      (λ t j.
        and_then-IfOpen Joined Coherent _ _ (switched-Joined w t j)
          (λ u k. tell_live w u (edge_of w) k))

-- Paused at a position, the client not told yet.
unfoldable pub Halted : StreamSession → PlaybackCursor → Type 0
Halted s c =
    (s.mode ≡ paused)
    × (s.resume_mode ≡ playing_back)
    × (s.live_rx ≡ false)
    × (s.cursor ≡ some c)
    × Paced s

ended-Halted :
    (w : World) (at_ms : ℤ) (s : StreamSession) (c : PlaybackCursor)
    → Halted s c
    → IfOpen (λ t. Halted t c) (send_message w s (end_of_recording at_ms))
unfolding Halted Paced told_speed
ended-Halted w at_ms s c h = deliver-IfOpen (λ t. Halted t c) w s (text (end_of_recording at_ms)) h

tell_paused :
    (w : World) (at_ms : ℤ) (s : StreamSession) (c : PlaybackCursor)
    → Halted s c
    → IfOpen Coherent (send_message w s (mode_message s.mode at_ms))
unfolding Halted Coherent told told_speed fits Paced
tell_paused w at_ms s c (m, r, x, k, p) =
    deliver-IfOpen Coherent w s (text (mode_is s.mode at_ms))
      (rw m (rw r (rw x (rw k refl))), refl, p)

pub run_out-Coherent :
    (w : World) (at_ms : ℤ) (s : StreamSession) (c : PlaybackCursor)
    → Halted s c
    → IfOpen Coherent (run_out w at_ms s)
unfolding run_out
run_out-Coherent w at_ms s c h =
    and_then-IfOpen (λ t. Halted t c) Coherent _ _ (ended-Halted w at_ms s c h)
      (λ t k. tell_paused w at_ms t c k)

-- Playing a recording, whatever the cursor.
unfoldable pub Playing : StreamSession → Type 0
Playing s =
    (s.mode ≡ playing_back)
    × (s.resume_mode ≡ playing_back)
    × (s.live_rx ≡ false)
    × (told s.sent ≡ some playing_back)
    × Paced s

after_output-Playing :
    (w : World)
    (rest : StreamSession → PlaybackCursor → StreamSession × (PlaybackCursor × PlaybackStep))
    (s : StreamSession) (c : PlaybackCursor) (output : Answer CursorOutput)
    → ((t : StreamSession) (e : PlaybackCursor) → Playing t → Playing (rest t e).0)
    → Playing s
    → Playing (after_output w rest s c output).0
unfolding after_output Playing told told_speed Paced deliver
after_output-Playing w rest s c (error message) later h = h
after_output-Playing w rest s c (ok (Playback.frame f)) later h =
    elim (Bool-cases (w.delivers (length s.sent))) [ inl e ↦ rw e (later _ c h) | inr e ↦ rw e h ]
after_output-Playing w rest s c (ok (Playback.gap from_ms to_ms)) later h =
    elim (Bool-cases (w.delivers (length s.sent))) [ inl e ↦ rw e (later _ c h) | inr e ↦ rw e h ]
after_output-Playing w rest s c (ok (Playback.end_of_recording at_ms)) later h = h

pub drive_playback-Playing :
    (w : World) (steps : ℕ) (s : StreamSession) (c : PlaybackCursor)
    → Playing s
    → Playing (drive_playback w steps s c).0
unfolding drive_playback
drive_playback-Playing w zero s c h = h
drive_playback-Playing w (suc steps) s c h =
    let (d, output) = advance w.library c in
    after_output-Playing w (λ t e. drive_playback w steps t e) s d output
      (λ t e k. drive_playback-Playing w steps t e k) h
