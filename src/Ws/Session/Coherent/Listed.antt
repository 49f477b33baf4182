-- ===== src/Ws/Session/Coherent/Listed.antt =====
-- The report at the top of the loop of `run` in backend/src/ws/session.rs, and the mode it stands for.
use on_air_record.Base.{
  arith, Bool, true, false, Option, none, some, ◌≡◌, refl, Bool-cases, inl, inr, not, ◌||◌, ◌∙◌,
  sym, ap,
}
use on_air_record.Services.Listeners.{ListenerActivity, following, playback, halted}
use on_air_record.Services.Playback.{PlaybackCursor}
use on_air_record.Ws.Session.{StreamSession, StreamMode, live, playing_back, paused, listed_mode}
use on_air_record.Ws.Session.Loop.{report, report_as, activity_of, same_kind, Reached}
use on_air_record.Ws.Session.Coherent.{fits, Coherent}
use on_air_record.Ws.Session.Coherent.Heard.{last_told, Told, report-Told, Reached-Told}
use on_air_record.Ws.Session.Coherent.Run.{Reached-Coherent}

activity_of-mode :
    (m r : StreamMode) (x : Bool) (c : Option PlaybackCursor)
    → fits m r x c ≡ true
    → listed_mode (activity_of m c) ≡ m
unfolding fits activity_of
activity_of-mode live live x none e = refl
activity_of-mode playing_back playing_back false (some c) e = refl
activity_of-mode paused live false none e = refl
activity_of-mode paused playing_back false (some c) e = refl
activity_of-mode _ _ _ _ e = ground (arith, e)

same_kind-mode : (a b : ListenerActivity) → same_kind a b ≡ true → listed_mode b ≡ listed_mode a
unfolding same_kind
same_kind-mode following following e = refl
same_kind-mode (playback s) (playback t) e = refl
same_kind-mode halted halted e = refl
same_kind-mode _ _ e = ground (arith, e)

report_as-parts :
    (s : StreamSession) (a : ListenerActivity)
    → ((report_as s a).reported ≡ a) × ((report_as s a).mode ≡ s.mode)
unfolding report_as
report_as-parts s following = (refl, refl)
report_as-parts s (playback from_ms) = (refl, refl)
report_as-parts s halted = (refl, refl)

or_parts : (a b : Bool) → not a || b ≡ false → a ≡ true
or_parts true b e = refl
or_parts false b e = ground (arith, e)

reported-mode : (s : StreamSession) → Reached s → listed_mode (report s).reported ≡ (report s).mode
unfolding report Coherent
reported-mode s r =
    let a = activity_of s.mode s.cursor in
    let mode = activity_of-mode s.mode s.resume_mode s.live_rx s.cursor (Reached-Coherent s r).0 in
    elim (Bool-cases (not (same_kind a s.reported) || s.repositioned)) [
      | inl e ↦
          let (reported, kept) = report_as-parts s a in
          rw e (ap listed_mode reported ∙ mode ∙ sym kept)
      | inr e ↦
          rw e (
            same_kind-mode a s.reported (or_parts (same_kind a s.reported) s.repositioned e) ∙ mode)
    ]

-- When the loop waits for an event, the activity that the session's last call gave the registry for its own
-- entry (following the live feed, as a new entry does, before any) is one of the kind that the listener
-- list shows for the session's mode.
pub report-listed :
    (s : StreamSession)
    → Reached s
    → listed_mode (last_told (report s).id (report s).calls) ≡ (report s).mode
unfolding Told
report-listed s r = ap listed_mode (report-Told s (Reached-Told s r)) ∙ reported-mode s r
