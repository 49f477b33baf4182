-- ===== src/Ws/Session/Coherent.antt =====
-- The variables of a session against each other and against what the client was told, for `run` of
-- backend/src/ws/session.rs.
pub mod Steps
pub mod Commands
pub mod Run
pub mod Heard
pub mod Listed
use on_air_record.Base.{
  ℕ, arith, Bool, true, false, Option, none, some, List, [], ◌∷◌, ◌≡◌, refl, ◌==◌, ◌||◌, Bool-cases,
  inl, inr, if◌then◌else◌,
}
use on_air_record.Services.Playback.{PlaybackCursor}
use on_air_record.Ws.Session.{
  World, StreamSession, StreamMode, live, playing_back, paused, ServerMessage, stream_information,
  mode_is, speed_is, Outgoing, text, tick_period, and_then, playback_speeds, deliver,
}

-- Live without a cursor; playing a recording with one and no subscription; paused with neither sound,
-- to return to the live feed or to a position.
unfoldable pub fits : StreamMode → StreamMode → Bool → Option PlaybackCursor → Bool
fits live live live_rx none = true
fits playing_back playing_back false (some c) = true
fits paused live false none = true
fits paused playing_back false (some c) = true
fits _ _ _ _ = false

abbrev pub told_by : ServerMessage → Option StreamMode → Option StreamMode
told_by (mode_is mode at_ms) before = some mode
told_by (stream_information rate channels frame_ms mode now edge earliest capturing) before =
    some mode
told_by _ before = before

-- The mode the client was told last.
unfoldable pub told : List Outgoing → Option StreamMode
told [] = none
told (text message ∷ sent) = told_by message (told sent)
told (_ ∷ sent) = told sent

abbrev pub speed_by : ServerMessage → ℕ → ℕ
speed_by (speed_is speed) before = speed
speed_by _ before = before

-- The speed the client was told last; it starts at real time.
unfoldable pub told_speed : List Outgoing → ℕ
told_speed [] = 100
told_speed (text message ∷ sent) = speed_by message (told_speed sent)
told_speed (_ ∷ sent) = told_speed sent

unfoldable pub offered : ℕ → List ℕ → Bool
offered speed [] = false
offered speed (other ∷ speeds) = speed == other || offered speed speeds

-- The pace is that of an offered speed, the one the client knows of.
unfoldable pub Paced : StreamSession → Type 0
Paced s =
    (s.period_ms ≡ tick_period s.frame_ms s.speed)
    × (s.speed ≡ told_speed s.sent)
    × (offered s.speed playback_speeds ≡ true)

unfoldable pub Coherent : StreamSession → Type 0
Coherent s =
    (fits s.mode s.resume_mode s.live_rx s.cursor ≡ true) × (told s.sent ≡ some s.mode) × Paced s

-- If the socket holds.
unfoldable pub IfOpen : (StreamSession → Type 0) → StreamSession × Bool → Type 0
IfOpen P (s, holds) = holds ≡ true → P s

pub and_then-IfOpen :
    (P Q : StreamSession → Type 0) (r : StreamSession × Bool)
    (rest : StreamSession → StreamSession × Bool)
    → IfOpen P r
    → ((s : StreamSession) → P s → IfOpen Q (rest s))
    → IfOpen Q (and_then r rest)
unfolding IfOpen and_then
and_then-IfOpen P Q (s, true) rest first later = later s (first refl)
and_then-IfOpen P Q (s, false) rest first later = λ e. ground (arith, e)

pub if-IfOpen :
    (P : StreamSession → Type 0) (b : Bool) (r t : StreamSession × Bool)
    → (b ≡ true → IfOpen P r)
    → (b ≡ false → IfOpen P t)
    → IfOpen P (if b then r else t)
if-IfOpen P true r t first second = first refl
if-IfOpen P false r t first second = second refl

pub deliver-IfOpen :
    (P : StreamSession → Type 0) (w : World) (s : StreamSession) (message : Outgoing)
    → P (record s { sent = message ∷ s.sent })
    → IfOpen P (deliver w s message)
unfolding IfOpen deliver
deliver-IfOpen P w s message h = λ e. h
