-- ===== src/Ws/Session.antt =====
-- backend/src/ws/session.rs and messages.rs: one listener's stream. `World` is what the rest of the
-- program answers during one event; a session is the variables of `run`, with what it sent, newest
-- first. Speeds are in hundredths, and a request is a whole number of the smallest f32.
pub mod Commands
pub mod Loop
pub mod Coherent
pub mod Speeds
use Prim.Native.String.{String}
use on_air_record.Base.{
  ℕ, zero, suc, ◌+◌, ◌-◌, ◌*◌, ◌/◌, ◌%◌, ◌^◌, ◌==◌, max, Bool, true, false, Option, none, some,
  List, [], ◌∷◌, length, leb, ltb, map, if◌then◌else◌,
}
use on_air_record.Base.Int.{ℤ, pos, ◌-ℤ◌, abs_ℤ}
use on_air_record.Models.AudioFrame.{AudioFrame}
use on_air_record.Models.Activity.{Role}
use on_air_record.Models.Activity.Tally.{PlayerState, ListeningTally}
use on_air_record.Models.Access.{AuthMode, User}
use on_air_record.Services.Listeners.{
  ListenerAccount, ListenerActivity, following, playback, halted, ListenerEntry, Call,
}
use on_air_record.Services.Playback.{Library, Answer, PlaybackCursor}
use on_air_record.Ws.Protocol.{FrameEncoder, encode_audio_frame}

pub data StreamMode : Type 0 where
  live playing_back paused : StreamMode  -- Live, Playback, Paused

pub record ListenerView : Type 0 where
  pub id : ℕ
  pub email : Option String
  pub role : Option Role
  pub address : ℕ
  pub user_agent : Option String
  pub connected_at_ms : ℤ
  pub activity : StreamMode
  pub from_ms : Option ℤ
  pub player : PlayerState

abbrev pub listed_mode : ListenerActivity → StreamMode
listed_mode following = live
listed_mode (playback from_ms) = playing_back
listed_mode halted = paused

abbrev pub listed_from : ListenerActivity → Option ℤ
listed_from following = none
listed_from (playback from_ms) = some from_ms
listed_from halted = none

abbrev pub listed_email : Option ListenerAccount → Option String
listed_email none = none
listed_email (some account) = some account.email

abbrev pub listed_role : Option ListenerAccount → Option Role
listed_role none = none
listed_role (some account) = some account.role

abbrev pub view_of : ListenerEntry → ListenerView
view_of entry = record {
  id = entry.id;
  email = listed_email entry.account;
  role = listed_role entry.account;
  address = entry.address;
  user_agent = entry.user_agent;
  connected_at_ms = entry.connected_at_ms;
  activity = listed_mode entry.activity;
  from_ms = listed_from entry.activity;
  player = entry.player;
}

-- The two level readings are f32 and are left out.
pub data ServerMessage : Type 0 where
  stream_information :
      (sample_rate channels frame_ms : ℕ)
      → StreamMode
      → (server_time_ms : ℤ) → (live_edge_ms earliest_ms : Option ℤ) → (capturing : Bool)
      → ServerMessage
  mode_is : StreamMode → ℤ → ServerMessage
  switched_to_live : ℤ → ServerMessage
  gap : ℤ → ℤ → ServerMessage
  end_of_recording : ℤ → ServerMessage
  level : ServerMessage
  speed_is : ℕ → ServerMessage
  pong : ℤ → ℤ → ServerMessage
  error : String → String → ServerMessage
  listeners : List ListenerView → ServerMessage
  listeners_hidden : ServerMessage

-- A finite f32 is a whole number of the smallest ones, 2 ^ -149.
pub data Requested : Type 0 where
  finite : ℤ → Requested
  not_finite : Requested

pub data ClientMessage : Type 0 where
  go_live : ClientMessage
  seek_to : ℤ → ClientMessage
  pause resume : ClientMessage
  play_at : Requested → ClientMessage
  ping : ℤ → ClientMessage
  player : PlayerState → ClientMessage

-- What `deliver` writes to the socket.
pub data Outgoing : Type 0 where
  binary : List ℕ → Outgoing
  text : ServerMessage → Outgoing
  ping_frame close_frame : Outgoing

-- `delivers n` says whether the n-th write goes through in time. One reading of the clocks serves a
-- whole event.
pub record World : Type 0 where
  pub library : Library
  pub encoder : FrameEncoder
  pub delivers : ℕ → Bool
  pub capturing : Bool
  pub sample_rate : ℕ  -- u32, of the snapshot
  pub channels : ℕ  -- u16, of the snapshot
  pub snapshot_frame_ms : ℕ
  pub configured_frame_ms : ℕ
  pub live_edge_ms : Option ℤ
  pub earliest_ms : Option ℤ
  pub now_ms : ℤ
  pub instant_ms : ℕ
  pub auth_mode : Answer AuthMode
  pub signed_in : Answer (Option User)
  pub connected : List ListenerEntry

pub record StreamSession : Type 0 where
  pub mode : StreamMode
  pub resume_mode : StreamMode
  pub live_rx : Bool  -- whether it holds a subscription
  pub cursor : Option PlaybackCursor
  pub frame_ms : ℕ
  pub speed : ℕ
  pub period_ms : ℕ  -- of the ticker
  pub reported : ListenerActivity
  pub repositioned : Bool
  pub may_watch : Bool
  pub last_heard : ℕ
  pub tally : ListeningTally
  pub id : ℕ
  pub calls : List Call  -- of the registry
  pub sent : List Outgoing

abbrev pub playback_speeds : List ℕ
playback_speeds = 25 ∷ 50 ∷ 100 ∷ 150 ∷ 200 ∷ 400 ∷ []

abbrev pub prebuffer_frames : ℕ
prebuffer_frames = 3

abbrev pub min_tick_ms : ℕ
min_tick_ms = 5

abbrev pub idle_timeout_ms : ℕ
idle_timeout_ms = 45000

unfoldable pub is_silent : ℕ → ℕ → Bool
is_silent last_heard now = leb (last_heard + idle_timeout_ms) now

-- A speed of so many hundredths as an f32, for the multiples of a quarter.
abbrev pub f32_of : ℕ → ℕ
f32_of speed = speed / 25 * 2 ^ 147

-- The step between the f32s at `n`: doubled until 24 bits hold `n`.
unfoldable pub step_of : ℕ → ℕ → ℕ → ℕ
step_of zero n step = step
step_of (suc fuel) n step =
    let wider = step_of fuel n (2 * step) in if ltb n (16777216 * step) then step else wider

-- The nearer of the multiples of a step around `n`, and halfway the even one.
unfoldable pub round_to : ℕ → ℕ → ℕ
round_to n step =
    let low = n / step * step in
    let rest = 2 * (n - low) in
    if ltb rest step
    then low
    else if ltb step rest
    then low + step
    else if n / step % 2 == 0
    then low
    else low + step

-- What f32 arithmetic makes of an exact result.
unfoldable pub round_f32 : ℕ → ℕ
unfolding step_of round_to
round_f32 n = round_to n (step_of 300 n 1)

-- `(speed - value).abs()`.
unfoldable pub distance : ℤ → ℕ → ℕ
unfolding round_f32
distance value speed = round_f32 (abs_ℤ (pos (f32_of speed) -ℤ value))

-- `min_by` keeps the first of several.
unfoldable pub nearest : ℤ → ℕ → List ℕ → ℕ
unfolding distance
nearest value best [] = best
nearest value best (speed ∷ speeds) =
    nearest value (if leb (distance value best) (distance value speed) then best else speed) speeds

unfoldable pub clamp_speed : Requested → ℕ
unfolding nearest
clamp_speed not_finite = 100
clamp_speed (finite value) = nearest value 25 (50 ∷ 100 ∷ 150 ∷ 200 ∷ 400 ∷ [])

-- Rounded to the nearest millisecond, halves up.
unfoldable pub tick_period : ℕ → ℕ → ℕ
tick_period frame_ms speed =
    let divisor = max speed 5 in
    max (max ((2 * (frame_ms * 100) + divisor) / (2 * divisor)) 1) min_tick_ms

unfoldable pub effective_frame_ms : World → ℕ
effective_frame_ms w =
    if ltb 0 w.snapshot_frame_ms then w.snapshot_frame_ms else w.configured_frame_ms

unfoldable pub stream_info : World → StreamMode → ServerMessage
unfolding effective_frame_ms
stream_info w mode =
    stream_information (if ltb 0 w.sample_rate then w.sample_rate else 48000) (max w.channels 1)
      (effective_frame_ms w) mode w.now_ms w.live_edge_ms w.earliest_ms w.capturing

abbrev pub mode_message : StreamMode → ℤ → ServerMessage
mode_message = mode_is

abbrev pub listeners_message : World → ServerMessage
listeners_message w = listeners (map view_of w.connected)

-- True while the socket holds.
unfoldable pub deliver : World → StreamSession → Outgoing → StreamSession × Bool
deliver w s message = (record s { sent = message ∷ s.sent }, w.delivers (length s.sent))

abbrev pub send_message : World → StreamSession → ServerMessage → StreamSession × Bool
send_message w s message = deliver w s (text message)

abbrev pub send_audio : World → StreamSession → AudioFrame → StreamSession × Bool
send_audio w s frame = deliver w s (binary (encode_audio_frame frame w.encoder))

-- The rest, unless the socket is finished.
unfoldable pub and_then :
    StreamSession × Bool → (StreamSession → StreamSession × Bool) → StreamSession × Bool
and_then (s, false) rest = (s, false)
and_then (s, true) rest = rest s
