-- ===== src/Models/Session.antt =====
-- backend/src/models/session.rs and capture_state.rs: a recording session, and the capture engine as
-- seen from outside.
use Prim.Native.String.{String}
use on_air_record.Base.{ℕ, Bool, true, false, Option, none}
use on_air_record.Base.Int.{ℤ}

pub record RecordingSession : Type 0 where
  pub id : ℕ
  pub device_id : String
  pub device_name : String
  pub sample_rate : ℕ
  pub channels : ℕ
  pub started_at_ms : ℤ
  pub ended_at_ms : Option ℤ

pub record SessionDraft : Type 0 where
  pub device_id : String
  pub device_name : String
  pub sample_rate : ℕ
  pub channels : ℕ
  pub started_at_ms : ℤ

pub data CaptureState : Type 0 where
  idle starting recording failed : CaptureState  -- the last is Error

unfoldable pub is_active : CaptureState → Bool
is_active idle = false
is_active starting = true
is_active recording = true
is_active failed = false

pub record CaptureSnapshot : Type 0 where
  pub state : CaptureState
  pub session_id : Option ℕ
  pub device_id : Option String
  pub device_name : Option String
  pub sample_rate : ℕ
  pub device_sample_rate : ℕ
  pub channels : ℕ
  pub frame_ms : ℕ
  pub started_at_ms : Option ℤ
  pub dropped_frames : ℕ  -- u64
  pub error : Option String

abbrev pub default_snapshot : CaptureSnapshot
default_snapshot = record {
  state = idle;
  session_id = none;
  device_id = none;
  device_name = none;
  sample_rate = 0;
  device_sample_rate = 0;
  channels = 0;
  frame_ms = 0;
  started_at_ms = none;
  dropped_frames = 0;
  error = none;
}
