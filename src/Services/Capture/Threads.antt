-- ===== src/Services/Capture/Threads.antt =====
-- The threads that the capture service owns, by number: audio/capture.rs `CaptureHandle` and
-- services/recorder_service.rs `RecorderHandle`, as far as starting and stopping them goes. A recorder has the
-- number of the stream that feeds it. Stopping one waits for its thread, and the recorder's thread
-- ends only once no frame comes in, so a stop while its stream runs is kept in `blocked`.
use Prim.Native.String.{String}
use on_air_record.Base.{
  ℕ, ◌+◌, Bool, true, false, not, ◌||◌, Option, List, [], ◌∷◌, ◌==◌, if◌then◌else◌,
}
use on_air_record.Base.Filter.{filter}

-- The frame size is in milliseconds; the gain control and the counter are shared handles.
pub record CaptureOptions : Type 0 where
  pub device_id : Option String
  pub target_sample_rate : Option ℕ
  pub frame_ms : ℕ

pub record CaptureRuntime : Type 0 where
  pub device_id : String
  pub device_name : String
  pub sample_rate : ℕ
  pub source_sample_rate : ℕ
  pub channels : ℕ
  pub source_channels : ℕ
  pub frame_ms : ℕ

pub record Engine : Type 0 where
  pub next_number : ℕ
  pub streams : List ℕ
  pub recorders : List ℕ
  pub blocked : Bool

abbrev pub quiet : Engine
quiet = record { next_number = 0; streams = []; recorders = []; blocked = false }

unfoldable pub among : ℕ → List ℕ → Bool
among k [] = false
among k (n ∷ ns) = (n == k) || among k ns

unfoldable pub without : ℕ → List ℕ → List ℕ
unfolding filter
without k ns = filter (λ n. not (n == k)) ns

-- A device that opened.
unfoldable pub start_stream : Engine → Engine × ℕ
start_stream e = (
  record e { next_number = e.next_number + 1; streams = e.next_number ∷ e.streams },
  e.next_number,
)

unfoldable pub start_recorder : Engine → ℕ → Engine
start_recorder e stream = record e { recorders = stream ∷ e.recorders }

-- `CaptureHandle.stop`: the flag is set and the thread joined.
unfoldable pub stop_stream : Engine → ℕ → Engine
unfolding without
stop_stream e stream = record e { streams = without stream e.streams }

-- `RecorderHandle.stop`.
unfoldable pub stop_recorder : Engine → ℕ → Engine
unfolding among without
stop_recorder e stream =
    if among stream e.streams
    then record e { blocked = true }
    else record e { recorders = without stream e.recorders }
