-- ===== src/Error.antt =====
-- backend/src/error.rs: the errors of the backend, their codes, and their texts.
use Prim.Native.String.{String, ◌++◌ as ◌+text◌}
use on_air_record.Base.{ℕ}

pub data AppError : Type 0 where
  bad_request : String → AppError
  app_not_found : String → AppError  -- NotFound
  conflict : String → AppError
  unauthorized : String → AppError
  forbidden : String → AppError
  too_many_requests : String → AppError
  audio : String → AppError
  database : String → AppError
  io : String → AppError
  internal : String → AppError

-- AppResult
pub data Result (A : Type 0) : Type 0 where
  success_of : A → Result A  -- Ok
  err : AppError → Result A

-- The text of `#[error(…)]`.
unfoldable pub to_string : AppError → String
to_string (bad_request message) = message
to_string (app_not_found message) = message
to_string (conflict message) = message
to_string (unauthorized message) = message
to_string (forbidden message) = message
to_string (too_many_requests message) = message
to_string (audio message) = "audio device error: " +text message
to_string (database message) = "database error: " +text message
to_string (io message) = "io error: " +text message
to_string (internal message) = message

unfoldable pub code : AppError → String
code (bad_request _) = "bad_request"
code (app_not_found _) = "not_found"
code (conflict _) = "conflict"
code (unauthorized _) = "unauthenticated"
code (forbidden _) = "forbidden"
code (too_many_requests _) = "rate_limited"
code (audio _) = "audio_error"
code (database _) = "internal"
code (io _) = "internal"
code (internal _) = "internal"

unfoldable pub status : AppError → ℕ
status (bad_request _) = 400
status (app_not_found _) = 404
status (conflict _) = 409
status (unauthorized _) = 401
status (forbidden _) = 403
status (too_many_requests _) = 429
status (audio _) = 503
status (database _) = 500
status (io _) = 500
status (internal _) = 500
