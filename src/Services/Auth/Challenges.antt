-- ===== src/Services/Auth/Challenges.antt =====
-- Challenges of backend/src/services/auth_service.rs: sign ins that wait for the code. A challenge is
-- filed under the hash of its token, here the number that the hash is; the lock is never poisoned.
pub mod CodeLimit
use on_air_record.Base.{ℕ, ◌+◌, leb, if◌then◌else◌, Bool, true, false, Option, none, some}
use on_air_record.Base.Int.{ℤ, pos, ◌+ℤ◌, ltb_ℤ}
use on_air_record.Base.Maps.{Map, lookup, insert, remove, retain}

abbrev pub challenge_ttl_ms : ℕ
challenge_ttl_ms = 300000

abbrev pub max_code_attempts : ℕ
max_code_attempts = 5

pub record Challenge : Type 0 where
  pub user_id : ℕ
  pub expires_at_ms : ℤ
  pub attempts : ℕ  -- u32

-- With the hash of the token that was generated.
unfoldable pub start_challenge : Map Challenge → ℕ → ℕ → ℤ → Map Challenge
start_challenge challenges token_hash user_id now =
    insert (retain (λ pending. ltb_ℤ now pending.expires_at_ms) challenges) token_hash
      (record { user_id = user_id; expires_at_ms = now +ℤ pos challenge_ttl_ms; attempts = 0 })

-- The counter goes up before it is compared.
abbrev pub once_more : Challenge → Challenge
once_more pending = record pending { attempts = pending.attempts + 1 }

unfoldable pub count_against : Map Challenge → ℕ → Option Challenge → Map Challenge × Bool
count_against challenges challenge_hash none = (remove challenges challenge_hash, true)
count_against challenges challenge_hash (some pending) =
    if leb max_code_attempts (pending.attempts + 1)
    then (remove challenges challenge_hash, true)
    else (insert challenges challenge_hash (once_more pending), false)

unfoldable pub count_code_attempt : Map Challenge → ℕ → Map Challenge × Bool
count_code_attempt challenges challenge_hash =
    count_against challenges challenge_hash (lookup challenges challenge_hash)
