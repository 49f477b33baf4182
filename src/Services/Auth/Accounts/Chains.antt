-- ===== src/Services/Auth/Accounts/Chains.antt =====
-- Chains of writes in backend/src/services/auth_service.rs, each of which the database may refuse.
use on_air_record.Base.{ℕ, Option, none, some, List, arith, option_branches}
use on_air_record.Base.Int.{ℤ}
use on_air_record.Error.{AppError, Result, success_of, err}
use on_air_record.Repositories.Accounts.{Store, Step, find_row}
use on_air_record.Repositories.Accounts.Factors.{
  create_session, find_hash, disable_totp, enable_totp, write_recovery_codes, without_factor,
  for_user, confirmed,
}
use on_air_record.Repositories.Accounts.Guarded.{Guarded, beside-Guarded, map-Guarded}
use on_air_record.Services.Auth.Accounts.{unless_fault, and_then}

pub and_then-Guarded :
    {A B : Type 0} (r : Store × Result A) (rest : A → Step B)
    → Guarded r.0
    → ((a : A) (t : Store) → Guarded t → Guarded (rest a t).0)
    → Guarded (and_then r rest).0
unfolding and_then
and_then-Guarded (s, success_of a) rest g h = h a s g
and_then-Guarded (s, err error) rest g h = g

pub unless_fault-Guarded :
    {A : Type 0} (fault : Option AppError) (step : Step A) (s : Store)
    → Guarded s
    → Guarded (step s).0
    → Guarded (unless_fault fault step s).0
unfolding unless_fault
unless_fault-Guarded none step s g h = h
unless_fault-Guarded (some error) step s g h = g

pub create_session-Guarded :
    (hash user_id : ℕ) (expires now : ℤ) (s : Store)
    → Guarded s
    → Guarded (create_session hash user_id expires now s).0
unfolding create_session
create_session-Guarded hash user_id expires now s g =
    option_branches (λ (r : Store × Result Unit). Guarded r.0) (find_row s.users user_id) _ _
      (λ _. g)
      (λ _ _.
        option_branches (λ (r : Store × Result Unit). Guarded r.0) (find_hash s.sessions hash) _ _
          (λ _. beside-Guarded s _ s.recovery_codes s.metrics_token g) (λ _ _. g))

pub without_factor-Guarded :
    (user_id : ℕ) (s : Store) → Guarded s → Guarded (disable_totp user_id s)
unfolding disable_totp
without_factor-Guarded user_id s g =
    map-Guarded s (for_user user_id without_factor) _ (λ r. ground arith) g

pub with_factor-Guarded :
    (user_id : ℕ) (secret : List ℕ) (step : ℤ) (hashes : List ℕ) (s : Store)
    → Guarded s
    → Guarded (enable_totp user_id secret step hashes s)
unfolding enable_totp write_recovery_codes
with_factor-Guarded user_id secret step hashes s g =
    map-Guarded s (for_user user_id (confirmed secret step)) _ (λ r. ground arith) g
