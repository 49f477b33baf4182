-- ===== src/Services/Auth/Accounts/Calls.antt =====
-- Any sequence of calls on the accounts of backend/src/services/auth_service.rs, from the web interface and
-- from the recovery commands.
use Prim.Native.String.{String}
use on_air_record.Base.{ℕ, Bool, Option, List, [], ◌∷◌}
use on_air_record.Base.Int.{ℤ}
use on_air_record.Error.{AppError, Result}
use on_air_record.Models.Activity.{Role}
use on_air_record.Repositories.Accounts.{
  Store, choose_open, update_role, delete_user, disable_accounts,
}
use on_air_record.Repositories.Accounts.Factors.{enable_totp}
use on_air_record.Services.Auth.Accounts.{
  Faults, unless_fault, done, start_session, set_up, create_user, set_password, change_own_password,
  disable_two_factor, reset_two_factor, reset_password_by_email, log_out,
}

-- Each with what the database answers, and with the secrets that would be generated.
pub data Call : Type 0 where
  chooses_open : Option AppError → Call
  sets_up : String → String → String → ℤ → Faults → Call
  creates : String → String → Role → ℤ → Faults → Call
  gives_role : ℕ → Role → Option AppError → Call
  changes_own_password : ℕ → String → String → String → ℤ → Faults → Call
  sets_password : ℕ → String → ℤ → Faults → Call
  resets_password : String → String → ℤ → Faults → Call
  deletes : ℕ → Option AppError → Call
  disables_accounts : Option AppError → Call
  disables_factor : ℕ → String → Option AppError → Call
  resets_factor : ℕ → Option AppError → Call
  enables_factor : ℕ → List ℕ → ℤ → List ℕ → Option AppError → Call
  signs_in : String → ℤ → ℕ → Option AppError → Call
  logs_out : String → Option AppError → Call

module _ (same_email : String → String → Bool) (hash_password : String → Result String)
    (verify_password : String → String → Bool) (hash_token : String → ℕ) where
  unfoldable pub call : Store → Call → Store
  unfolding unless_fault choose_open disable_accounts enable_totp start_session update_role
      delete_user
  call s (chooses_open fault) = (unless_fault fault choose_open s).0
  call s (sets_up email password token now faults) =
      (set_up same_email hash_password verify_password hash_token email password token now faults
        s).0
  call s (creates email password role now faults) =
      (create_user same_email hash_password verify_password hash_token email password role now
        faults s).0
  call s (gives_role user_id role fault) = (unless_fault fault (update_role user_id role) s).0
  call s (changes_own_password user_id current new token now faults) =
      (change_own_password same_email hash_password verify_password hash_token user_id current new
        token now faults s).0
  call s (sets_password user_id new now faults) =
      (set_password same_email hash_password verify_password hash_token user_id new now faults s).0
  call s (resets_password email generated now faults) =
      (reset_password_by_email same_email hash_password verify_password hash_token email generated
        now faults s).0
  call s (deletes user_id fault) = (unless_fault fault (delete_user user_id) s).0
  call s (disables_accounts fault) = (unless_fault fault (done disable_accounts) s).0
  call s (disables_factor user_id password fault) =
      (disable_two_factor same_email hash_password verify_password hash_token user_id password fault
        s).0
  call s (resets_factor user_id fault) =
      (reset_two_factor same_email hash_password verify_password hash_token user_id fault s).0
  call s (enables_factor user_id secret step hashes fault) =
      (unless_fault fault (done (enable_totp user_id secret step hashes)) s).0
  call s (signs_in token now user_id fault) =
      (start_session same_email hash_password verify_password hash_token token now fault user_id
        s).0
  call s (logs_out token fault) =
      (log_out same_email hash_password verify_password hash_token token fault s).0

  unfoldable pub run : Store → List Call → Store
  unfolding call
  run s [] = s
  run s (c ∷ calls) = run (call s c) calls
