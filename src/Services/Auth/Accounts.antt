-- ===== src/Services/Auth/Accounts.antt =====
-- Accounts: the methods of AuthService in backend/src/services/auth_service.rs that make, change and remove
-- them, over the tables of Repositories/Accounts. The hashes are parameters, with the collation of
-- emails; a generated token is an argument; and each write of the
-- database says whether it fails; its reads answer.
pub mod Texts
pub mod Calls
pub mod Chains
pub mod HasAdmin
pub mod SignsOut
pub mod Tokens
pub mod SignedOut
use Prim.Native.String.{String}
use on_air_record.Base.{ℕ, Bool, true, false, not, Option, none, some, if◌then◌else◌}
use on_air_record.Base.Int.{ℤ, pos, ◌+ℤ◌, ◌-ℤ◌, ltb_ℤ}
use on_air_record.Error.{
  AppError, app_not_found, bad_request, conflict, unauthorized, Result, success_of, err,
}
use on_air_record.Models.Access.{AuthMode, accounts, User}
use on_air_record.Models.Activity.{Role}
use on_air_record.Repositories.Accounts.{
  UserRow, Store, Step, find_row, find_email, same_mode, is_set, map_user, choose_open,
  set_up_first_admin, disable_accounts, insert_user, update_role, update_password, delete_user,
}
use on_air_record.Repositories.Accounts.Factors.{
  SessionRecord, find_session, touch_session, recovery_codes_left, write_recovery_codes,
  set_pending_totp, replace_metrics_token, delete_metrics_token, metrics_token_matches,
  create_session, delete_session, delete_sessions_for_user, disable_totp,
}
use on_air_record.Services.Auth.Accounts.Texts.{is_blank, trim, validate_email, validate_password}

abbrev pub session_ttl_ms : ℤ
session_ttl_ms = pos 2592000000

-- What the database answers to the first and the second write of a method; none is no fault.
pub record Faults : Type 0 where
  pub first : Option AppError
  pub second : Option AppError

unfoldable pub unless_fault : {A : Type 0} → Option AppError → Step A → Step A
unless_fault none step s = step s
unless_fault (some error) step s = (s, err error)

-- `?`: on to the rest, or out with the error.
unfoldable pub and_then : {A B : Type 0} → Store × Result A → (A → Step B) → Store × Result B
and_then (s, success_of a) rest = rest a s
and_then (s, err error) rest = (s, err error)

-- A statement that answers with nothing.
abbrev pub done : (Store → Store) → Step Unit
done change s = (change s, success_of tt)

abbrev pub checked : {A B : Type 0} → Result A → (A → Step B) → Step B
checked result rest s = and_then (s, result) rest

module _ (same_email : String → String → Bool) (hash_password : String → Result String)
    (verify_password : String → String → Bool) (hash_token : String → ℕ) where
  unfoldable pub start_session : String → ℤ → Option AppError → ℕ → Step Unit
  unfolding unless_fault create_session ◌+ℤ◌
  start_session token now fault user_id =
      unless_fault fault (create_session (hash_token token) user_id (now +ℤ session_ttl_ms) now)

  unfoldable pub set_up : String → String → String → ℤ → Faults → Step User
  unfolding and_then unless_fault set_up_first_admin validate_email validate_password start_session
  set_up email password token now faults = checked (validate_email email) λ valid.
      checked (validate_password password) λ _. checked (hash_password password) λ hash s.
        and_then (unless_fault faults.first (set_up_first_admin same_email valid hash now) s)
          (λ user t.
            and_then (start_session token now faults.second user.id t)
              (λ _ u. (u, success_of user)))

  unfoldable pub create_user : String → String → Role → ℤ → Faults → Step User
  unfolding and_then unless_fault insert_user validate_email validate_password
  create_user email password role now faults s =
      let added =
        checked (validate_email email)
          (λ valid. checked (validate_password password) (λ _.
            checked (hash_password password)
              (λ hash. unless_fault faults.first (insert_user same_email valid hash role now))))
          s in
      if not (same_mode s.mode accounts)
      then (s, err (conflict "switch accounts on before adding people to them"))
      else added

  -- The new password is kept before the sessions end, so the second write may fail alone.
  unfoldable pub replace_password : ℕ → String → ℤ → Faults → Option ℕ → Step Unit
  unfolding and_then unless_fault validate_password update_password delete_sessions_for_user
  replace_password user_id new_password now faults keep =
      checked (validate_password new_password) λ _. checked (hash_password new_password) λ hash s.
        and_then (unless_fault faults.first (update_password user_id hash now) s)
          (λ _. unless_fault faults.second (done (delete_sessions_for_user user_id keep)))

  unfoldable pub set_password : ℕ → String → ℤ → Faults → Step Unit
  unfolding replace_password
  set_password user_id new_password now faults =
      replace_password user_id new_password now faults none

  unfoldable pub change_own_password : ℕ → String → String → String → ℤ → Faults → Step Unit
  unfolding find_row replace_password
  change_own_password user_id current_password new_password current_token now faults s =
      let changed =
        replace_password user_id new_password now faults (some (hash_token current_token)) s in
      elim (find_row s.users user_id) [
        | none ↦ (s, err (unauthorized "sign in again"))
        | some row ↦
            if verify_password row.password_hash current_password
            then changed
            else (s, err (bad_request "the current password is not right"))
      ]

  unfoldable pub confirm_password : ℕ → String → Store → Result Unit
  unfolding find_row
  confirm_password user_id password s = elim (find_row s.users user_id) [
    | none ↦ err (unauthorized "sign in again")
    | some row ↦
        if verify_password row.password_hash password
        then success_of tt
        else err (bad_request "the password is not right")
  ]

  unfoldable pub disable_two_factor : ℕ → String → Option AppError → Step Unit
  unfolding and_then confirm_password unless_fault disable_totp
  disable_two_factor user_id password fault s =
      checked (confirm_password user_id password s)
        (λ _. unless_fault fault (done (disable_totp user_id))) s

  unfoldable pub reset_two_factor : ℕ → Option AppError → Step Unit
  unfolding find_row unless_fault disable_totp
  reset_two_factor user_id fault s =
      let removed = unless_fault fault (done (disable_totp user_id)) s in
      elim (find_row s.users user_id) [
        | none ↦ (s, err (app_not_found "no account with that id"))
        | some _ ↦ removed
      ]

  -- `generated` is the password made up for the account.
  unfoldable pub reset_password_by_email : String → String → ℤ → Faults → Step String
  unfolding find_email set_password and_then trim
  reset_password_by_email email generated now faults s =
      let reset : Store × Result String = elim (find_email same_email s.users (trim email)) [
        | none ↦ (s, err (app_not_found "no account uses that email"))
        | some row ↦
            and_then (set_password row.id generated now faults s) (λ _ t. (t, success_of generated))
      ] in
      if not (same_mode s.mode accounts)
      then (s, err (conflict "accounts are not switched on, so there is no password to reset"))
      else reset

  unfoldable pub log_out : String → Option AppError → Step Unit
  unfolding unless_fault delete_session
  log_out token fault = unless_fault fault (done (delete_session (hash_token token)))
