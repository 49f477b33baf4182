-- ===== src/Services/Auth/Accounts/Tokens.antt =====
-- backend/src/services/auth_service.rs: the account behind a session's cookie, the state of a second factor and
-- what its owner may ask for it, and the scrape token.
use Prim.Native.String.{String}
use on_air_record.Base.{ℕ, Bool, false, Option, none, some, List, if◌then◌else◌}
use on_air_record.Base.Int.{ℤ, pos, ◌-ℤ◌, ltb_ℤ}
use on_air_record.Error.{AppError, app_not_found, conflict, Result, success_of, err}
use on_air_record.Models.Access.{User}
use on_air_record.Repositories.Accounts.{Store, Step, find_row, is_set}
use on_air_record.Repositories.Accounts.Factors.{
  SessionRecord, find_session, touch_session, recovery_codes_left, write_recovery_codes,
  set_pending_totp, replace_metrics_token, delete_metrics_token, metrics_token_matches,
}
use on_air_record.Services.Auth.Accounts.Texts.{is_blank, trim}
use on_air_record.Services.Auth.Accounts.{unless_fault, and_then, done, checked, confirm_password}

abbrev pub touch_interval_ms : ℕ
touch_interval_ms = 300000

module _ (same_email : String → String → Bool) (hash_password : String → Result String)
    (verify_password : String → String → Bool) (hash_token : String → ℕ) where
  abbrev touched : ℕ → ℤ → Option AppError → SessionRecord → Store → Store
  touched hash now none record_found s =
      if ltb_ℤ (pos touch_interval_ms) (now -ℤ record_found.last_seen_at_ms)
      then touch_session hash now s
      else s
  touched hash now (some _) record_found s = s

  -- A failed touch is only logged.
  unfoldable pub resolve : Option String → ℤ → Option AppError → Store → Store × Option User
  unfolding find_session touch_session
  resolve none now fault s = (s, none)
  resolve (some token) now fault s = elim (find_session s (hash_token token) now) [
    | none ↦ (s, none)
    | some found ↦ (touched (hash_token token) now fault found s, some found.user)
  ]

  unfoldable pub two_factor_status : ℕ → Store → Result (Bool × ℕ)
  unfolding find_row recovery_codes_left
  two_factor_status user_id s = elim (find_row s.users user_id) [
    | none ↦ err (app_not_found "no account with that id")
    | some row ↦ success_of (
      is_set row.totp_secret,
      if is_set row.totp_secret then recovery_codes_left user_id s else 0,
    )
  ]

  -- `code_hashes` are those of the codes that would be generated.
  unfoldable pub regenerate_recovery_codes : ℕ → String → List ℕ → Option AppError → Step Unit
  unfolding and_then confirm_password find_row unless_fault write_recovery_codes
  regenerate_recovery_codes user_id password code_hashes fault s =
      let replaced : Store × Result Unit = elim (find_row s.users user_id) [
        | none ↦ (s, err (app_not_found "no account with that id"))
        | some row ↦
            if is_set row.totp_secret
            then unless_fault fault (done (write_recovery_codes user_id code_hashes)) s
            else (s, err (conflict "two factor sign in is off, so there are no recovery codes"))
      ] in
      checked
        (confirm_password same_email hash_password verify_password hash_token user_id password s)
        (λ _ _. replaced) s

  -- The generated secret is kept until a code from it confirms it. The QR code is left out.
  unfoldable pub begin_two_factor_setup : ℕ → List ℕ → Option AppError → Step Unit
  unfolding find_row unless_fault set_pending_totp
  begin_two_factor_setup user_id secret fault s = elim (find_row s.users user_id) [
    | none ↦ (s, err (app_not_found "no account with that id"))
    | some row ↦
        if is_set row.totp_secret
        then (
          s,
          err (
              conflict
                "two factor sign in is already on; turn it off first to move it to a new app"),
        )
        else unless_fault fault (done (set_pending_totp user_id secret)) s
  ]

  unfoldable pub create_metrics_token : String → ℤ → Option AppError → Step Unit
  unfolding unless_fault replace_metrics_token
  create_metrics_token token now fault =
      unless_fault fault (done (replace_metrics_token (hash_token token) now))

  unfoldable pub revoke_metrics_token : Option AppError → Step Unit
  unfolding unless_fault delete_metrics_token
  revoke_metrics_token fault = unless_fault fault (done delete_metrics_token)

  unfoldable pub verify_metrics_token : String → Store → Bool
  unfolding metrics_token_matches trim
  verify_metrics_token token s =
      if is_blank (trim token) then false else metrics_token_matches (hash_token token) s
