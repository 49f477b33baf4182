-- ===== src/Services/Auth/Accounts/HasAdmin.antt =====
-- The ids and the admins through each call on the accounts of backend/src/services/auth_service.rs.
use Prim.Native.String.{String}
use on_air_record.Base.{
  ℕ, Bool, not, Option, none, some, List, [], ◌∷◌, if_branches, option_branches,
}
use on_air_record.Base.Int.{ℤ, ◌+ℤ◌}
use on_air_record.Error.{AppError, Result, success_of}
use on_air_record.Models.Access.{accounts, User}
use on_air_record.Models.Activity.{Role}
use on_air_record.Repositories.Accounts.{
  Store, Step, find_row, find_email, same_mode, choose_open, set_up_first_admin, insert_user,
  update_role, update_password, delete_user, disable_accounts,
}
use on_air_record.Repositories.Accounts.Factors.{
  create_session, delete_session, delete_sessions_for_user, disable_totp, enable_totp,
}
use on_air_record.Repositories.Accounts.Guarded.{
  Guarded, beside-Guarded, choose_open-Guarded, disable_accounts-Guarded, insert_user-Guarded,
  set_up_first_admin-Guarded, update_password-Guarded,
}
use on_air_record.Repositories.Accounts.Leaving.{delete_user-Guarded, update_role-Guarded}
use on_air_record.Services.Auth.Accounts.Texts.{trim, validate_email, validate_password}
use on_air_record.Services.Auth.Accounts.{
  session_ttl_ms, Faults, unless_fault, and_then, done, start_session, set_up, create_user,
  replace_password, set_password, change_own_password, confirm_password, disable_two_factor,
  reset_two_factor, reset_password_by_email, log_out,
}
use on_air_record.Services.Auth.Accounts.Calls.{
  Call, chooses_open, sets_up, creates, gives_role, changes_own_password, sets_password,
  resets_password, deletes, disables_accounts, disables_factor, resets_factor, enables_factor,
  signs_in, logs_out, call, run,
}
use on_air_record.Services.Auth.Accounts.Chains.{
  and_then-Guarded, unless_fault-Guarded, create_session-Guarded, without_factor-Guarded,
  with_factor-Guarded,
}

module _ (same_email : String → String → Bool) (hash_password : String → Result String)
    (verify_password : String → String → Bool) (hash_token : String → ℕ) where
  start_session-Guarded :
      (token : String) (now : ℤ) (fault : Option AppError) (user_id : ℕ) (s : Store)
      → Guarded s
      → Guarded
          (start_session same_email hash_password verify_password hash_token token now fault user_id
            s).0
  unfolding start_session
  start_session-Guarded token now fault user_id s g =
      let step : Step Unit =
        create_session (hash_token token) user_id (now +ℤ session_ttl_ms) now in
      unless_fault-Guarded fault step s g
        (create_session-Guarded (hash_token token) user_id (now +ℤ session_ttl_ms) now s g)

  set_up-Guarded :
      (email password token : String) (now : ℤ) (faults : Faults) (s : Store)
      → Guarded s
      → Guarded
          (set_up same_email hash_password verify_password hash_token email password token now
            faults s).0
  unfolding set_up
  set_up-Guarded email password token now faults s g =
      and_then-Guarded (s, validate_email email) _ g
        λ valid s1 g1.
          and_then-Guarded (s1, validate_password password) _ g1
            λ _ s2 g2.
              and_then-Guarded (s2, hash_password password) _ g2
                λ hash s3 g3.
                  let first : Step User = set_up_first_admin same_email valid hash now in
                  let second : ℕ → Step Unit =
                    start_session same_email hash_password verify_password hash_token token now
                      faults.second in
                  and_then-Guarded (unless_fault faults.first first s3)
                    (λ user t. and_then (second user.id t) (λ _ u. (u, success_of user)))
                    (unless_fault-Guarded faults.first first s3 g3
                      (set_up_first_admin-Guarded same_email s3 valid hash now g3))
                    λ user t h.
                      and_then-Guarded (second user.id t) (λ _ u. (u, success_of user))
                        (start_session-Guarded token now faults.second user.id t h) λ _ u k. k

  create_user-Guarded :
      (email password : String) (role : Role) (now : ℤ) (faults : Faults) (s : Store)
      → Guarded s
      → Guarded
          (create_user same_email hash_password verify_password hash_token email password role now
            faults s).0
  unfolding create_user
  create_user-Guarded email password role now faults s g =
      if_branches (λ (r : Store × Result User). Guarded r.0) (not (same_mode s.mode accounts)) _ _
        (λ _. g)
        (λ _.
          and_then-Guarded (s, validate_email email) _ g
            λ valid s1 g1.
              and_then-Guarded (s1, validate_password password) _ g1
                λ _ s2 g2.
                  and_then-Guarded (s2, hash_password password) _ g2
                    λ hash s3 g3.
                      unless_fault-Guarded faults.first (insert_user same_email valid hash role now)
                        s3 g3 (insert_user-Guarded same_email s3 valid hash role now g3))

  replace_password-Guarded :
      (user_id : ℕ) (new : String) (now : ℤ) (faults : Faults) (keep : Option ℕ) (s : Store)
      → Guarded s
      → Guarded
          (replace_password same_email hash_password verify_password hash_token user_id new now
            faults keep s).0
  unfolding replace_password delete_sessions_for_user
  replace_password-Guarded user_id new now faults keep s g =
      and_then-Guarded (s, validate_password new) _ g
        λ _ s1 g1.
          and_then-Guarded (s1, hash_password new) _ g1
            λ hash s2 g2.
              let first : Step Unit = update_password user_id hash now in
              let second : Step Unit = done (delete_sessions_for_user user_id keep) in
              and_then-Guarded (unless_fault faults.first first s2)
                (λ _. unless_fault faults.second second)
                (unless_fault-Guarded faults.first first s2 g2
                  (update_password-Guarded s2 user_id hash now g2))
                λ _ t h.
                  unless_fault-Guarded faults.second second t h
                    (beside-Guarded t _ t.recovery_codes t.metrics_token h)

  change_own_password-Guarded :
      (user_id : ℕ) (current new token : String) (now : ℤ) (faults : Faults) (s : Store)
      → Guarded s
      → Guarded
          (change_own_password same_email hash_password verify_password hash_token user_id current
            new token now faults s).0
  unfolding change_own_password
  change_own_password-Guarded user_id current new token now faults s g =
      option_branches (λ (r : Store × Result Unit). Guarded r.0) (find_row s.users user_id) _ _
        (λ _. g)
        λ row _.
          if_branches (λ (r : Store × Result Unit). Guarded r.0)
            (verify_password row.password_hash current) _ _
            (λ _. replace_password-Guarded user_id new now faults (some (hash_token token)) s g)
            (λ _. g)

  reset_password-Guarded :
      (email generated : String) (now : ℤ) (faults : Faults) (s : Store)
      → Guarded s
      → Guarded
          (reset_password_by_email same_email hash_password verify_password hash_token email
            generated now faults s).0
  unfolding reset_password_by_email set_password
  reset_password-Guarded email generated now faults s g =
      if_branches (λ (r : Store × Result String). Guarded r.0) (not (same_mode s.mode accounts)) _ _
        (λ _. g)
        λ _.
          option_branches (λ (r : Store × Result String). Guarded r.0)
            (find_email same_email s.users (trim email)) _ _ (λ _. g)
            λ row _.
              and_then-Guarded
                (set_password same_email hash_password verify_password hash_token row.id generated
                  now faults s)
                (λ _ t. (t, success_of generated))
                (replace_password-Guarded row.id generated now faults none s g) λ _ t h. h

  disable_two_factor-Guarded :
      (user_id : ℕ) (password : String) (fault : Option AppError) (s : Store)
      → Guarded s
      → Guarded
          (disable_two_factor same_email hash_password verify_password hash_token user_id password
            fault s).0
  unfolding disable_two_factor
  disable_two_factor-Guarded user_id password fault s g =
      and_then-Guarded
        (s, confirm_password same_email hash_password verify_password hash_token user_id password s)
        _ g
        λ _ t h.
          unless_fault-Guarded fault (done (disable_totp user_id)) t h
            (without_factor-Guarded user_id t h)

  reset_two_factor-Guarded :
      (user_id : ℕ) (fault : Option AppError) (s : Store)
      → Guarded s
      → Guarded
          (reset_two_factor same_email hash_password verify_password hash_token user_id fault s).0
  unfolding reset_two_factor
  reset_two_factor-Guarded user_id fault s g =
      option_branches (λ (r : Store × Result Unit). Guarded r.0) (find_row s.users user_id) _ _
        (λ _. g)
        λ _ _.
          unless_fault-Guarded fault (done (disable_totp user_id)) s g
            (without_factor-Guarded user_id s g)

  call-Guarded :
      (s : Store) (c : Call)
      → Guarded s
      → Guarded (call same_email hash_password verify_password hash_token s c)
  unfolding call log_out delete_session set_password
  call-Guarded s (chooses_open fault) g =
      unless_fault-Guarded fault choose_open s g (choose_open-Guarded s g)
  call-Guarded s (sets_up email password token now faults) g =
      set_up-Guarded email password token now faults s g
  call-Guarded s (creates email password role now faults) g =
      create_user-Guarded email password role now faults s g
  call-Guarded s (gives_role user_id role fault) g =
      unless_fault-Guarded fault (update_role user_id role) s g
        (update_role-Guarded s user_id role g)
  call-Guarded s (changes_own_password user_id current new token now faults) g =
      change_own_password-Guarded user_id current new token now faults s g
  call-Guarded s (sets_password user_id new now faults) g =
      replace_password-Guarded user_id new now faults none s g
  call-Guarded s (resets_password email generated now faults) g =
      reset_password-Guarded email generated now faults s g
  call-Guarded s (deletes user_id fault) g =
      unless_fault-Guarded fault (delete_user user_id) s g (delete_user-Guarded s user_id g)
  call-Guarded s (disables_accounts fault) g =
      unless_fault-Guarded fault (done disable_accounts) s g (disable_accounts-Guarded s)
  call-Guarded s (disables_factor user_id password fault) g =
      disable_two_factor-Guarded user_id password fault s g
  call-Guarded s (resets_factor user_id fault) g = reset_two_factor-Guarded user_id fault s g
  call-Guarded s (enables_factor user_id secret step hashes fault) g =
      unless_fault-Guarded fault (done (enable_totp user_id secret step hashes)) s g
        (with_factor-Guarded user_id secret step hashes s g)
  call-Guarded s (signs_in token now user_id fault) g =
      start_session-Guarded token now fault user_id s g
  call-Guarded s (logs_out token fault) g =
      unless_fault-Guarded fault (done (delete_session (hash_token token))) s g
        (beside-Guarded s _ s.recovery_codes s.metrics_token g)

  -- Whatever is called and whatever the database refuses, with ids that rise in the table and none above the
  -- counter, they still do, and an install with accounts on still has an admin.
  pub run-Guarded :
      (s : Store) (calls : List Call)
      → Guarded s
      → Guarded (run same_email hash_password verify_password hash_token s calls)
  unfolding run
  run-Guarded s [] g = g
  run-Guarded s (c ∷ calls) g =
      run-Guarded (call same_email hash_password verify_password hash_token s c) calls
        (call-Guarded s c g)
