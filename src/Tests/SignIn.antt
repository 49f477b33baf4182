-- ===== src/Tests/SignIn.antt =====
-- Sign ins of backend/src/services/auth_service.rs on one account with a second factor.
use on_air_record.Base.{
  ℕ, Option, ◌∙◌, ap, sym, ◌+◌, refl, true, false, none, some, List, [], ◌∷◌, if◌then◌else◌,
}
use on_air_record.Base.Filter.{filter}
use on_air_record.Base.Int.{ℤ, pos, ◌+ℤ◌, ◌-ℤ◌, ◌==ℤ◌, div_euclid}
use on_air_record.Models.Access.{User, accounts}
use on_air_record.Models.Activity.{admin}
use on_air_record.Services.Playback.{Answer, ok, error}
use on_air_record.Services.Auth.SignIn.{
  Repository, Credentials, AuthService, log_in, verify_second_factor, verify, find_step, step_at,
  TotpRecord, check_second_factor, accept_step,
}
use on_air_record.Services.Auth.SignIn.Explained.{Explained, log_in-Explained}
use on_air_record.Services.Auth.SignIn.SecondFactor.{Settles, verify_second_factor-Settles}
use on_air_record.Services.Auth.SignIn.Codes.{Remembers, Spent, check_second_factor-Spent}
use on_air_record.Tests.Services.{pending}

abbrev owner : User
owner = record {
  id = 1;
  email = "owner@example.org";
  role = admin;
  created_at_ms = pos 0;
  two_factor = true;
}

abbrev owner_credentials : Credentials
owner_credentials = record { user = owner; password_hash = "hash of tape" }

-- A database of one account, which counts its sessions; the code of step 10 is 123456.
abbrev one_account : Repository
one_account = record {
  Store = ℕ;
  mode = λ n. ok accounts;
  find_credentials = λ n email. ok (some owner_credentials);
  find_user = λ n id. ok (some owner);
  delete_expired_sessions = λ n now. n;
  start_session = λ n id. (n + 1, ok "session");
  find_totp = λ n id.
      ok (record { secret = some (7 ∷ []); pending_secret = none; last_step = some (pos 9) });
  record_totp_step = λ n id step. (n, none);
  use_recovery_code = λ n id typed. (n, ok false);
  verify_password = λ hash typed. true;
  hash_token = λ token. 11;
  code_at = λ secret step. if step ==ℤ pos 10 then 123456 else 0;
}

-- "123456"
abbrev typed_code : List ℕ
typed_code = 49 ∷ 50 ∷ 51 ∷ 52 ∷ 53 ∷ 54 ∷ []

abbrev signing_in : AuthService one_account
signing_in = record { throttle = []; challenges = (11, pending) ∷ []; store = 0 }

log_in-Explained_example :
    Explained one_account 7
      (pos 310000)
      signing_in
      "owner@example.org"
      "tape"
      (log_in one_account 7 (pos 310000) signing_in "owner@example.org" "tape" "challenge")
log_in-Explained_example =
    log_in-Explained one_account 7 (pos 310000) signing_in "owner@example.org" "tape" "challenge"

verify_second_factor-Settles_example :
    Settles one_account 7
      (pos 290000)
      signing_in
      11
      typed_code
      (verify_second_factor one_account 7 (pos 290000) signing_in "challenge" typed_code)
verify_second_factor-Settles_example =
    verify_second_factor-Settles one_account 7 (pos 290000) signing_in "challenge" typed_code

-- A database that keeps the last step of its one account, at first step 9.
abbrev one_app : Repository
one_app = record {
  Store = Option ℤ;
  mode = λ last. ok accounts;
  find_credentials = λ last email. ok (some owner_credentials);
  find_user = λ last id. ok (some owner);
  delete_expired_sessions = λ last now. last;
  start_session = λ last id. (last, ok "session");
  find_totp =
      λ last id. ok (record { secret = some (7 ∷ []); pending_secret = none; last_step = last });
  record_totp_step = λ last id step. (some step, none);
  use_recovery_code = λ last id typed. (last, ok false);
  verify_password = λ hash typed. true;
  hash_token = λ token. 11;
  code_at = λ secret step. if step ==ℤ pos 10 then 123456 else 0;
}

last_of : Answer TotpRecord → Option ℤ
last_of (ok found) = found.last_step
last_of (error message) = none

one_app-Remembers : Remembers one_app
unfolding last_of
one_app-Remembers store t user_id step after e f = sym (ap last_of f) ∙ sym (ap (λ r. r.0) e)

abbrev owner_app : AuthService one_app
owner_app = record { throttle = []; challenges = []; store = some (pos 9) }

check_second_factor-Spent_example :
    Spent one_app
      (some (pos 9))
      (check_second_factor one_app owner_app 1 typed_code (pos 310000)).0.store
      1
      typed_code
      (pos 310000)
unfolding check_second_factor accept_step verify find_step filter step_at div_euclid ◌+ℤ◌ ◌-ℤ◌
check_second_factor-Spent_example =
    check_second_factor-Spent one_app one_app-Remembers owner_app 1 typed_code (pos 310000) refl
