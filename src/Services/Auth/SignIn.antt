-- ===== src/Services/Auth/SignIn.antt =====
-- Signing in: log_in, verify_second_factor and check_second_factor of
-- backend/src/services/auth_service.rs with verify of services/totp.rs. `Repository` is the accounts'
-- database and the two hashes; a text is its characters' numbers where the code looks into it.
pub mod Explained
pub mod SecondFactor
pub mod Codes
use Prim.Native.String.{String}
use on_air_record.Base.{
  ℕ, ◌+◌, ◌-◌, ◌*◌, Bool, true, false, not, ◌&&◌, ◌||◌, Option, none, some, List, [], ◌∷◌, length,
  leb, ◌==◌, if◌then◌else◌,
}
use on_air_record.Base.Filter.{filter}
use on_air_record.Base.Int.{ℤ, pos, ◌+ℤ◌, ◌-ℤ◌, ltb_ℤ, div_euclid}
use on_air_record.Base.Maps.{Map, lookup, remove}
use on_air_record.Models.Access.{AuthMode, accounts, kept_open, undecided, User}
use on_air_record.Models.Activity.{SignInMethod, password, code, recovery_code}
use on_air_record.Services.Playback.{Answer, ok, error}
use on_air_record.Services.Auth.Throttle.{
  LoginThrottle, IpAddr, Check, allowed, too_many_requests, check, record_failure, record_success,
}
use on_air_record.Services.Auth.Challenges.{Challenge, start_challenge, count_code_attempt}

pub record Credentials : Type 0 where
  pub user : User
  pub password_hash : String

pub record TotpRecord : Type 0 where
  pub secret : Option (List ℕ)
  pub pending_secret : Option (List ℕ)
  pub last_step : Option ℤ

-- `start_session` files the hash of a new token; an answer is the token.
pub record Repository : Type 1 where
  pub Store : Type 0
  pub mode : Store → Answer AuthMode
  pub find_credentials : Store → String → Answer (Option Credentials)
  pub find_user : Store → ℕ → Answer (Option User)
  pub delete_expired_sessions : Store → ℤ → Store
  pub start_session : Store → ℕ → Store × Answer String
  pub find_totp : Store → ℕ → Answer TotpRecord
  pub record_totp_step : Store → ℕ → ℤ → Store × Option String
  pub use_recovery_code : Store → ℕ → List ℕ → Store × Answer Bool
  pub verify_password : String → String → Bool
  pub hash_token : String → ℕ
  pub code_at : List ℕ → ℤ → ℕ

abbrev pub is_ascii_digit : ℕ → Bool
is_ascii_digit c = leb 48 c && leb c 57

abbrev pub is_ascii_alphanumeric : ℕ → Bool
is_ascii_alphanumeric c = is_ascii_digit c || ((leb 65 c && leb c 90) || (leb 97 c && leb c 122))

abbrev pub is_whitespace : ℕ → Bool
is_whitespace c = c == 32 || (leb 9 c && leb c 13)

abbrev pub all : (ℕ → Bool) → List ℕ → Bool
all test [] = true
all test (c ∷ text) = test c && all test text

abbrev pub parse_from : ℕ → List ℕ → ℕ
parse_from value [] = value
parse_from value (c ∷ text) = parse_from (10 * value + (c - 48)) text

unfoldable pub step_at : ℤ → ℤ
step_at now_ms = div_euclid (div_euclid now_ms 1000) 30

abbrev pub is_newer : Option ℤ → ℤ → Bool
is_newer none step = true
is_newer (some last) step = ltb_ℤ last step

unfoldable pub find_step : (ℤ → Bool) → List ℤ → Option ℤ
find_step test [] = none
find_step test (step ∷ steps) =
    let rest = find_step test steps in if test step then some step else rest

-- A sign in that waits for an answer, or is refused.
pub data LogIn : Type 0 where
  signed_in : User → String → SignInMethod → LogIn
  second_factor_required : String → LogIn
  no_accounts wrong_credentials expired wrong_code too_many_codes no_user : LogIn
  throttled : ℕ → LogIn
  failed : String → LogIn

module _ (repository : Repository) where
  -- With one step of drift to both sides.
  unfoldable pub verify : List ℕ → List ℕ → ℤ → Option ℤ → Option ℤ
  verify secret typed now_ms last_used_step =
      let digits = filter (λ c. not (is_whitespace c)) typed in
      let now = step_at now_ms in
      let found =
        find_step
          (λ step.
            is_newer last_used_step step && (repository.code_at secret step == parse_from 0 digits))
          ((now -ℤ pos 1) ∷ now ∷ (now +ℤ pos 1) ∷ []) in
      if length digits == 6 && all is_ascii_digit digits then found else none

  pub record AuthService : Type 0 where
    pub throttle : LoginThrottle
    pub challenges : Map Challenge
    pub store : repository.Store

  abbrev pub with_store : AuthService → repository.Store → AuthService
  with_store s store = record s { store = store }

  abbrev pub after_record :
      AuthService → repository.Store × Option String → AuthService × Answer (Option SignInMethod)
  after_record s (store, none) = (with_store s store, ok (some code))
  after_record s (store, some message) = (with_store s store, error message)

  unfoldable pub accept_step :
      AuthService → ℕ → Option ℤ → AuthService × Answer (Option SignInMethod)
  accept_step s user_id none = (s, ok none)
  accept_step s user_id (some step) =
      after_record s (repository.record_totp_step s.store user_id step)

  abbrev pub check_secret :
      AuthService
      → ℕ
      → List ℕ
      → ℤ
      → Option (List ℕ)
      → Option ℤ
      → AuthService × Answer (Option SignInMethod)
  check_secret s user_id compact now none last_step = (s, ok none)
  check_secret s user_id compact now (some secret) last_step =
      accept_step s user_id (verify secret compact now last_step)

  abbrev pub check_app_code :
      AuthService → ℕ → List ℕ → ℤ → Answer TotpRecord → AuthService × Answer (Option SignInMethod)
  check_app_code s user_id compact now (error message) = (s, error message)
  check_app_code s user_id compact now (ok found) =
      check_secret s user_id compact now found.secret found.last_step

  abbrev pub after_recovery :
      AuthService → repository.Store × Answer Bool → AuthService × Answer (Option SignInMethod)
  after_recovery s (store, ok used) =
      (with_store s store, ok (if used then some recovery_code else none))
  after_recovery s (store, error message) = (with_store s store, error message)

  unfoldable pub check_second_factor :
      AuthService → ℕ → List ℕ → ℤ → AuthService × Answer (Option SignInMethod)
  check_second_factor s user_id typed now =
      let compact = filter is_ascii_alphanumeric typed in
      if length compact == 6 && all is_ascii_digit compact
      then check_app_code s user_id compact now (repository.find_totp s.store user_id)
      else after_recovery s (repository.use_recovery_code s.store user_id typed)

  unfoldable pub finish_session :
      AuthService → User → SignInMethod → repository.Store × Answer String → AuthService × LogIn
  finish_session s user method (store, ok token) = (with_store s store, signed_in user token method)
  finish_session s user method (store, error message) = (with_store s store, failed message)

  abbrev pub sign_in : AuthService → User → SignInMethod → AuthService × LogIn
  sign_in s user method = finish_session s user method (repository.start_session s.store user.id)

  -- `token` is the one that would be generated for a challenge.
  module _ (client : IpAddr) (now : ℤ) where
    -- The password was right: the second factor, or a session.
    unfoldable pub enter : AuthService → String → User → AuthService × LogIn
    enter s token user =
        if user.two_factor
        then (
          record s {
            challenges = start_challenge s.challenges (repository.hash_token token) user.id now;
          },
          second_factor_required token,
        )
        else sign_in
            (record s {
              throttle = record_success s.throttle client;
              store = repository.delete_expired_sessions s.store now;
            })
            user password

    abbrev pub reject : AuthService → AuthService × LogIn
    reject s = (record s { throttle = record_failure s.throttle client now }, wrong_credentials)

    abbrev pub with_credentials :
        AuthService → String → String → Answer (Option Credentials) → AuthService × LogIn
    with_credentials s typed token (error message) = (s, failed message)
    with_credentials s typed token (ok none) = reject s
    with_credentials s typed token (ok (some found)) =
        if repository.verify_password found.password_hash typed
        then enter s token found.user
        else reject s

    abbrev pub unless_throttled : AuthService → Check → AuthService × LogIn → AuthService × LogIn
    unless_throttled s allowed rest = rest
    unless_throttled s (too_many_requests minutes) rest = (s, throttled minutes)

    abbrev pub with_mode : AuthService → Answer AuthMode → AuthService × LogIn → AuthService × LogIn
    with_mode s (error message) rest = (s, failed message)
    with_mode s (ok accounts) rest = rest
    with_mode s (ok kept_open) rest = (s, no_accounts)
    with_mode s (ok undecided) rest = (s, no_accounts)

    unfoldable pub log_in : AuthService → String → String → String → AuthService × LogIn
    log_in s email typed token = with_mode s (repository.mode s.store) (
        unless_throttled s (check s.throttle client now)
          (with_credentials s typed token (repository.find_credentials s.store email)))

    abbrev pub with_user : AuthService → SignInMethod → Answer (Option User) → AuthService × LogIn
    with_user s method (error message) = (s, failed message)
    with_user s method (ok none) = (s, no_user)
    with_user s method (ok (some user)) = sign_in s user method

    abbrev pub wrong : AuthService → Map Challenge × Bool → AuthService × LogIn
    wrong s (challenges, exhausted) = (
      record s { challenges = challenges; throttle = record_failure s.throttle client now },
      if exhausted then too_many_codes else wrong_code,
    )

    abbrev pub after_code : ℕ → ℕ → AuthService × Answer (Option SignInMethod) → AuthService × LogIn
    after_code challenge_hash user_id (s, error message) = (s, failed message)
    after_code challenge_hash user_id (s, ok none) =
        wrong s (count_code_attempt s.challenges challenge_hash)
    after_code challenge_hash user_id (s, ok (some method)) =
        let t = record s {
          challenges = remove s.challenges challenge_hash;
          throttle = record_success s.throttle client;
        } in
        with_user t method (repository.find_user t.store user_id)

    abbrev pub forget : AuthService → ℕ → AuthService × LogIn
    forget s challenge_hash =
        (record s { challenges = remove s.challenges challenge_hash }, expired)

    abbrev pub with_challenge : AuthService → ℕ → List ℕ → Option Challenge → AuthService × LogIn
    with_challenge s challenge_hash typed none = forget s challenge_hash
    with_challenge s challenge_hash typed (some pending) =
        if ltb_ℤ now pending.expires_at_ms
        then after_code challenge_hash pending.user_id
            (check_second_factor s pending.user_id typed now)
        else forget s challenge_hash

    unfoldable pub verify_second_factor : AuthService → String → List ℕ → AuthService × LogIn
    verify_second_factor s challenge typed =
        let challenge_hash = repository.hash_token challenge in
        unless_throttled s (check s.throttle client now)
          (with_challenge s challenge_hash typed (lookup s.challenges challenge_hash))
