-- ===== src/Services/Auth/SignIn/Explained.antt =====
-- What each answer of a sign in says: who gets a session, and what a refusal changes.
use Prim.Native.String.{String}
use on_air_record.Base.{◌≡◌, refl, true, false, Option, none, some, if_branches}
use on_air_record.Base.Int.{ℤ}
use on_air_record.Models.Access.{AuthMode, accounts, kept_open, undecided}
use on_air_record.Models.Activity.{password}
use on_air_record.Services.Playback.{Answer, ok, error}
use on_air_record.Services.Auth.Throttle.{
  IpAddr, Check, allowed, too_many_requests, check, record_failure,
}
use on_air_record.Services.Auth.Challenges.{start_challenge}
use on_air_record.Services.Auth.SignIn.{
  Credentials, Repository, AuthService, LogIn, signed_in, second_factor_required, no_accounts,
  wrong_credentials, expired, wrong_code, too_many_codes, no_user, throttled, failed, enter,
  with_credentials, unless_throttled, with_mode, log_in, finish_session,
}

module _ (repository : Repository) (client : IpAddr) (now : ℤ) where
  -- The install has accounts, the address may try, and the password is the account's.
  unfoldable pub IsRightPassword : AuthService repository → String → String → Credentials → Type 0
  IsRightPassword s email typed found =
      (repository.mode s.store ≡ ok accounts)
      × (check s.throttle client now ≡ allowed)
      × (repository.find_credentials s.store email ≡ ok (some found))
      × (repository.verify_password found.password_hash typed ≡ true)

  unfoldable pub Explained :
      AuthService repository → String → String → AuthService repository × LogIn → Type 0
  Explained s email typed (t, signed_in user token method) =
      (found : Credentials) × (IsRightPassword s email typed found
        × (found.user ≡ user)
        × (user.two_factor ≡ false)
        × (t.challenges ≡ s.challenges))
  Explained s email typed (t, second_factor_required token) =
      (found : Credentials) × (IsRightPassword s email typed found
        × (found.user.two_factor ≡ true)
        × (t.throttle ≡ s.throttle)
        × (t.challenges
            ≡ start_challenge s.challenges (repository.hash_token token) found.user.id now))
  Explained s email typed (t, wrong_credentials) =
      (check s.throttle client now ≡ allowed)
      × (t.throttle ≡ record_failure s.throttle client now)
      × (t.challenges ≡ s.challenges)
  Explained s email typed (t, throttled minutes) =
      (t ≡ s) × (check s.throttle client now ≡ too_many_requests minutes)
  Explained s email typed (t, no_accounts) = t ≡ s
  Explained s email typed (t, failed message) = t.challenges ≡ s.challenges
  Explained s email typed (t, expired) = false ≡ true
  Explained s email typed (t, wrong_code) = false ≡ true
  Explained s email typed (t, too_many_codes) = false ≡ true
  Explained s email typed (t, no_user) = false ≡ true

  finish-Explained :
      (s u : AuthService repository) (email typed : String) (found : Credentials)
      (r : repository.Store × Answer String)
      → IsRightPassword s email typed found
      → found.user.two_factor ≡ false
      → u.challenges ≡ s.challenges
      → Explained s email typed (finish_session repository u found.user password r)
  unfolding finish_session Explained
  finish-Explained s u email typed found (store, ok token) right one_factor same =
      (found, (right, refl, one_factor, same))
  finish-Explained s u email typed found (store, error message) right one_factor same = same

  enter-Explained :
      (s : AuthService repository) (email typed token : String) (found : Credentials)
      → IsRightPassword s email typed found
      → Explained s email typed (enter repository client now s token found.user)
  unfolding enter Explained
  enter-Explained s email typed token found right =
      if_branches (Explained s email typed) found.user.two_factor _ _
        (λ two. (found, (right, two, refl, refl)))
        (λ one. finish-Explained s _ email typed found _ right one refl)

  credentials-Explained :
      (s : AuthService repository) (email typed token : String) (o : Answer (Option Credentials))
      → repository.mode s.store ≡ ok accounts
      → check s.throttle client now ≡ allowed
      → repository.find_credentials s.store email ≡ o
      → Explained s email typed (with_credentials repository client now s typed token o)
  unfolding Explained IsRightPassword
  credentials-Explained s email typed token (error message) mode may found = refl
  credentials-Explained s email typed token (ok none) mode may found = (may, refl, refl)
  credentials-Explained s email typed token (ok (some c)) mode may found =
      if_branches (Explained s email typed) (repository.verify_password c.password_hash typed) _ _
        (λ right. enter-Explained s email typed token c (mode, may, found, right))
        (λ other. (may, refl, refl))

  throttle-Explained :
      (s : AuthService repository) (email typed : String) (c : Check)
      (rest : AuthService repository × LogIn)
      → check s.throttle client now ≡ c
      → (c ≡ allowed → Explained s email typed rest)
      → Explained s email typed (unless_throttled repository client now s c rest)
  unfolding Explained
  throttle-Explained s email typed allowed rest e later = later refl
  throttle-Explained s email typed (too_many_requests minutes) rest e later = (refl, e)

  mode-Explained :
      (s : AuthService repository) (email typed : String) (m : Answer AuthMode)
      (rest : AuthService repository × LogIn)
      → (m ≡ ok accounts → Explained s email typed rest)
      → Explained s email typed (with_mode repository client now s m rest)
  unfolding Explained
  mode-Explained s email typed (error message) rest later = refl
  mode-Explained s email typed (ok accounts) rest later = later refl
  mode-Explained s email typed (ok kept_open) rest later = refl
  mode-Explained s email typed (ok undecided) rest later = refl

  -- A sign in gives a session only on an install with accounts, to an address that may try, for the
  -- right password of an account without a second factor; with one the right password earns only a
  -- challenge, and the count of failures stays. A wrong password is counted; an address that must wait,
  -- or an install without accounts, changes nothing; and a failed database leaves the challenges.
  pub log_in-Explained :
      (s : AuthService repository) (email typed token : String)
      → Explained s email typed (log_in repository client now s email typed token)
  unfolding log_in
  log_in-Explained s email typed token =
      mode-Explained s email typed (repository.mode s.store) _ (λ mode.
        throttle-Explained s email typed (check s.throttle client now) _ refl (λ may.
          credentials-Explained s email typed token (repository.find_credentials s.store email) mode
            may refl))
