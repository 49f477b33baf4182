-- ===== src/Services/Auth/SignIn/SecondFactor.antt =====
-- The second step of a sign in: who it lets in, and that its challenge is used up.
use Prim.Native.String.{String}
use on_air_record.Base.{
  ℕ, ◌≡◌, refl, Bool, true, false, Option, none, some, List, if_branches, ◌==◌, ◌&&◌, length,
}
use on_air_record.Base.Filter.{filter}
use on_air_record.Base.Int.{ℤ, ◌<ℤ◌, ltb_ℤ, ltb_ℤ→lt}
use on_air_record.Base.Maps.{lookup, lookup-remove_self}
use on_air_record.Models.Access.{User}
use on_air_record.Models.Activity.{SignInMethod}
use on_air_record.Services.Playback.{Answer, ok, error}
use on_air_record.Services.Auth.Throttle.{
  IpAddr, Check, allowed, too_many_requests, check, record_failure,
}
use on_air_record.Services.Auth.Challenges.{Challenge, count_code_attempt}
use on_air_record.Services.Auth.SignIn.{
  Repository, TotpRecord, AuthService, LogIn, signed_in, second_factor_required, no_accounts,
  wrong_credentials, expired, wrong_code, too_many_codes, no_user, throttled, failed,
  unless_throttled, finish_session, check_second_factor, check_app_code, check_secret, accept_step,
  after_record, after_recovery, with_user, wrong, after_code, with_challenge, verify_second_factor,
  verify, all, is_ascii_digit, is_ascii_alphanumeric,
}

module _ (repository : Repository) where
  -- A check of a code changes the database at most.
  unfoldable pub Kept : AuthService repository → AuthService repository → Type 0
  Kept s t = (t.throttle ≡ s.throttle) × (t.challenges ≡ s.challenges)

  accept_step-Kept :
      (s : AuthService repository) (user_id : ℕ) (o : Option ℤ)
      → Kept s (accept_step repository s user_id o).0
  unfolding accept_step Kept
  accept_step-Kept s user_id none = (refl, refl)
  accept_step-Kept s user_id (some step) =
      recorded (repository.record_totp_step s.store user_id step)
    where
      recorded :
          (r : repository.Store × Option String)
          → ((after_record repository s r).0.throttle ≡ s.throttle)
            × ((after_record repository s r).0.challenges ≡ s.challenges)
      recorded (store, none) = (refl, refl)
      recorded (store, some message) = (refl, refl)

  check_app_code-Kept :
      (s : AuthService repository) (user_id : ℕ) (compact : List ℕ) (now : ℤ)
      (o : Answer TotpRecord)
      → Kept s (check_app_code repository s user_id compact now o).0
  unfolding Kept
  check_app_code-Kept s user_id compact now (error message) = (refl, refl)
  check_app_code-Kept s user_id compact now (ok found) = with_secret found.secret
    where
      with_secret :
          (o : Option (List ℕ))
          → Kept s (check_secret repository s user_id compact now o found.last_step).0
      with_secret none = (refl, refl)
      with_secret (some secret) =
          accept_step-Kept s user_id (verify repository secret compact now found.last_step)

  after_recovery-Kept :
      (s : AuthService repository) (r : repository.Store × Answer Bool)
      → Kept s (after_recovery repository s r).0
  unfolding Kept
  after_recovery-Kept s (store, ok used) = (refl, refl)
  after_recovery-Kept s (store, error message) = (refl, refl)

  check_second_factor-Kept :
      (s : AuthService repository) (user_id : ℕ) (typed : List ℕ) (now : ℤ)
      → Kept s (check_second_factor repository s user_id typed now).0
  unfolding check_second_factor
  check_second_factor-Kept s user_id typed now =
      let compact = filter is_ascii_alphanumeric typed in
      if_branches (λ (r : AuthService repository × Answer (Option SignInMethod)). Kept s r.0)
        (length compact == 6 && all is_ascii_digit compact) _ _
        (λ e. check_app_code-Kept s user_id compact now (repository.find_totp s.store user_id))
        (λ e. after_recovery-Kept s (repository.use_recovery_code s.store user_id typed))

  module _ (client : IpAddr) (now : ℤ) where
    unfoldable pub Settles :
        AuthService repository → ℕ → List ℕ → AuthService repository × LogIn → Type 0
    Settles s h typed (t, signed_in user token method) =
        (pending : Challenge) × ((check s.throttle client now ≡ allowed)
          × (lookup s.challenges h ≡ some pending)
          × (now <ℤ pending.expires_at_ms)
          × ((check_second_factor repository s pending.user_id typed now).1 ≡ ok (some method))
          × (lookup t.challenges h ≡ none))
    Settles s h typed (t, wrong_code) =
        (t.challenges ≡ (count_code_attempt s.challenges h).0)
        × (t.throttle ≡ record_failure s.throttle client now)
    Settles s h typed (t, too_many_codes) =
        (t.challenges ≡ (count_code_attempt s.challenges h).0)
        × (t.throttle ≡ record_failure s.throttle client now)
    Settles s h typed (t, expired) = (lookup t.challenges h ≡ none) × (t.throttle ≡ s.throttle)
    Settles s h typed (t, throttled minutes) =
        (t ≡ s) × (check s.throttle client now ≡ too_many_requests minutes)
    Settles s h typed (t, no_user) = lookup t.challenges h ≡ none
    Settles s h typed (t, failed message) = Unit
    Settles s h typed (t, second_factor_required token) = false ≡ true
    Settles s h typed (t, no_accounts) = false ≡ true
    Settles s h typed (t, wrong_credentials) = false ≡ true

    -- The code was right and the challenge is gone.
    unfoldable IsAccepted : AuthService repository → ℕ → List ℕ → SignInMethod → Type 0
    IsAccepted s h typed method =
        (pending : Challenge) × ((check s.throttle client now ≡ allowed)
          × (lookup s.challenges h ≡ some pending)
          × (now <ℤ pending.expires_at_ms)
          × ((check_second_factor repository s pending.user_id typed now).1 ≡ ok (some method)))

    finish-Settles :
        (s u : AuthService repository) (h : ℕ) (typed : List ℕ) (user : User)
        (method : SignInMethod) (r : repository.Store × Answer String)
        → IsAccepted s h typed method
        → lookup u.challenges h ≡ none
        → Settles s h typed (finish_session repository u user method r)
    unfolding finish_session Settles IsAccepted
    finish-Settles s u h typed user method (store, ok token)
          (pending, (may, has, open_still, right)) gone =
        (pending, (may, has, open_still, right, gone))
    finish-Settles s u h typed user method (store, error message) accepted gone = tt

    user-Settles :
        (s u : AuthService repository) (h : ℕ) (typed : List ℕ) (method : SignInMethod)
        (o : Answer (Option User))
        → IsAccepted s h typed method
        → lookup u.challenges h ≡ none
        → Settles s h typed (with_user repository client now u method o)
    unfolding Settles
    user-Settles s u h typed method (error message) accepted gone = tt
    user-Settles s u h typed method (ok none) accepted gone = gone
    user-Settles s u h typed method (ok (some user)) accepted gone =
        finish-Settles s u h typed user method (repository.start_session u.store user.id) accepted
          gone

    wrong-Settles :
        (s u : AuthService repository) (h : ℕ) (typed : List ℕ)
        → Kept s u
        → Settles s h typed (wrong repository client now u (count_code_attempt u.challenges h))
    unfolding Settles Kept
    wrong-Settles s u h typed (throttle, challenges) =
        if_branches
          (λ o.
            Settles s h typed
              ((wrong repository client now u (count_code_attempt u.challenges h)).0, o))
          (count_code_attempt u.challenges h).1 _ _ (λ e. (rw challenges refl, rw throttle refl))
          (λ e. (rw challenges refl, rw throttle refl))

    code-Settles :
        (s : AuthService repository) (h : ℕ) (typed : List ℕ) (pending : Challenge)
        (r : AuthService repository × Answer (Option SignInMethod))
        → check s.throttle client now ≡ allowed
        → lookup s.challenges h ≡ some pending
        → now <ℤ pending.expires_at_ms
        → (check_second_factor repository s pending.user_id typed now).1 ≡ r.1
        → Kept s r.0
        → Settles s h typed (after_code repository client now h pending.user_id r)
    unfolding Settles IsAccepted
    code-Settles s h typed pending (t, error message) may has live same kept = tt
    code-Settles s h typed pending (t, ok none) may has live same kept =
        wrong-Settles s t h typed kept
    code-Settles s h typed pending (t, ok (some method)) may has live same kept =
        user-Settles s _ h typed method (repository.find_user t.store pending.user_id)
          (pending, (may, has, live, same)) (lookup-remove_self t.challenges h)

    challenge-Settles :
        (s : AuthService repository) (h : ℕ) (typed : List ℕ) (o : Option Challenge)
        → check s.throttle client now ≡ allowed
        → lookup s.challenges h ≡ o
        → Settles s h typed (with_challenge repository client now s h typed o)
    unfolding Settles
    challenge-Settles s h typed none may has = (lookup-remove_self s.challenges h, refl)
    challenge-Settles s h typed (some pending) may has =
        if_branches (Settles s h typed) (ltb_ℤ now pending.expires_at_ms) _ _
          (λ live.
            code-Settles s h typed pending
              (check_second_factor repository s pending.user_id typed now) may has
              (ltb_ℤ→lt now pending.expires_at_ms live) refl
              (check_second_factor-Kept s pending.user_id typed now))
          (λ late. (lookup-remove_self s.challenges h, refl))

    throttle-Settles :
        (s : AuthService repository) (h : ℕ) (typed : List ℕ) (c : Check)
        (rest : AuthService repository × LogIn)
        → check s.throttle client now ≡ c
        → (c ≡ allowed → Settles s h typed rest)
        → Settles s h typed (unless_throttled repository client now s c rest)
    unfolding Settles
    throttle-Settles s h typed allowed rest e later = later refl
    throttle-Settles s h typed (too_many_requests minutes) rest e later = (refl, e)

    -- A second step gives a session only to an address that may try, for a challenge that waits and has
    -- not expired, with a code that was found right, and the challenge is gone after it. A wrong code is
    -- counted against the address and against the challenge; an expired challenge is dropped; an
    -- address that must wait changes nothing.
    pub verify_second_factor-Settles :
        (s : AuthService repository) (challenge : String) (typed : List ℕ)
        → Settles s
            (repository.hash_token challenge)
            typed
            (verify_second_factor repository client now s challenge typed)
    unfolding verify_second_factor
    verify_second_factor-Settles s challenge typed =
        let h = repository.hash_token challenge in
        throttle-Settles s h typed (check s.throttle client now) _ refl
          (λ may. challenge-Settles s h typed (lookup s.challenges h) may refl)
