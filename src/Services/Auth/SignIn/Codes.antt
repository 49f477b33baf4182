-- ===== src/Services/Auth/SignIn/Codes.antt =====
-- The codes of an authenticator app: verify of backend/src/services/totp.rs, and its caller
-- check_second_factor of backend/src/services/auth_service.rs.
use on_air_record.Base.{
  ℕ, ◌≡◌, ◌≢◌, refl, subst, ap, Bool, true, false, Option, none, some, List, [], ◌∷◌, length, not,
  ◌&&◌, if_branches, ◌==◌, ==_iff, arith, All,
}
use on_air_record.Base.Filter.{filter}
use on_air_record.Base.Int.{ℤ, pos, ◌+ℤ◌, ◌-ℤ◌, ◌≤ℤ◌, ◌<ℤ◌, ltb_ℤ→lt, int_laws}
use Prim.Native.String.{String}
use on_air_record.Models.Activity.{SignInMethod, code}
use on_air_record.Services.Playback.{Answer, ok, error, unwrap_or}
use on_air_record.Services.Auth.SignIn.{
  AuthService, TotpRecord, accept_step, after_record, check_secret, check_app_code, after_recovery,
  check_second_factor, is_ascii_alphanumeric, Repository, verify, find_step, step_at, is_newer,
  parse_from, is_whitespace, all, is_ascii_digit,
}

-- After every step that was accepted before.
abbrev pub Newer : Option ℤ → ℤ → Type 0
Newer none step = Unit
Newer (some last) step = last <ℤ step

find_step-All :
    (P : ℤ → Type 0) (test : ℤ → Bool) (steps : List ℤ) (step : ℤ)
    → All (λ s. test s ≡ true → P s) steps
    → find_step test steps ≡ some step
    → P step
unfolding find_step
find_step-All P test [] step h e = ground (arith, e)
find_step-All P test (s ∷ steps) step h e =
    if_branches (λ o. o ≡ some step → P step) (test s) (some s) (find_step test steps)
      (λ t found. subst P (ap (λ o. unwrap_or o s) found) (h.0 t))
      (λ t found. find_step-All P test steps step h.1 found) e

left_of : (a b : Bool) → a && b ≡ true → a ≡ true
left_of true b e = refl
left_of false b e = e

right_of : (a b : Bool) → a && b ≡ true → b ≡ true
right_of true b e = e
right_of false b e = ground (arith, e)

after_test : (last : Option ℤ) (step : ℤ) → is_newer last step ≡ true → Newer last step
after_test none step e = tt
after_test (some last) step e = ltb_ℤ→lt last step e

module _ (repository : Repository) (secret : List ℕ) where
  -- A code of that secret, for a step next to the present one and newer than the last accepted.
  unfoldable pub IsCurrent : List ℕ → ℤ → Option ℤ → ℤ → Type 0
  IsCurrent typed now_ms last step =
      (repository.code_at secret step ≡ parse_from 0 (filter (λ c. not (is_whitespace c)) typed))
      × Newer last step
      × (step_at now_ms -ℤ pos 1 ≤ℤ step)
      × (step ≤ℤ step_at now_ms +ℤ pos 1)

  one-IsCurrent :
      (typed : List ℕ) (now_ms : ℤ) (last : Option ℤ) (step : ℤ)
      → (step_at now_ms -ℤ pos 1 ≤ℤ step)
      → (step ≤ℤ step_at now_ms +ℤ pos 1)
      → is_newer last step
          && (repository.code_at secret step
              == parse_from 0 (filter (λ c. not (is_whitespace c)) typed))
        ≡ true
      → IsCurrent typed now_ms last step
  unfolding IsCurrent
  one-IsCurrent typed now_ms last step low high e =
      let value = parse_from 0 (filter (λ c. not (is_whitespace c)) typed) in
      let same = right_of (is_newer last step) (repository.code_at secret step == value) e in
      (
        (==_iff (repository.code_at secret step) value).0 same,
        after_test last step (left_of (is_newer last step) _ e),
        low,
        high,
      )

  verify-IsCurrent :
      (typed : List ℕ) (now_ms : ℤ) (last : Option ℤ) (step : ℤ)
      → verify repository secret typed now_ms last ≡ some step
      → IsCurrent typed now_ms last step
  unfolding verify
  verify-IsCurrent typed now_ms last step e =
      let digits = filter (λ c. not (is_whitespace c)) typed in
      let now = step_at now_ms in
      let test =
        λ (s : ℤ). is_newer last s && (repository.code_at secret s == parse_from 0 digits) in
      let P = IsCurrent typed now_ms last in
      let one = one-IsCurrent typed now_ms last in
      if_branches (λ o. o ≡ some step → P step) (length digits == 6 && all is_ascii_digit digits)
        (find_step test ((now -ℤ pos 1) ∷ now ∷ (now +ℤ pos 1) ∷ [])) none
        (λ six found.
          find_step-All P test ((now -ℤ pos 1) ∷ now ∷ (now +ℤ pos 1) ∷ []) step
            (
              one (now -ℤ pos 1) (omega int_laws) (omega int_laws),
              (
                one now (omega int_laws) (omega int_laws),
                (one (now +ℤ pos 1) (omega int_laws) (omega int_laws), tt),
              ),
            )
            found)
        (λ other found. ground (arith, found)) e

-- A step that was recorded is read back from the account, if it can be read.
abbrev pub Remembers : Repository → Type 0
Remembers repository =
    (store t : repository.Store) (user_id : ℕ) (step : ℤ) (after : TotpRecord)
    → repository.record_totp_step store user_id step ≡ (t, none)
    → repository.find_totp t user_id ≡ ok after
    → after.last_step ≡ some step

-- Between the database before and after, with the code as typed.
unfoldable pub Spent :
    (repository : Repository) → repository.Store → repository.Store → ℕ → List ℕ → ℤ → Type 0
Spent repository before t user_id typed now =
    (found : TotpRecord) × ((secret : List ℕ) × ((step : ℤ) × ((repository.find_totp before user_id
            ≡ ok found)
          × (found.secret ≡ some secret)
          × IsCurrent repository secret (filter is_ascii_alphanumeric typed) now found.last_step
              step
          × ((after : TotpRecord)
              → repository.find_totp t user_id ≡ ok after
              → after.last_step ≡ some step))))

module _ (repository : Repository) (remembers : Remembers repository) where
  recorded-Spent :
      (s : AuthService repository) (user_id : ℕ) (typed : List ℕ) (now : ℤ) (found : TotpRecord)
      (secret : List ℕ) (step : ℤ) (r : repository.Store × Option String)
      → repository.find_totp s.store user_id ≡ ok found
      → found.secret ≡ some secret
      → IsCurrent repository secret (filter is_ascii_alphanumeric typed) now found.last_step step
      → repository.record_totp_step s.store user_id step ≡ r
      → (after_record repository s r).1 ≡ ok (some code)
      → Spent repository s.store (after_record repository s r).0.store user_id typed now
  unfolding Spent
  recorded-Spent s user_id typed now found secret step (t, none) f g current e accepted = (
    found,
    (secret, (step, (f, g, current, λ after k. remembers s.store t user_id step after e k))),
  )
  recorded-Spent s user_id typed now found secret step (t, some m) f g current e accepted =
      ground (arith, accepted)

  accepted-Spent :
      (s : AuthService repository) (user_id : ℕ) (typed : List ℕ) (now : ℤ) (found : TotpRecord)
      (secret : List ℕ) (o : Option ℤ)
      → repository.find_totp s.store user_id ≡ ok found
      → found.secret ≡ some secret
      → verify repository secret (filter is_ascii_alphanumeric typed) now found.last_step ≡ o
      → (accept_step repository s user_id o).1 ≡ ok (some code)
      → Spent repository s.store (accept_step repository s user_id o).0.store user_id typed now
  unfolding accept_step
  accepted-Spent s user_id typed now found secret none f g e accepted = ground (arith, accepted)
  accepted-Spent s user_id typed now found secret (some step) f g e accepted =
      recorded-Spent s user_id typed now found secret step
        (repository.record_totp_step s.store user_id step) f g
        (verify-IsCurrent repository secret (filter is_ascii_alphanumeric typed) now found.last_step
          step e)
        refl accepted

  secret-Spent :
      (s : AuthService repository) (user_id : ℕ) (typed : List ℕ) (now : ℤ) (found : TotpRecord)
      (secret : Option (List ℕ))
      → repository.find_totp s.store user_id ≡ ok found
      → found.secret ≡ secret
      → let r =
          check_secret repository s user_id
            (filter is_ascii_alphanumeric typed)
            now
            secret
            found.last_step in
        r.1 ≡ ok (some code) → Spent repository s.store r.0.store user_id typed now
  secret-Spent s user_id typed now found none f g accepted = ground (arith, accepted)
  secret-Spent s user_id typed now found (some secret) f g accepted =
      accepted-Spent s user_id typed now found secret _ f g refl accepted

  app_code-Spent :
      (s : AuthService repository) (user_id : ℕ) (typed : List ℕ) (now : ℤ) (o : Answer TotpRecord)
      → repository.find_totp s.store user_id ≡ o
      → let r = check_app_code repository s user_id (filter is_ascii_alphanumeric typed) now o in
        r.1 ≡ ok (some code) → Spent repository s.store r.0.store user_id typed now
  app_code-Spent s user_id typed now (error message) f accepted = ground (arith, accepted)
  app_code-Spent s user_id typed now (ok found) f accepted =
      secret-Spent s user_id typed now found found.secret f refl accepted

  not_recovery :
      (s : AuthService repository) (r : repository.Store × Answer Bool)
      → (after_recovery repository s r).1 ≢ ok (some code)
  not_recovery s (t, ok true) e = ground (arith, e)
  not_recovery s (t, ok false) e = ground (arith, e)
  not_recovery s (t, error message) e = ground (arith, e)

  -- For a database that reads back a step that it recorded: a code of the app is accepted only for a time
  -- step of the account's secret at most one away from the present, and newer than the step that was
  -- recorded last; and the account, when it can be read afterwards, has the accepted step as the last one.
  pub check_second_factor-Spent :
      (s : AuthService repository) (user_id : ℕ) (typed : List ℕ) (now : ℤ)
      → (check_second_factor repository s user_id typed now).1 ≡ ok (some code)
      → Spent repository s.store
          (check_second_factor repository s user_id typed now).0.store
          user_id
          typed
          now
  unfolding check_second_factor
  check_second_factor-Spent s user_id typed now accepted =
      let compact = filter is_ascii_alphanumeric typed in
      if_branches
        (λ (r : AuthService repository × Answer (Option SignInMethod)).
          r.1 ≡ ok (some code) → Spent repository s.store r.0.store user_id typed now)
        (length compact == 6 && all is_ascii_digit compact) _ _
        (λ _. app_code-Spent s user_id typed now (repository.find_totp s.store user_id) refl)
        (λ _ e. absurd (not_recovery s (repository.use_recovery_code s.store user_id typed) e))
        accepted
