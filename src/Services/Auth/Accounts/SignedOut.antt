-- ===== src/Services/Auth/Accounts/SignedOut.antt =====
-- The account behind a cookie (resolve of backend/src/services/auth_service.rs) after a log out and after a
-- change of a password.
use Prim.Native.String.{String}
use on_air_record.Base.{
  ℕ, ◌≡◌, ◌≢◌, sym, ◌∙◌, subst, ap, ◌⊎◌, inl, inr, Bool, true, false, not, Option, none, some, List,
  [], ◌∷◌, All, ◌==◌, arith, if_branches, option_branches,
}
use on_air_record.Base.Filter.{filter, filter-passes}
use on_air_record.Base.Int.{ℤ, ltb_ℤ}
use on_air_record.Error.{AppError, Result, success_of, err}
use on_air_record.Models.Access.{User}
use on_air_record.Repositories.Accounts.{UserRow, SessionRow, Store, find_row}
use on_air_record.Repositories.Accounts.Factors.{
  SessionRecord, find_hash, find_session, join_user, delete_session,
}
use on_air_record.Services.Auth.Accounts.{
  Faults, unless_fault, change_own_password, set_password, log_out,
}
use on_air_record.Services.Auth.Accounts.Tokens.{resolve}
use on_air_record.Services.Auth.Accounts.SignsOut.{Ended, passwords-Ended}

-- Whoever an account lookup names satisfies P.
abbrev pub IfSome : {A : Type 0} → (A → Type 0) → Option A → Type 0
IfSome P none = Unit
IfSome P (some a) = P a

find_row-id : (rows : List UserRow) (k : ℕ) → IfSome (λ r. r.id ≡ k) (find_row rows k)
unfolding find_row
find_row-id [] k = tt
find_row-id (r ∷ rows) k =
    if_branches (IfSome (λ x. x.id ≡ k)) (r.id == k) _ _ (λ e. ground arith)
      (λ _. find_row-id rows k)

-- A row that is found has the hash, and whatever all rows have.
find_hash-Holds :
    (P : SessionRow → Type 0) (rows : List SessionRow) (hash : ℕ)
    → All P rows
    → IfSome (λ r. P r × (r.token_hash ≡ hash)) (find_hash rows hash)
unfolding find_hash
find_hash-Holds P [] hash h = tt
find_hash-Holds P (r ∷ rows) hash (p, h) =
    if_branches (IfSome (λ x. P x × (x.token_hash ≡ hash))) (r.token_hash == hash) _ _
      (λ e. (p, ground arith)) (λ _. find_hash-Holds P rows hash h)

joined_user :
    (Q : ℕ → Type 0) (users : List UserRow) (row : SessionRow)
    → Q row.user_id
    → IfSome (λ f. Q f.user.id) (join_user users row)
joined_user Q users row q =
    option_branches (IfSome (λ (f : SessionRecord). Q f.user.id)) (find_row users row.user_id) _ _
      (λ _. tt)
      (λ user e.
        subst Q (sym (subst (IfSome (λ r. r.id ≡ row.user_id)) e (find_row-id users row.user_id)))
          q)

found_user :
    (P : SessionRow → Type 0) (Q : ℕ → Type 0) (s : Store) (hash : ℕ) (now : ℤ)
    → All P s.sessions
    → ((row : SessionRow) → P row → row.token_hash ≡ hash → Q row.user_id)
    → IfSome (λ f. Q f.user.id) (find_session s hash now)
unfolding find_session
found_user P Q s hash now h then_named =
    option_branches (IfSome (λ (f : SessionRecord). Q f.user.id)) (find_hash s.sessions hash) _ _
      (λ _. tt)
      (λ row e.
        let (p, same) =
          subst (IfSome (λ r. P r × (r.token_hash ≡ hash))) e
            (find_hash-Holds P s.sessions hash h) in
        if_branches (IfSome (λ (f : SessionRecord). Q f.user.id)) (ltb_ℤ now row.expires_at_ms) _ _
          (λ _. joined_user Q s.users row (then_named row p same)) (λ _. tt))

-- What holds of the tables when the call worked.
unfoldable pub OnSuccess : (Store → Type 0) → Store × Result Unit → Type 0
OnSuccess P (t, success_of _) = P t
OnSuccess P (t, err error) = Unit

module _ (same_email : String → String → Bool) (hash_password : String → Result String)
    (verify_password : String → String → Bool) (hash_token : String → ℕ) where
  -- The account that a cookie stands for, if any.
  abbrev pub account_of : String → ℤ → Option AppError → Store → Option User
  account_of token later fault t =
      (resolve same_email hash_password verify_password hash_token (some token) later fault t).1

  resolved :
      (P : SessionRow → Type 0) (Q : ℕ → Type 0) (s : Store) (token : String) (later : ℤ)
      (fault : Option AppError)
      → All P s.sessions
      → ((row : SessionRow) → P row → row.token_hash ≡ hash_token token → Q row.user_id)
      → IfSome (λ u. Q u.id) (account_of token later fault s)
  unfolding resolve
  resolved P Q s token later fault h then_named =
      option_branches (λ (r : Store × Option User). IfSome (λ u. Q u.id) r.1)
        (find_session s (hash_token token) later) _ _ (λ _. tt)
        (λ f e.
          subst (IfSome (λ f. Q f.user.id)) e
            (found_user P Q s (hash_token token) later h then_named))

  after_change :
      (s : Store) (user_id : ℕ) (new other : String) (faults : Faults) (keep : Option ℕ)
      (r : Store × Result Unit) (later : ℤ) (fault : Option AppError)
      → Ended hash_password s user_id new faults keep r
      → OnSuccess
          (λ t.
            IfSome
              (λ u. (u.id ≢ user_id) ⊎ (some (hash_token other) ≡ keep))
              (account_of other later fault t))
          r
  unfolding Ended OnSuccess
  after_change s user_id new other faults keep (t, success_of _) later fault (stay, hashed) =
      resolved (λ x. (x.user_id ≢ user_id) ⊎ (some x.token_hash ≡ keep))
        (λ k. (k ≢ user_id) ⊎ (some (hash_token other) ≡ keep)) t other later fault stay
        (λ row e same. elim e [ inl ne ↦ inl ne | inr kept ↦ inr (ap some (sym same) ∙ kept) ])
  after_change s user_id new other faults keep (t, err error) later fault h = tt

  after_log_out :
      (s : Store) (token : String) (refusal : Option AppError) (later : ℤ) (fault : Option AppError)
      → OnSuccess
          (λ t. IfSome (λ _. false ≡ true) (account_of token later fault t))
          (log_out same_email hash_password verify_password hash_token token refusal s)
  unfolding log_out unless_fault delete_session OnSuccess
  after_log_out s token (some error) later fault = tt
  after_log_out s token none later fault =
      resolved (λ r. not (r.token_hash == hash_token token) ≡ true) (λ _. false ≡ true)
        (record s { sessions = filter (λ r. not (r.token_hash == hash_token token)) s.sessions })
        token later fault (filter-passes (λ r. not (r.token_hash == hash_token token)) s.sessions)
        (λ row e same. absurd (gone row e same))
    where
      gone :
          (row : SessionRow)
          → not (row.token_hash == hash_token token) ≡ true
          → row.token_hash ≡ hash_token token
          → ⊥
      gone row e same = ground arith

  -- Once an account's own change of its password has succeeded, no cookie is resolved to that account any
  -- more but one with the hash of the cookie that asked; once an admin has set its password, none is; and once
  -- a cookie has been logged out, it is resolved to nobody.
  pub signed_out :
      (s : Store) (user_id : ℕ) (current new token other : String) (now later : ℤ) (faults : Faults)
      (refusal fault : Option AppError)
      → OnSuccess
          (λ t.
            IfSome
              (λ u. (u.id ≢ user_id) ⊎ (some (hash_token other) ≡ some (hash_token token)))
              (account_of other later fault t))
          (change_own_password same_email hash_password verify_password hash_token user_id current
            new token now faults s)
        × OnSuccess
            (λ t.
              IfSome
                (λ u. (u.id ≢ user_id) ⊎ (some (hash_token other) ≡ none))
                (account_of other later fault t))
            (set_password same_email hash_password verify_password hash_token user_id new now faults
              s)
        × OnSuccess
            (λ t. IfSome (λ _. false ≡ true) (account_of token later fault t))
            (log_out same_email hash_password verify_password hash_token token refusal s)
  signed_out s user_id current new token other now later faults refusal fault =
      let (own, set) =
        passwords-Ended same_email hash_password verify_password hash_token s user_id current new
          token now faults in
      (
        after_change s user_id new other faults (some (hash_token token)) _ later fault own,
        after_change s user_id new other faults none _ later fault set,
        after_log_out s token refusal later fault,
      )
