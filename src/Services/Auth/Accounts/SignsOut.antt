-- ===== src/Services/Auth/Accounts/SignsOut.antt =====
-- What a change of a password in backend/src/services/auth_service.rs leaves.
use Prim.Native.String.{String}
use on_air_record.Base.{
  ℕ, ◌≡◌, ◌≢◌, refl, ap, ◌⊎◌, inl, inr, Bool, true, Bool-cases, ◌==◌, Option, none, some, List, [],
  ◌∷◌, map, All, All-map, arith, if_branches, option_branches,
}
use on_air_record.Base.Filter.{filter, filter-passes}
use on_air_record.Base.Int.{ℤ}
use on_air_record.Error.{AppError, Result, success_of, err}
use on_air_record.Repositories.Accounts.{
  UserRow, SessionRow, Store, Step, find_row, with_password, update_password,
}
use on_air_record.Repositories.Accounts.Factors.{stays_in, delete_sessions_for_user}
use on_air_record.Services.Auth.Accounts.Texts.{validate_password}
use on_air_record.Services.Auth.Accounts.{
  Faults, unless_fault, and_then, done, replace_password, set_password, change_own_password,
}

and_then_branches :
    {A B : Type 0} (P : Store × Result B → Type 0) (r : Store × Result A) (rest : A → Step B)
    → ((a : A) → r.1 ≡ success_of a → P (rest a r.0))
    → ((e : AppError) → r.1 ≡ err e → P (r.0, err e))
    → P (and_then r rest)
unfolding and_then
and_then_branches P (s, success_of a) rest good bad = good a refl
and_then_branches P (s, err e) rest good bad = bad e refl

others_stay :
    (user_id : ℕ) (keep : Option ℕ) (row : SessionRow)
    → stays_in user_id keep row ≡ true
    → (row.user_id ≢ user_id) ⊎ (some row.token_hash ≡ keep)
others_stay user_id none row e = inl (ground arith)
others_stay user_id (some hash) row e = elim (Bool-cases (row.token_hash == hash)) [
  | inl found ↦ let same : row.token_hash ≡ hash = ground arith in inr (ap some same)
  | inr missing ↦ inl (ground arith)
]

module _ (hash_password : String → Result String) (s : Store) (user_id : ℕ) (new : String)
    (faults : Faults) (keep : Option ℕ) where
  -- On success the account has the hash of the new password, and no session is its own but the one
  -- that is kept. After an error all is as it was, unless the database refused to end the sessions.
  unfoldable pub Ended : Store × Result Unit → Type 0
  Ended (t, success_of _) =
      All (λ x. (x.user_id ≢ user_id) ⊎ (some x.token_hash ≡ keep)) t.sessions
      × ((hash : String) × ((hash_password new ≡ success_of hash)
            × All (λ r. (r.id ≡ user_id) → r.password_hash ≡ hash) t.users))
  Ended (t, err error) = (t ≡ s) ⊎ (faults.second ≡ some error)

password_given :
    (user_id : ℕ) (hash : String) (now : ℤ) (rows : List UserRow)
    → All
        (λ r. (r.id ≡ user_id) → r.password_hash ≡ hash)
        (map (with_password user_id hash now) rows)
password_given user_id hash now [] = tt
password_given user_id hash now (r ∷ rows) =
    (λ e. ground arith, password_given user_id hash now rows)

module _ (same_email : String → String → Bool) (hash_password : String → Result String)
    (verify_password : String → String → Bool) (hash_token : String → ℕ) where
  -- The second write, after the hash was stored in `t`.
  sessions-Ended :
      (s t : Store) (user_id : ℕ) (new hash : String) (faults : Faults) (keep : Option ℕ)
      (o : Option AppError)
      → faults.second ≡ o
      → hash_password new ≡ success_of hash
      → All (λ r. (r.id ≡ user_id) → r.password_hash ≡ hash) t.users
      → Ended hash_password s user_id new faults keep
          (unless_fault o (done (delete_sessions_for_user user_id keep)) t)
  unfolding Ended unless_fault delete_sessions_for_user
  sessions-Ended s t user_id new hash faults keep none e hashed given = (
    All-map _ (λ x. (x.user_id ≢ user_id) ⊎ (some x.token_hash ≡ keep))
        (filter (stays_in user_id keep) t.sessions) (others_stay user_id keep)
        (filter-passes (stays_in user_id keep) t.sessions),
    (hash, (hashed, given)),
  )
  sessions-Ended s t user_id new hash faults keep (some error) e hashed given = inr e

  stored-Ended :
      (s : Store) (user_id : ℕ) (new hash : String) (now : ℤ) (faults : Faults) (keep : Option ℕ)
      (first : Option AppError)
      → hash_password new ≡ success_of hash
      → Ended hash_password s user_id new faults keep (
          and_then
            (unless_fault first (update_password user_id hash now) s)
            (λ _. unless_fault faults.second (done (delete_sessions_for_user user_id keep))))
  unfolding unless_fault update_password and_then Ended
  stored-Ended s user_id new hash now faults keep (some error) hashed = inl refl
  stored-Ended s user_id new hash now faults keep none hashed =
      option_branches
        (λ (r : Store × Result Unit). Ended hash_password s user_id new faults keep (
          and_then r
            (λ _. unless_fault faults.second (done (delete_sessions_for_user user_id keep)))))
        (find_row s.users user_id) _ _ (λ _. inl refl)
        (λ _ _.
          sessions-Ended s (record s { users = map (with_password user_id hash now) s.users })
            user_id new hash faults keep faults.second refl hashed
            (password_given user_id hash now s.users))

  replace_password-Ended :
      (s : Store) (user_id : ℕ) (new : String) (now : ℤ) (faults : Faults) (keep : Option ℕ)
      → Ended hash_password s user_id new faults keep (
          replace_password same_email hash_password verify_password hash_token user_id new now
            faults keep s)
  unfolding replace_password Ended
  replace_password-Ended s user_id new now faults keep =
      and_then_branches (Ended hash_password s user_id new faults keep) (s, validate_password new) _
        (λ _ _.
          and_then_branches (Ended hash_password s user_id new faults keep) (s, hash_password new) _
            (λ hash hashed. stored-Ended s user_id new hash now faults keep faults.first hashed)
            (λ _ _. inl refl))
        (λ _ _. inl refl)

  -- Changing a password: when it succeeds, every session that is left belongs to another account, or is the
  -- one with the hash of the cookie that asked (for a change of one's own; for an admin's change none is
  -- kept), and the account has the hash of the new password; when it fails, nothing has changed, unless the database refused to end the sessions.
  pub passwords-Ended :
      (s : Store) (user_id : ℕ) (current new token : String) (now : ℤ) (faults : Faults)
      → Ended hash_password s user_id new faults (some (hash_token token)) (
          change_own_password same_email hash_password verify_password hash_token user_id current
            new token now faults s)
        × Ended hash_password s user_id new faults none (
            set_password same_email hash_password verify_password hash_token user_id new now faults
              s)
  unfolding change_own_password set_password Ended
  passwords-Ended s user_id current new token now faults = (
    option_branches (Ended hash_password s user_id new faults (some (hash_token token)))
        (find_row s.users user_id) _ _ (λ _. inl refl)
        (λ row _.
          if_branches (Ended hash_password s user_id new faults (some (hash_token token)))
            (verify_password row.password_hash current) _ _
            (λ _. replace_password-Ended s user_id new now faults (some (hash_token token)))
            (λ _. inl refl)),
    replace_password-Ended s user_id new now faults none,
  )
