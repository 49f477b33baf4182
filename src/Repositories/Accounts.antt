-- ===== src/Repositories/Accounts.antt =====
-- backend/src/repositories/auth_repository.rs: the accounts, their sessions and the login choice, as the
-- statements change them. Each is one transaction. Emails compare by the column's collation, which
-- is SQLite's and a parameter. A hash of a token is a number.
pub mod Factors
pub mod Admins
pub mod Guarded
pub mod Leaving
use Prim.Native.String.{String}
use on_air_record.Base.{
  ℕ, ◌+◌, Bool, true, false, ◌&&◌, ◌||◌, not, Option, none, some, List, [], ◌∷◌, ◌++◌, map, ◌==◌,
  leb, if◌then◌else◌,
}
use on_air_record.Base.Filter.{filter}
use on_air_record.Base.Int.{ℤ, ltb_ℤ, leb_ℤ}
use on_air_record.Error.{AppError, app_not_found, conflict, database, Result, success_of, err}
use on_air_record.Models.Access.{AuthMode, accounts, kept_open, undecided, User}
use on_air_record.Models.Activity.{Role, admin, listener}

pub record UserRow : Type 0 where
  pub id : ℕ
  pub email : String
  pub password_hash : String
  pub role : Role
  pub created_at_ms : ℤ
  pub password_changed_at_ms : ℤ
  pub totp_secret : Option (List ℕ)
  pub totp_pending_secret : Option (List ℕ)
  pub totp_last_step : Option ℤ

pub record SessionRow : Type 0 where
  pub token_hash : ℕ
  pub user_id : ℕ
  pub created_at_ms : ℤ
  pub expires_at_ms : ℤ
  pub last_seen_at_ms : ℤ

pub record RecoveryCode : Type 0 where
  pub user_id : ℕ
  pub code_hash : ℕ
  pub used_at_ms : Option ℤ

pub record Store : Type 0 where
  pub mode : AuthMode
  pub users : List UserRow
  pub last_user_id : ℕ
  pub sessions : List SessionRow
  pub recovery_codes : List RecoveryCode
  pub metrics_token : Option (ℕ × ℤ)

abbrev pub Step : Type 0 → Type 0
Step A = Store → Store × Result A

-- The number in the message is left out.
abbrev pub no_account : AppError
no_account = app_not_found "no account with that id"

abbrev pub is_set : Option (List ℕ) → Bool
is_set none = false
is_set (some _) = true

abbrev pub map_user : UserRow → User
map_user row = record {
  id = row.id;
  email = row.email;
  role = row.role;
  created_at_ms = row.created_at_ms;
  two_factor = is_set row.totp_secret;
}

abbrev pub is_admin : Role → Bool
is_admin admin = true
is_admin listener = false

abbrev pub same_mode : AuthMode → AuthMode → Bool
same_mode undecided undecided = true
same_mode kept_open kept_open = true
same_mode accounts accounts = true
same_mode _ _ = false

unfoldable pub choose_open : Step Unit
choose_open s =
    if same_mode s.mode undecided
    then (record s { mode = kept_open }, success_of tt)
    else (s, err (conflict "the login choice has already been made"))

-- `DELETE FROM users`; the sessions and the recovery codes go with their users.
unfoldable pub delete_users : Store → Store
delete_users s = record s { users = []; sessions = []; recovery_codes = [] }

abbrev pub new_user : ℕ → String → String → Role → ℤ → UserRow
new_user id email password_hash role now = record {
  id = id;
  email = email;
  password_hash = password_hash;
  role = role;
  created_at_ms = now;
  password_changed_at_ms = now;
  totp_secret = none;
  totp_pending_secret = none;
  totp_last_step = none;
}

unfoldable pub find_row : List UserRow → ℕ → Option UserRow
find_row [] user_id = none
find_row (row ∷ rows) user_id =
    let rest = find_row rows user_id in if row.id == user_id then some row else rest

unfoldable pub find_role : Store → ℕ → Option Role
unfolding find_row
find_role s user_id = elim (find_row s.users user_id) [ none ↦ none | some row ↦ some row.role ]

unfoldable pub count_admins : List UserRow → ℕ
count_admins [] = 0
count_admins (row ∷ rows) =
    let rest = count_admins rows in if is_admin row.role then rest + 1 else rest

-- The addresses have been trimmed before.
module _ (same_email : String → String → Bool) where
  unfoldable pub find_email : List UserRow → String → Option UserRow
  find_email [] email = none
  find_email (row ∷ rows) email =
      let rest = find_email rows email in if same_email row.email email then some row else rest

  unfoldable pub insert_user : String → String → Role → ℤ → Step User
  unfolding find_email
  insert_user email password_hash role now s =
      let row = new_user (s.last_user_id + 1) email password_hash role now in
      elim (find_email s.users email) [
        | some _ ↦ (s, err (conflict "an account with that email already exists"))
        | none ↦ (
          record s { users = s.users ++ row ∷ []; last_user_id = s.last_user_id + 1 },
          success_of (map_user row),
        )
      ]

  -- With what `insert_user` left: the transaction is kept only if it worked.
  unfoldable pub switch_on : Store → Store × Result User → Store × Result User
  switch_on s (t, success_of user) = (record t { mode = accounts }, success_of user)
  switch_on s (t, err error) = (s, err error)

  unfoldable pub set_up_first_admin : String → String → ℤ → Step User
  unfolding switch_on insert_user delete_users
  set_up_first_admin email password_hash now s =
      let done = switch_on s (insert_user email password_hash admin now (delete_users s)) in
      if same_mode s.mode accounts then (s, err (conflict "accounts are already set up")) else done

unfoldable pub disable_accounts : Store → Store
unfolding delete_users
disable_accounts s = record (delete_users s) { mode = kept_open }

abbrev pub with_role : ℕ → Role → UserRow → UserRow
with_role user_id role row = if row.id == user_id then record row { role = role } else row

abbrev pub changed_user : Store → ℕ → Store × Result User
changed_user s user_id = elim (find_row s.users user_id) [
  | none ↦ (s, err no_account)
  | some row ↦ (s, success_of (map_user row))
]

unfoldable pub update_role_of : ℕ → Role → Option Role → Step User
unfolding count_admins find_row
update_role_of user_id role none s = (s, err no_account)
update_role_of user_id role (some current) s =
    if is_admin current && (not (is_admin role) && leb (count_admins s.users) 1)
    then (
      s,
      err (
          conflict
            "this is the only admin, so it cannot become a listener; make another admin first"),
    )
    else changed_user (record s { users = map (with_role user_id role) s.users }) user_id

unfoldable pub update_role : ℕ → Role → Step User
unfolding update_role_of find_role
update_role user_id role s = update_role_of user_id role (find_role s user_id) s

abbrev pub with_password : ℕ → String → ℤ → UserRow → UserRow
with_password user_id password_hash now row =
    if row.id == user_id
    then record row { password_hash = password_hash; password_changed_at_ms = now }
    else row

unfoldable pub update_password : ℕ → String → ℤ → Step Unit
unfolding find_row
update_password user_id password_hash now s = elim (find_row s.users user_id) [
  | none ↦ (s, err no_account)
  | some _ ↦
      (record s { users = map (with_password user_id password_hash now) s.users }, success_of tt)
]

-- `DELETE FROM users WHERE id = ?1`, and what goes with it.
unfoldable pub remove_user : ℕ → Store → Store
unfolding filter
remove_user user_id s = record s {
  users = filter (λ r. not (r.id == user_id)) s.users;
  sessions = filter (λ r. not (r.user_id == user_id)) s.sessions;
  recovery_codes = filter (λ r. not (r.user_id == user_id)) s.recovery_codes;
}

unfoldable pub delete_user_of : ℕ → Option Role → Step Unit
unfolding count_admins remove_user
delete_user_of user_id none s = (s, err no_account)
delete_user_of user_id (some role) s =
    if is_admin role && leb (count_admins s.users) 1
    then (
      s,
      err (conflict "this is the only admin, so it cannot be removed; make another admin first"),
    )
    else (remove_user user_id s, success_of tt)

unfoldable pub delete_user : ℕ → Step Unit
unfolding delete_user_of find_role
delete_user user_id s = delete_user_of user_id (find_role s user_id) s
