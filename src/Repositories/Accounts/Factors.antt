-- ===== src/Repositories/Accounts/Factors.antt =====
-- backend/src/repositories/auth_repository.rs: the sessions, the second factor, the recovery codes and the
-- scrape token.
use on_air_record.Base.{
  ℕ, Bool, true, false, ◌&&◌, not, Option, none, some, List, [], ◌∷◌, ◌++◌, map, length, ◌==◌,
  if◌then◌else◌,
}
use on_air_record.Base.Filter.{filter}
use on_air_record.Base.Int.{ℤ, ltb_ℤ, leb_ℤ}
use on_air_record.Error.{database, Result, success_of, err}
use on_air_record.Models.Access.{User}
use on_air_record.Services.Auth.SignIn.{TotpRecord}
use on_air_record.Repositories.Accounts.{
  UserRow, SessionRow, RecoveryCode, Store, Step, no_account, map_user, find_row,
}

unfoldable pub find_hash : List SessionRow → ℕ → Option SessionRow
find_hash [] token_hash = none
find_hash (row ∷ rows) token_hash =
    let rest = find_hash rows token_hash in if row.token_hash == token_hash then some row else rest

-- The foreign key asks for the user, the primary key for a new hash.
unfoldable pub create_session : ℕ → ℕ → ℤ → ℤ → Step Unit
unfolding find_row find_hash
create_session token_hash user_id expires_at_ms now s =
    let row : SessionRow = record {
      token_hash = token_hash;
      user_id = user_id;
      created_at_ms = now;
      expires_at_ms = expires_at_ms;
      last_seen_at_ms = now;
    } in
    let inserted : Store × Result Unit =
      (record s { sessions = s.sessions ++ row ∷ [] }, success_of tt) in
    elim (find_row s.users user_id) [
      | none ↦ (s, err (database "FOREIGN KEY constraint failed"))
      | some _ ↦ elim (find_hash s.sessions token_hash) [
        | some _ ↦ (s, err (database "UNIQUE constraint failed"))
        | none ↦ inserted
      ]
    ]

pub record SessionRecord : Type 0 where
  pub user : User
  pub last_seen_at_ms : ℤ

abbrev pub join_user : List UserRow → SessionRow → Option SessionRecord
join_user users row = elim (find_row users row.user_id) [
  | none ↦ none
  | some user ↦ some (record { user = map_user user; last_seen_at_ms = row.last_seen_at_ms })
]

unfoldable pub find_session : Store → ℕ → ℤ → Option SessionRecord
unfolding find_hash
find_session s token_hash now = elim (find_hash s.sessions token_hash) [
  | none ↦ none
  | some row ↦
      let joined = join_user s.users row in if ltb_ℤ now row.expires_at_ms then joined else none
]

abbrev pub seen_at : ℕ → ℤ → SessionRow → SessionRow
seen_at token_hash now row =
    if row.token_hash == token_hash then record row { last_seen_at_ms = now } else row

unfoldable pub touch_session : ℕ → ℤ → Store → Store
touch_session token_hash now s = record s { sessions = map (seen_at token_hash now) s.sessions }

unfoldable pub delete_session : ℕ → Store → Store
unfolding filter
delete_session token_hash s = record s {
  sessions = filter (λ r. not (r.token_hash == token_hash)) s.sessions;
}

-- The sessions that `WHERE` leaves.
abbrev pub stays_in : ℕ → Option ℕ → SessionRow → Bool
stays_in user_id none row = not (row.user_id == user_id)
stays_in user_id (some token_hash) row =
    not (row.user_id == user_id && not (row.token_hash == token_hash))

unfoldable pub delete_sessions_for_user : ℕ → Option ℕ → Store → Store
unfolding filter
delete_sessions_for_user user_id keep s = record s {
  sessions = filter (stays_in user_id keep) s.sessions;
}

unfoldable pub delete_expired_sessions : ℤ → Store → Store
unfolding filter
delete_expired_sessions now s = record s {
  sessions = filter (λ r. not (leb_ℤ r.expires_at_ms now)) s.sessions;
}

unfoldable pub find_totp : Store → ℕ → Result TotpRecord
unfolding find_row
find_totp s user_id = elim (find_row s.users user_id) [
  | none ↦ err no_account
  | some row ↦ success_of (record {
    secret = row.totp_secret;
    pending_secret = row.totp_pending_secret;
    last_step = row.totp_last_step;
  })
]

abbrev pub for_user : ℕ → (UserRow → UserRow) → UserRow → UserRow
for_user user_id change row = if row.id == user_id then change row else row

unfoldable pub set_pending_totp : ℕ → List ℕ → Store → Store
set_pending_totp user_id secret s = record s {
  users = map (for_user user_id (λ r. record r { totp_pending_secret = some secret })) s.users;
}

abbrev pub code_row : ℕ → ℕ → RecoveryCode
code_row user_id code_hash = record { user_id = user_id; code_hash = code_hash; used_at_ms = none }

unfoldable pub write_recovery_codes : ℕ → List ℕ → Store → Store
unfolding filter
write_recovery_codes user_id code_hashes s = record s {
  recovery_codes =
      filter (λ r. not (r.user_id == user_id)) s.recovery_codes
      ++ map (code_row user_id) code_hashes;
}

abbrev pub confirmed : List ℕ → ℤ → UserRow → UserRow
confirmed secret confirmed_step row = record row {
  totp_secret = some secret;
  totp_pending_secret = none;
  totp_last_step = some confirmed_step;
}

unfoldable pub enable_totp : ℕ → List ℕ → ℤ → List ℕ → Store → Store
unfolding write_recovery_codes
enable_totp user_id secret confirmed_step code_hashes s =
    write_recovery_codes user_id code_hashes
      (record s { users = map (for_user user_id (confirmed secret confirmed_step)) s.users })

unfoldable pub record_totp_step : ℕ → ℤ → Store → Store
record_totp_step user_id step s = record s {
  users = map (for_user user_id (λ r. record r { totp_last_step = some step })) s.users;
}

abbrev pub without_factor : UserRow → UserRow
without_factor row = record row {
  totp_secret = none;
  totp_pending_secret = none;
  totp_last_step = none;
}

unfoldable pub disable_totp : ℕ → Store → Store
unfolding write_recovery_codes filter
disable_totp user_id s = record s {
  users = map (for_user user_id without_factor) s.users;
  recovery_codes = filter (λ r. not (r.user_id == user_id)) s.recovery_codes;
}

abbrev pub is_unused : Option ℤ → Bool
is_unused none = true
is_unused (some _) = false

abbrev pub is_code : ℕ → ℕ → RecoveryCode → Bool
is_code user_id code_hash row =
    row.user_id == user_id && (row.code_hash == code_hash && is_unused row.used_at_ms)

unfoldable pub count_codes : (RecoveryCode → Bool) → List RecoveryCode → ℕ
unfolding filter
count_codes test rows = length (filter test rows)

unfoldable pub use_recovery_code : ℕ → ℕ → ℤ → Store → Store × Bool
unfolding count_codes
use_recovery_code user_id code_hash now s = (
  record s {
    recovery_codes =
        map (λ r. if is_code user_id code_hash r then record r { used_at_ms = some now } else r)
          s.recovery_codes;
  },
  count_codes (is_code user_id code_hash) s.recovery_codes == 1,
)

unfoldable pub recovery_codes_left : ℕ → Store → ℕ
unfolding count_codes
recovery_codes_left user_id s =
    count_codes (λ r. r.user_id == user_id && is_unused r.used_at_ms) s.recovery_codes

unfoldable pub replace_metrics_token : ℕ → ℤ → Store → Store
replace_metrics_token token_hash created_at_ms s = record s {
  metrics_token = some (token_hash, created_at_ms);
}

unfoldable pub delete_metrics_token : Store → Store
delete_metrics_token s = record s { metrics_token = none }

unfoldable pub metrics_token_matches : ℕ → Store → Bool
metrics_token_matches token_hash s = elim s.metrics_token [
  | none ↦ false
  | some (stored, created_at_ms) ↦ stored == token_hash
]
