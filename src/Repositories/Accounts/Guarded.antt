-- ===== src/Repositories/Accounts/Guarded.antt =====
-- The ids and the admins through the statements of backend/src/repositories/auth_repository.rs.
use Prim.Native.String.{String}
use on_air_record.Base.{
  ℕ, ◌+◌, ◌≤◌, ◌≡◌, refl, Bool, Option, List, [], ◌∷◌, ◌++◌, map, All, All-append, All-map,
  All-image, arith, if_branches, option_branches,
}
use on_air_record.Base.Int.{ℤ}
use on_air_record.Error.{Result}
use on_air_record.Models.Access.{accounts, undecided, User}
use on_air_record.Models.Activity.{Role, admin}
use on_air_record.Repositories.Accounts.{
  UserRow, Store, SessionRow, RecoveryCode, find_row, find_email, count_admins, with_password,
  same_mode, choose_open, delete_users, new_user, insert_user, switch_on, set_up_first_admin,
  disable_accounts, update_password,
}
use on_air_record.Repositories.Accounts.Admins.{Rising, append-Rising, map-Rising, count-append}

pub record Guarded (s : Store) : Type 0 where
  pub rising : Rising s.users
  pub below : All (λ r. r.id ≤ s.last_user_id) s.users
  pub admin_left : s.mode ≡ accounts → 1 ≤ count_admins s.users

-- Nothing else matters.
pub beside-Guarded :
    (s : Store) (sessions : List SessionRow) (codes : List RecoveryCode) (token : Option (ℕ × ℤ))
    → Guarded s
    → Guarded (record s { sessions = sessions; recovery_codes = codes; metrics_token = token })
beside-Guarded s sessions codes token g = record {
  rising = g.rising;
  below = g.below;
  admin_left = g.admin_left;
}

count-map :
    (f : UserRow → UserRow) (rows : List UserRow)
    → ((r : UserRow) → (f r).role ≡ r.role)
    → count_admins (map f rows) ≡ count_admins rows
unfolding count_admins
count-map f [] same = refl
count-map f (r ∷ rows) same = rw (same r, count-map f rows same) refl

pub below-map :
    (f : UserRow → UserRow) (n : ℕ) (rows : List UserRow)
    → ((r : UserRow) → (f r).id ≡ r.id)
    → All (λ r. r.id ≤ n) rows
    → All (λ r. r.id ≤ n) (map f rows)
below-map f n rows same h =
    All-image (λ r. r.id ≤ n) (λ r. r.id ≤ n) f rows (λ r l. rw (same r) l) h

-- A change of the rows that keeps ids and roles.
pub map-Guarded :
    (s : Store) (f : UserRow → UserRow) (codes : List RecoveryCode)
    → ((r : UserRow) → ((f r).id ≡ r.id) × ((f r).role ≡ r.role))
    → Guarded s
    → Guarded (record s { users = map f s.users; recovery_codes = codes })
map-Guarded s f codes same g = record {
  rising = map-Rising f s.users (λ r. (same r).0) g.rising;
  below = below-map f s.last_user_id s.users (λ r. (same r).0) g.below;
  admin_left = λ on. rw (count-map f s.users (λ r. (same r).1)) (g.admin_left on);
}

pub choose_open-Guarded : (s : Store) → Guarded s → Guarded (choose_open s).0
unfolding choose_open
choose_open-Guarded s g =
    if_branches (λ (r : Store × Result Unit). Guarded r.0) (same_mode s.mode undecided) _ _
      (λ _. record { rising = g.rising; below = g.below; admin_left = λ on. absurd (cc on) })
      (λ _. g)

pub disable_accounts-Guarded : (s : Store) → Guarded (disable_accounts s)
unfolding disable_accounts delete_users Rising
disable_accounts-Guarded s = record { rising = tt; below = tt; admin_left = λ on. absurd (cc on) }

insert-Guarded :
    (s : Store) (row : UserRow)
    → row.id ≡ s.last_user_id + 1
    → Guarded s
    → Guarded (record s { users = s.users ++ row ∷ []; last_user_id = s.last_user_id + 1 })
insert-Guarded s row next g = record {
  rising =
      append-Rising s.users row g.rising (All-map _ _ s.users (λ r l. omega (arith, next)) g.below);
  below =
      All-append (λ r. r.id ≤ s.last_user_id + 1) s.users (row ∷ [])
        (All-map _ _ s.users (λ r l. omega arith) g.below) (omega (arith, next), tt);
  admin_left = λ on. omega (arith, g.admin_left on, count-append s.users row);
}

module _ (same_email : String → String → Bool) where
  pub insert_user-Guarded :
      (s : Store) (email hash : String) (role : Role) (now : ℤ)
      → Guarded s
      → Guarded (insert_user same_email email hash role now s).0
  unfolding insert_user
  insert_user-Guarded s email hash role now g =
      option_branches (λ (r : Store × Result User). Guarded r.0)
        (find_email same_email s.users email) _ _
        (λ _. insert-Guarded s (new_user (s.last_user_id + 1) email hash role now) refl g)
        (λ _ _. g)

  -- The table is empty first, so the new row is the first admin.
  first_admin :
      (s : Store) (email hash : String) (now : ℤ)
      → Guarded
          (switch_on same_email s (insert_user same_email email hash admin now (delete_users s))).0
  unfolding switch_on insert_user delete_users find_email count_admins Rising
  first_admin s email hash now = record {
    rising = (tt, tt);
    below = (omega arith, tt);
    admin_left = λ on. omega arith;
  }

  pub set_up_first_admin-Guarded :
      (s : Store) (email hash : String) (now : ℤ)
      → Guarded s
      → Guarded (set_up_first_admin same_email email hash now s).0
  unfolding set_up_first_admin
  set_up_first_admin-Guarded s email hash now g =
      if_branches (λ (r : Store × Result User). Guarded r.0) (same_mode s.mode accounts) _ _
        (λ _. g) (λ _. first_admin s email hash now)

password_keeps :
    (user_id : ℕ) (hash : String) (now : ℤ) (r : UserRow)
    → ((with_password user_id hash now r).id ≡ r.id)
      × ((with_password user_id hash now r).role ≡ r.role)
password_keeps user_id hash now r = ground arith

pub update_password-Guarded :
    (s : Store) (user_id : ℕ) (hash : String) (now : ℤ)
    → Guarded s
    → Guarded (update_password user_id hash now s).0
unfolding update_password
update_password-Guarded s user_id hash now g =
    option_branches (λ (r : Store × Result Unit). Guarded r.0) (find_row s.users user_id) _ _
      (λ _. g)
      (λ _ _.
        map-Guarded s (with_password user_id hash now) s.recovery_codes
          (password_keeps user_id hash now) g)
