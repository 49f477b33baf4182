-- ===== src/Repositories/Accounts/Leaving.antt =====
-- The ids and the admins through delete_user and update_role of
-- backend/src/repositories/auth_repository.rs.
use on_air_record.Base.{
  ℕ, ◌+◌, ◌≤◌, ◌≡◌, refl, false, not, ◌&&◌, Option, none, some, map, arith, leb, if◌then◌else◌,
  if_branches, option_branches,
}
use on_air_record.Base.Filter.{All-filter}
use on_air_record.Error.{Result}
use on_air_record.Models.Access.{User}
use on_air_record.Models.Activity.{Role, admin, listener}
use on_air_record.Repositories.Accounts.{
  UserRow, Store, find_row, find_role, count_admins, is_admin, with_role, update_role_of,
  update_role, remove_user, delete_user_of, delete_user, changed_user,
}
use on_air_record.Repositories.Accounts.Admins.{
  filter-Rising, map-Rising, count-remove, count-with_role,
}
use on_air_record.Repositories.Accounts.Guarded.{Guarded, below-map}

fewer-Guarded :
    (s : Store) (user_id : ℕ) (row : UserRow)
    → find_row s.users user_id ≡ some row
    → is_admin row.role && leb (count_admins s.users) 1 ≡ false
    → Guarded s
    → Guarded (remove_user user_id s)
unfolding remove_user
fewer-Guarded s user_id row found more g = record {
  rising = filter-Rising _ s.users g.rising;
  below = All-filter (λ r. r.id ≤ s.last_user_id) _ s.users g.below;
  admin_left = λ on.
      enough row.role more (count-remove user_id s.users row g.rising found) (g.admin_left on);
}
  where
    enough :
        (role : Role) {before after : ℕ}
        → is_admin role && leb before 1 ≡ false
        → before ≡ after + (if is_admin role then 1 else 0)
        → 1 ≤ before
        → 1 ≤ after
    enough admin more e h = ground arith
    enough listener more e h = omega (arith, e, h)

delete_of-Guarded :
    (s : Store) (user_id : ℕ) (o : Option UserRow)
    → find_row s.users user_id ≡ o
    → Guarded s
    → Guarded (delete_user_of user_id (elim o [ none ↦ none | some row ↦ some row.role ]) s).0
unfolding delete_user_of
delete_of-Guarded s user_id none found g = g
delete_of-Guarded s user_id (some row) found g =
    if_branches (λ (r : Store × Result Unit). Guarded r.0)
      (is_admin row.role && leb (count_admins s.users) 1) _ _ (λ _. g)
      (λ more. fewer-Guarded s user_id row found more g)

pub delete_user-Guarded : (s : Store) (user_id : ℕ) → Guarded s → Guarded (delete_user user_id s).0
unfolding delete_user find_role
delete_user-Guarded s user_id g = delete_of-Guarded s user_id (find_row s.users user_id) refl g

role_keeps_id : (user_id : ℕ) (role : Role) (r : UserRow) → (with_role user_id role r).id ≡ r.id
role_keeps_id user_id role r = ground arith

changed-Guarded :
    (s : Store) (user_id : ℕ) (role : Role) (row : UserRow)
    → find_row s.users user_id ≡ some row
    → is_admin row.role && (not (is_admin role) && leb (count_admins s.users) 1) ≡ false
    → Guarded s
    → Guarded (record s { users = map (with_role user_id role) s.users })
changed-Guarded s user_id role row found more g = record {
  rising = map-Rising (with_role user_id role) s.users (role_keeps_id user_id role) g.rising;
  below =
      below-map (with_role user_id role) s.last_user_id s.users (role_keeps_id user_id role)
        g.below;
  admin_left = λ on.
      enough row.role role more (count-with_role user_id role s.users row g.rising found)
        (g.admin_left on);
}
  where
    enough :
        (current wanted : Role) {before after : ℕ}
        → is_admin current && (not (is_admin wanted) && leb before 1) ≡ false
        → before + (if is_admin wanted then 1 else 0) ≡ after + (if is_admin current then 1 else 0)
        → 1 ≤ before
        → 1 ≤ after
    enough admin admin more e h = omega (arith, e, h)
    enough admin listener more e h = ground arith
    enough listener admin more e h = omega (arith, e, h)
    enough listener listener more e h = omega (arith, e, h)

shown-Guarded : (s : Store) (user_id : ℕ) → Guarded s → Guarded (changed_user s user_id).0
shown-Guarded s user_id g =
    option_branches (λ (r : Store × Result User). Guarded r.0) (find_row s.users user_id) _ _
      (λ _. g) (λ _ _. g)

update_of-Guarded :
    (s : Store) (user_id : ℕ) (role : Role) (o : Option UserRow)
    → find_row s.users user_id ≡ o
    → Guarded s
    → Guarded (update_role_of user_id role (elim o [ none ↦ none | some row ↦ some row.role ]) s).0
unfolding update_role_of
update_of-Guarded s user_id role none found g = g
update_of-Guarded s user_id role (some row) found g =
    if_branches (λ (r : Store × Result User). Guarded r.0)
      (is_admin row.role && (not (is_admin role) && leb (count_admins s.users) 1)) _ _ (λ _. g)
      (λ more.
        shown-Guarded (record s { users = map (with_role user_id role) s.users }) user_id
          (changed-Guarded s user_id role row found more g))

pub update_role-Guarded :
    (s : Store) (user_id : ℕ) (role : Role) → Guarded s → Guarded (update_role user_id role s).0
unfolding update_role find_role
update_role-Guarded s user_id role g =
    update_of-Guarded s user_id role (find_row s.users user_id) refl g
