-- ===== src/Repositories/Accounts/Admins.antt =====
-- Counting the admins (count_admins of backend/src/repositories/auth_repository.rs) over distinct ids.
use on_air_record.Base.{
  ℕ, ◌+◌, ◌≤◌, ◌<◌, ◌≡◌, refl, ◌∙◌, ap, subst, inl, inr, Bool, true, false, not, Bool-cases, some,
  List, [], ◌∷◌, ◌++◌, map, All, All-append, All-map, All-image, arith, ◌==◌, if◌then◌else◌,
  if_branches,
}
use on_air_record.Base.Filter.{filter, All-filter, filter-all}
use on_air_record.Models.Activity.{Role}
use on_air_record.Repositories.Accounts.{UserRow, find_row, count_admins, is_admin, with_role}

-- The ids rise from row to row.
unfoldable pub Rising : List UserRow → Type 0
Rising [] = Unit
Rising (row ∷ rows) = All (λ r. row.id < r.id) rows × Rising rows

pub append-Rising :
    (rows : List UserRow) (row : UserRow)
    → Rising rows
    → All (λ r. r.id < row.id) rows
    → Rising (rows ++ row ∷ [])
unfolding Rising
append-Rising [] row h below = (tt, tt)
append-Rising (r ∷ rows) row (low, h) (small, below) =
    (All-append (λ x. r.id < x.id) rows (row ∷ []) low (small, tt), append-Rising rows row h below)

pub filter-Rising :
    (p : UserRow → Bool) (rows : List UserRow) → Rising rows → Rising (filter p rows)
unfolding Rising filter
filter-Rising p [] h = tt
filter-Rising p (row ∷ rows) (low, h) =
    if_branches Rising (p row) _ _
      (λ _. (All-filter (λ x. row.id < x.id) p rows low, filter-Rising p rows h))
      (λ _. filter-Rising p rows h)

-- A change of the rows that keeps their ids.
pub map-Rising :
    (f : UserRow → UserRow) (rows : List UserRow)
    → ((r : UserRow) → (f r).id ≡ r.id)
    → Rising rows
    → Rising (map f rows)
unfolding Rising
map-Rising f [] same h = tt
map-Rising f (row ∷ rows) same (low, h) = (
  All-image (λ x. row.id < x.id) (λ x. (f row).id < x.id) f rows (λ x l. rw (same x, same row) l)
      low,
  map-Rising f rows same h,
)

abbrev others : ℕ → UserRow → Bool
others user_id r = not (r.id == user_id)

above_others :
    (user_id : ℕ) (rows : List UserRow)
    → All (λ r. user_id < r.id) rows
    → All (λ r. others user_id r ≡ true) rows
above_others user_id rows h = All-map _ _ rows (λ r l. ground arith) h

pub count-append :
    (rows : List UserRow) (row : UserRow) → count_admins rows ≤ count_admins (rows ++ row ∷ [])
unfolding count_admins
count-append [] row = omega arith
count-append (r ∷ rows) row = let rest = count-append rows row in ground (arith, rest)

abbrev weight : Role → ℕ
weight role = if is_admin role then 1 else 0

count-cons :
    (row : UserRow) (rows : List UserRow)
    → count_admins (row ∷ rows) ≡ count_admins rows + weight row.role
unfolding count_admins
count-cons row rows = ground arith

none_removed :
    (user_id : ℕ) (rows : List UserRow)
    → All (λ r. user_id < r.id) rows
    → filter (others user_id) rows ≡ rows
none_removed user_id rows h = filter-all (others user_id) rows (above_others user_id rows h)

after_id :
    (user_id : ℕ) (row : UserRow) (rows : List UserRow)
    → (row.id == user_id) ≡ true
    → All (λ r. row.id < r.id) rows
    → All (λ r. user_id < r.id) rows
after_id user_id row rows same low = All-map _ _ rows (λ r l. ground arith) low

-- The row found is the only one that goes.
pub count-remove :
    (user_id : ℕ) (rows : List UserRow) (row : UserRow)
    → Rising rows
    → find_row rows user_id ≡ some row
    → count_admins rows ≡ count_admins (filter (others user_id) rows) + weight row.role
unfolding find_row filter Rising
count-remove user_id [] row h e = absurd (cc e)
count-remove user_id (r ∷ rows) row (low, h) e = elim (Bool-cases (r.id == user_id)) [
  | inl here ↦
      let same : some r ≡ some row =
        subst (λ b. (if b then some r else find_row rows user_id) ≡ some row) here e in
      let role_same : r.role ≡ row.role = cc same in
      rw
        (
          here,
          none_removed user_id rows (after_id user_id r rows here low),
          count-cons r rows,
          role_same,
        )
        refl
  | inr there ↦
      let found : find_row rows user_id ≡ some row =
        subst (λ b. (if b then some r else find_row rows user_id) ≡ some row) there e in
      rw there (
        omega (
          arith,
          count-remove user_id rows row h found,
          count-cons r rows,
          count-cons r (filter (others user_id) rows),
        ))
]

with_role_self :
    (user_id : ℕ) (role : Role) (r : UserRow)
    → (r.id == user_id) ≡ true
    → with_role user_id role r ≡ record r { role = role }
with_role_self user_id role r e = ap (λ b. if b then record r { role = role } else r) e

with_role_other :
    (user_id : ℕ) (role : Role) (r : UserRow)
    → (r.id == user_id) ≡ false
    → with_role user_id role r ≡ r
with_role_other user_id role r e = ap (λ b. if b then record r { role = role } else r) e

given_role :
    (user_id : ℕ) (role : Role) (rows : List UserRow)
    → All (λ r. user_id < r.id) rows
    → map (with_role user_id role) rows ≡ rows
given_role user_id role [] h = refl
given_role user_id role (r ∷ rows) (low, h) =
    ap (λ x. x ∷ map (with_role user_id role) rows) (with_role_other user_id role r (ground arith))
    ∙ ap (λ l. r ∷ l) (given_role user_id role rows h)

map_head : {x y : UserRow} {xs ys : List UserRow} → x ≡ y → xs ≡ ys → x ∷ xs ≡ y ∷ ys
map_head e f = cc (e, f)

-- The row found is the only one whose role changes.
pub count-with_role :
    (user_id : ℕ) (role : Role) (rows : List UserRow) (row : UserRow)
    → Rising rows
    → find_row rows user_id ≡ some row
    → count_admins rows + weight role
      ≡ count_admins (map (with_role user_id role) rows) + weight row.role
unfolding find_row Rising
count-with_role user_id role [] row h e = absurd (cc e)
count-with_role user_id role (r ∷ rows) row (low, h) e = elim (Bool-cases (r.id == user_id)) [
  | inl here ↦
      let same : some r ≡ some row =
        subst (λ b. (if b then some r else find_row rows user_id) ≡ some row) here e in
      let role_same : r.role ≡ row.role = cc same in
      let changed =
        map_head (with_role_self user_id role r here)
          (given_role user_id role rows (after_id user_id r rows here low)) in
      rw changed (
        omega (
          arith,
          count-cons r rows,
          count-cons (record r { role = role }) rows,
          ap weight role_same,
        ))
  | inr there ↦
      let found : find_row rows user_id ≡ some row =
        subst (λ b. (if b then some r else find_row rows user_id) ≡ some row) there e in
      rw (with_role_other user_id role r there) (
        omega (
          arith,
          count-with_role user_id role rows row h found,
          count-cons r rows,
          count-cons r (map (with_role user_id role) rows),
        ))
]
