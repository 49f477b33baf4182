-- ===== src/Base/Maps.antt =====
-- A map from numbers to values, as the list of its entries.
use Prim.Native.Nat.{ℕ}
use mathlib.Core.Path.{◌≡◌, refl, ap, ◌∙◌}
use mathlib.Core.Logic.{◌≢◌, inl, inr}
use mathlib.Core.Bool.{Bool, true, false}
use mathlib.Core.Option.{Option, none, some}
use mathlib.Core.List.{List, [], ◌∷◌}
use on_air_record.Base.Tests.{◌==◌, if◌then◌else◌, Bool-cases}
use native.Mathlib.Omega.{arith}

abbrev pub Map {ℓ} : Type ℓ → Type ℓ
Map A = List (ℕ × A)

pub same_key : (k : ℕ) → (k == k) ≡ true
same_key k = ground arith

pub other_key : {j k : ℕ} → j ≢ k → (j == k) ≡ false
other_key ne = ground arith

key_path : {j k : ℕ} → (j == k) ≡ true → j ≡ k
key_path e = ground arith

module _ {ℓ} {A : Type ℓ} where
  unfoldable pub lookup : Map A → ℕ → Option A
  lookup [] k = none
  lookup ((j, a) ∷ m) k = let rest = lookup m k in if j == k then some a else rest

  unfoldable pub remove : Map A → ℕ → Map A
  remove [] k = []
  remove ((j, a) ∷ m) k = let rest = remove m k in if j == k then rest else (j, a) ∷ rest

  unfoldable pub insert : Map A → ℕ → A → Map A
  insert [] k a = (k, a) ∷ []
  insert ((j, b) ∷ m) k a = let rest = insert m k a in if j == k then (k, a) ∷ m else (j, b) ∷ rest

  unfoldable pub retain : (A → Bool) → Map A → Map A
  retain p [] = []
  retain p ((j, a) ∷ m) = let rest = retain p m in if p a then (j, a) ∷ rest else rest

  pub lookup-insert_self : (m : Map A) (k : ℕ) (a : A) → lookup (insert m k a) k ≡ some a
  unfolding lookup insert
  lookup-insert_self [] k a = rw (same_key k)
  lookup-insert_self ((j, b) ∷ m) k a = elim (Bool-cases (j == k)) [
    | inl e ↦ rw (e, same_key k)
    | inr e ↦ rw (e, e) (lookup-insert_self m k a)
  ]

  pub lookup-insert_ne :
      (m : Map A) {k i : ℕ} (a : A) → k ≢ i → lookup (insert m k a) i ≡ lookup m i
  unfolding lookup insert
  lookup-insert_ne [] a ne = rw (other_key ne)
  lookup-insert_ne ((j, b) ∷ m) {k = k} {i = i} a ne = elim (Bool-cases (j == k)) [
    | inl e ↦ rw (e, other_key ne, key_path e, other_key ne)
    | inr e ↦ rw (e, lookup-insert_ne m a ne)
  ]

  pub lookup-remove_self : (m : Map A) (k : ℕ) → lookup (remove m k) k ≡ none
  unfolding lookup remove
  lookup-remove_self [] k = refl
  lookup-remove_self ((j, b) ∷ m) k = elim (Bool-cases (j == k)) [
    | inl e ↦ rw e (lookup-remove_self m k)
    | inr e ↦ rw (e, e) (lookup-remove_self m k)
  ]

  pub lookup-remove_ne : (m : Map A) {k i : ℕ} → k ≢ i → lookup (remove m k) i ≡ lookup m i
  unfolding lookup remove
  lookup-remove_ne [] ne = refl
  lookup-remove_ne ((j, b) ∷ m) {k = k} {i = i} ne = elim (Bool-cases (j == k)) [
    | inl e ↦ rw (e, key_path e, other_key ne) (lookup-remove_ne m ne)
    | inr e ↦ rw (e, lookup-remove_ne m ne)
  ]

  pub lookup-retain :
      (p : A → Bool) (m : Map A) (k : ℕ) (a : A)
      → lookup m k ≡ some a
      → p a ≡ true
      → lookup (retain p m) k ≡ some a
  unfolding lookup retain
  lookup-retain p [] k a h kept = h
  lookup-retain p ((j, b) ∷ m) k a h kept = elim (Bool-cases (j == k)) [
    | inl e ↦
        let found : some b ≡ some a = cc in
        let holds : p b ≡ true = ap (λ o. elim o [ none ↦ true | some x ↦ p x ]) found ∙ kept in
        rw (holds, e) found
    | inr e ↦
        let below : lookup m k ≡ some a = cc in
        let later = lookup-retain p m k a below kept in
        elim (Bool-cases (p b)) [ inl y ↦ rw (y, e) later | inr n ↦ rw n later ]
  ]
