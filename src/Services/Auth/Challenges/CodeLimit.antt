-- ===== src/Services/Auth/Challenges/CodeLimit.antt =====
-- The attempts that a challenge of backend/src/services/auth_service.rs has left.
use native.Mathlib.Nat.{add-zero, add_assoc}
use on_air_record.Base.{
  ℕ, ◌+◌, ◌<◌, ◌≡◌, refl, ◌∙◌, sym, leb, if◌then◌else◌, true, false, Bool-cases, inl, inr, Option,
  none, some, List, [], ◌∷◌, arith, ℕ_discrete, ◌==◌,
}
use on_air_record.Base.Maps.{
  Map, lookup, insert, remove, lookup-insert_self, lookup-insert_ne, lookup-remove_self,
  lookup-remove_ne, same_key, other_key,
}
use on_air_record.Services.Auth.Challenges.{
  Challenge, count_against, count_code_attempt, once_more, max_code_attempts,
}

-- Wrong codes one after another, each against the challenge with that hash.
unfoldable pub wrong_codes : Map Challenge → List ℕ → Map Challenge
wrong_codes challenges [] = challenges
wrong_codes challenges (hash ∷ hashes) = wrong_codes (count_code_attempt challenges hash).0 hashes

abbrev pub codes_against : ℕ → List ℕ → ℕ
codes_against k [] = 0
codes_against k (hash ∷ hashes) =
    let rest = codes_against k hashes in if hash == k then 1 + rest else rest

count_against-other :
    (challenges : Map Challenge) (hash k : ℕ) (o : Option Challenge)
    → (hash ≡ k → ⊥)
    → lookup (count_against challenges hash o).0 k ≡ lookup challenges k
unfolding count_against
count_against-other challenges hash k none ne = lookup-remove_ne challenges ne
count_against-other challenges hash k (some pending) ne =
    elim (Bool-cases (leb max_code_attempts (pending.attempts + 1))) [
      | inl e ↦ rw e (lookup-remove_ne challenges ne)
      | inr e ↦ rw e (lookup-insert_ne challenges (once_more pending) ne)
    ]

wrong_codes-gone :
    (challenges : Map Challenge) (k : ℕ) (hashes : List ℕ)
    → lookup challenges k ≡ none
    → lookup (wrong_codes challenges hashes) k ≡ none
unfolding wrong_codes count_code_attempt count_against
wrong_codes-gone challenges k [] e = e
wrong_codes-gone challenges k (hash ∷ hashes) e =
    wrong_codes-gone (count_code_attempt challenges hash).0 k hashes (elim (ℕ_discrete hash k) [
      | yes same ↦ rw (same, e) (lookup-remove_self challenges k)
      | no other ↦ count_against-other challenges hash k (lookup challenges hash) other ∙ e
    ])

-- What is left of a challenge after so many wrong codes.
abbrev pub after_codes : Challenge → ℕ → Option Challenge
after_codes pending n =
    if leb max_code_attempts (pending.attempts + n)
    then none
    else some (record pending { attempts = pending.attempts + n })

leb-few : (n : ℕ) → n < max_code_attempts → leb max_code_attempts (n + 0) ≡ false
leb-few n few = ground (arith, few)

after_codes-used :
    (pending : Challenge) (n : ℕ)
    → leb max_code_attempts (pending.attempts + 1) ≡ true
    → after_codes pending (1 + n) ≡ none
after_codes-used pending n e = ground (arith, e)

after_codes-more :
    (pending : Challenge) (n : ℕ) → after_codes (once_more pending) n ≡ after_codes pending (1 + n)
after_codes-more pending n = rw (add_assoc pending.attempts 1 n) refl

after_codes-zero :
    (pending : Challenge)
    → pending.attempts < max_code_attempts
    → some pending ≡ after_codes pending 0
after_codes-zero pending few = rw (leb-few pending.attempts few, add-zero pending.attempts) refl

-- However wrong codes against several challenges interleave, one that has not used up its attempts
-- counts exactly those against it: it stays below five in all, and at the fifth it is dropped for good.
pub wrong_codes-lookup :
    (challenges : Map Challenge) (k : ℕ) (pending : Challenge) (hashes : List ℕ)
    → lookup challenges k ≡ some pending
    → pending.attempts < max_code_attempts
    → lookup (wrong_codes challenges hashes) k ≡ after_codes pending (codes_against k hashes)
unfolding wrong_codes count_code_attempt count_against
wrong_codes-lookup challenges k pending [] e few = e ∙ after_codes-zero pending few
wrong_codes-lookup challenges k pending (hash ∷ hashes) e few = elim (ℕ_discrete hash k) [
  | yes same ↦ elim (Bool-cases (leb max_code_attempts (pending.attempts + 1))) [
    | inl last ↦
        rw (same, e, last, same_key k)
          (wrong_codes-gone (remove challenges k) k hashes (lookup-remove_self challenges k)
            ∙ sym (after_codes-used pending (codes_against k hashes) last))
    | inr more ↦
        rw (same, e, more, same_key k)
          (wrong_codes-lookup (insert challenges k (once_more pending)) k (once_more pending) hashes
              (lookup-insert_self challenges k (once_more pending)) (ground (arith, more))
            ∙ after_codes-more pending (codes_against k hashes))
  ]
  | no other ↦ rw (other_key other) (
      wrong_codes-lookup (count_code_attempt challenges hash).0 k pending hashes
        (count_against-other challenges hash k (lookup challenges hash) other ∙ e) few)
]
