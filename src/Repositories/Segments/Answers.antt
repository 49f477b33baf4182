-- ===== src/Repositories/Segments/Answers.antt =====
-- The lookups of backend/src/repositories/segment_repository.rs, told without an order of the rows.
use on_air_record.Base.{
  ◌≡◌, refl, sym, subst, ◌⊎◌, inl, inr, Bool, true, false, Bool-cases, Option, none, some, List, [],
  ◌∷◌, All, arith, if_branches,
}
use on_air_record.Base.Filter.{filter}
use on_air_record.Base.Int.{ℤ, ◌≤ℤ◌, leb_ℤ, le_ℤ_trans}
use on_air_record.Models.Segment.{Segment}
use on_air_record.Repositories.Segments.{
  place, by_start, first, last_after, last, covers, starts_from, find_covering, find_next_after,
}
use on_air_record.Repositories.Segments.Order.{InOrder, by_start-InOrder}

unfoldable pub In : Segment → List Segment → Type 0
In s [] = false ≡ true
In s (r ∷ rows) = (s ≡ r) ⊎ In s rows

-- One of the rows that pass is the answer, and no other that passes is preferred to it; or none passes.
unfoldable pub Best :
    (Segment → Segment → Type 0) → (Segment → Bool) → List Segment → Option Segment → Type 0
Best NoBetter passes rows none = (r : Segment) → In r rows → passes r ≡ false
Best NoBetter passes rows (some s) =
    In s rows × (passes s ≡ true) × ((r : Segment) → In r rows → passes r ≡ true → NoBetter r s)

abbrev pub NotLater : Segment → Segment → Type 0
NotLater r s = r.started_at_ms ≤ℤ s.started_at_ms

abbrev pub NotEarlier : Segment → Segment → Type 0
NotEarlier r s = s.started_at_ms ≤ℤ r.started_at_ms

not_true : false ≡ true → ⊥
not_true e = cc e

All-In : (P : Segment → Type 0) (s : Segment) (rows : List Segment) → All P rows → In s rows → P s
unfolding In
All-In P s [] a i = absurd (not_true i)
All-In P s (r ∷ rows) (p, a) (inl e) = subst P (sym e) p
All-In P s (r ∷ rows) (p, a) (inr i) = All-In P s rows a i

In-filter :
    (s : Segment) (p : Segment → Bool) (rows : List Segment)
    → In s rows
    → p s ≡ true
    → In s (filter p rows)
unfolding In filter
In-filter s p [] i h = i
In-filter s p (r ∷ rows) (inl e) h = rw (subst (λ x. p x ≡ true) e h) (inl e)
In-filter s p (r ∷ rows) (inr i) h =
    if_branches (In s) (p r) _ _ (λ _. inr (In-filter s p rows i h)) (λ _. In-filter s p rows i h)

filter-In :
    (s : Segment) (p : Segment → Bool) (rows : List Segment)
    → In s (filter p rows)
    → In s rows × (p s ≡ true)
unfolding In filter
filter-In s p [] i = absurd (not_true i)
filter-In s p (r ∷ rows) i =
    if_branches (λ l. In s l → In s (r ∷ rows) × (p s ≡ true)) (p r) (r ∷ filter p rows)
      (filter p rows)
      (λ e. elim [
        | inl same ↦ (inl same, subst (λ x. p x ≡ true) (sym same) e)
        | inr later ↦ let (found, passes) = filter-In s p rows later in (inr found, passes)
      ])
      (λ e later. let (found, passes) = filter-In s p rows later in (inr found, passes)) i

place-keeps : (x s : Segment) (rows : List Segment) → In x (s ∷ rows) → In x (place s rows)
unfolding place In
place-keeps x s [] i = i
place-keeps x s (r ∷ rows) i =
    if_branches (In x) (leb_ℤ s.started_at_ms r.started_at_ms) _ _ (λ _. i)
      (λ _. elim i [
        | inl here ↦ inr (place-keeps x s rows (inl here))
        | inr (inl here) ↦ inl here
        | inr (inr later) ↦ inr (place-keeps x s rows (inr later))
      ])

place-adds : (x s : Segment) (rows : List Segment) → In x (place s rows) → In x (s ∷ rows)
unfolding place In
place-adds x s [] i = i
place-adds x s (r ∷ rows) i =
    if_branches (λ l. In x l → In x (s ∷ r ∷ rows)) (leb_ℤ s.started_at_ms r.started_at_ms)
      (s ∷ r ∷ rows) (r ∷ place s rows) (λ _ j. j)
      (λ _. elim [
        | inl here ↦ inr (inl here)
        | inr later ↦ elim (place-adds x s rows later) [
          | inl here ↦ inl here
          | inr more ↦ inr (inr more)
        ]
      ])
      i

by_start-keeps : (x : Segment) (rows : List Segment) → In x rows → In x (by_start rows)
unfolding by_start In
by_start-keeps x [] i = i
by_start-keeps x (s ∷ rows) (inl here) = place-keeps x s (by_start rows) (inl here)
by_start-keeps x (s ∷ rows) (inr later) =
    place-keeps x s (by_start rows) (inr (by_start-keeps x rows later))

by_start-adds : (x : Segment) (rows : List Segment) → In x (by_start rows) → In x rows
unfolding by_start In
by_start-adds x [] i = i
by_start-adds x (s ∷ rows) i = elim (place-adds x s (by_start rows) i) [
  | inl here ↦ inl here
  | inr later ↦ inr (by_start-adds x rows later)
]

-- The first of rows in order starts earliest, and the last of them latest.
first-Best : (rows : List Segment) → InOrder rows → Best NotEarlier (λ _. true) rows (first rows)
unfolding first InOrder Best In
first-Best [] h = λ r i. absurd (not_true i)
first-Best (s ∷ rows) (from, h) = (
  inl refl,
  refl,
  λ r i _. elim i [
    | inl here ↦ subst (λ x. s.started_at_ms ≤ℤ x.started_at_ms) (sym here) (omega arith)
    | inr later ↦ All-In (λ x. s.started_at_ms ≤ℤ x.started_at_ms) r rows from later
  ],
)

last_after-latest :
    (s : Segment) (rows : List Segment)
    → InOrder (s ∷ rows)
    → In (last_after s rows) (s ∷ rows)
      × ((r : Segment) → In r (s ∷ rows) → NotLater r (last_after s rows))
unfolding last_after In InOrder
last_after-latest s [] h = (
  inl refl,
  λ r. elim [
    | inl here ↦ subst (λ x. NotLater x s) (sym here) (omega arith)
    | inr none_left ↦ absurd (not_true none_left)
  ],
)
last_after-latest s (q ∷ rows) ((low, from), h) =
    let (found, latest) = last_after-latest q rows h in
    (
      inr found,
      λ r. elim [
        | inl here ↦
            subst (λ x. NotLater x (last_after q rows)) (sym here)
              (le_ℤ_trans s.started_at_ms q.started_at_ms (last_after q rows).started_at_ms low
                (latest q (inl refl)))
        | inr later ↦ latest r later
      ],
    )

last-Best : (rows : List Segment) → InOrder rows → Best NotLater (λ _. true) rows (last rows)
unfolding last Best In
last-Best [] h = λ r i. absurd (not_true i)
last-Best (s ∷ rows) h =
    let (found, latest) = last_after-latest s rows h in (found, refl, λ r i _. latest r i)

-- From the sorted rows that pass to all rows.
sorted-Best :
    (NoBetter : Segment → Segment → Type 0) (passes : Segment → Bool) (rows : List Segment)
    (o : Option Segment)
    → Best NoBetter (λ _. true) (by_start (filter passes rows)) o
    → Best NoBetter passes rows o
unfolding Best
sorted-Best NoBetter passes rows none h = λ r i. elim (Bool-cases (passes r)) [
  | inl e ↦ absurd (not_true (sym (h r (by_start-keeps r _ (In-filter r passes rows i e)))))
  | inr e ↦ e
]
sorted-Best NoBetter passes rows (some s) (i, _, best) =
    let (found, passing) = filter-In s passes rows (by_start-adds s (filter passes rows) i) in
    (found, passing, λ r j e. best r (by_start-keeps r _ (In-filter r passes rows j e)) refl)

-- The row that playback is given for a moment covers it, and no row that covers it starts later; the row that
-- it is given to jump to starts at or after the moment, and no row that does so starts earlier. There
-- is no answer only when no row covers the moment, or starts at or after it.
pub lookups-Best :
    (rows : List Segment) (timestamp_ms : ℤ)
    → Best NotLater (covers timestamp_ms) rows (find_covering rows timestamp_ms)
      × Best NotEarlier (starts_from timestamp_ms) rows (find_next_after rows timestamp_ms)
unfolding find_covering find_next_after
lookups-Best rows timestamp_ms = (
  sorted-Best NotLater (covers timestamp_ms) rows _
      (last-Best _ (by_start-InOrder (filter (covers timestamp_ms) rows))),
  sorted-Best NotEarlier (starts_from timestamp_ms) rows _
      (first-Best _ (by_start-InOrder (filter (starts_from timestamp_ms) rows))),
)
