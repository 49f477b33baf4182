-- ===== src/Services/Retention/Pages.antt =====
-- One page of expired rows: which of them are gone afterwards, and where the next page starts.
use on_air_record.Base.{
  ℕ, ◌≡◌, refl, ◌∙◌, ap, arith, Bool, true, false, not, Option, some, List, [], ◌∷◌, ◌++◌, length,
  All, All-append, All-map, All-parts, ◌==◌,
}
use on_air_record.Base.Filter.{filter, filter-append, filter-all, filter-cons_false}
use on_air_record.Base.Int.{ℤ, pos, ◌+ℤ◌, int_laws, eq_of_parts}
use on_air_record.Models.Segment.{Segment}
use on_air_record.Services.Retention.{
  Surroundings, Sweep, Removal, removed, not_found, refused, is_past, delete,
}

abbrev pub key : Segment → Option (ℤ × ℕ)
key s = some (s.ended_at_ms, s.id)

-- One row stands before another in the order of the query, and they are different rows.
unfoldable pub Apart : Segment → Segment → Type 0
Apart x y = (is_past (key x) y ≡ true) × ((x.id == y.id) ≡ false)

unfoldable pub Ordered : List Segment → Type 0
Ordered [] = Unit
Ordered (x ∷ xs) = All (Apart x) xs × Ordered xs

past_self : (x : Segment) → is_past (key x) x ≡ false
unfolding is_past
past_self x = ground arith

past_back : (x y : Segment) → is_past (key x) y ≡ true → is_past (key y) x ≡ false
unfolding is_past
past_back x y h = ground (arith, h)

self_differs : (s : Segment) → not (s.id == s.id) ≡ false
self_differs s = ground arith

differs_after : (x y : Segment) → (x.id == y.id) ≡ false → not (y.id == x.id) ≡ true
differs_after x y h = ground (arith, h)

pub Ordered-at :
    (xs : List Segment) (s : Segment) (ys : List Segment)
    → Ordered (xs ++ s ∷ ys)
    → All (λ x. Apart x s) xs × All (Apart s) ys
unfolding Ordered
Ordered-at [] s ys h = (tt, h.0)
Ordered-at (x ∷ xs) s ys h =
    let (before, after) = Ordered-at xs s ys h.1 in
    (((All-parts (Apart x) xs (s ∷ ys) h.0).1.0, before), after)

abbrev pub is_refused : Removal → Bool
is_refused removed = false
is_refused not_found = false
is_refused (refused message) = true

unfoldable pub total_bytes : List Segment → ℤ
total_bytes [] = pos 0
total_bytes (s ∷ rows) = s.byte_len +ℤ total_bytes rows

pub total_bytes-append_one :
    (rows : List Segment) (s : Segment)
    → total_bytes (rows ++ s ∷ []) ≡ total_bytes rows +ℤ s.byte_len
unfolding total_bytes
total_bytes-append_one [] s = eq_of_parts _ _ (omega int_laws)
total_bytes-append_one (x ∷ rows) s = rw (total_bytes-append_one rows s) (
    eq_of_parts (x.byte_len +ℤ (total_bytes rows +ℤ s.byte_len))
      (x.byte_len +ℤ total_bytes rows +ℤ s.byte_len) (omega int_laws))

module _ (around : Surroundings) where
  -- Its file cannot be deleted.
  abbrev pub is_stuck : Segment → Bool
  is_stuck s = is_refused (around.remove_file s)

  abbrev pub is_deletable : Segment → Bool
  is_deletable s = not (is_refused (around.remove_file s))

  module _ (fresh : List Segment) where
    -- After the rows `done` and before the rows `todo`: what is left, and what was counted.
    unfoldable pub Swept : Sweep → List Segment → List Segment → Type 0
    Swept p done todo =
        (p.rows ≡ filter is_stuck done ++ (todo ++ fresh))
        × (p.report.segments_deleted ≡ length (filter is_deletable done))
        × (p.report.bytes_reclaimed ≡ total_bytes (filter is_deletable done))

    -- The position is after the rows that are done and before those to do.
    unfoldable pub Splits : Option (ℤ × ℕ) → List Segment → List Segment → Type 0
    Splits after done todo =
        All (λ x. is_past after x ≡ false) done × All (λ x. is_past after x ≡ true) todo

    pub Splits-key :
        (done : List Segment) (s : Segment) (todo : List Segment)
        → All (λ x. Apart x s) done
        → All (Apart s) todo
        → Splits (key s) (done ++ s ∷ []) todo
    unfolding Splits Apart
    Splits-key done s todo before after = (
      All-append (λ x. is_past (key s) x ≡ false) done (s ∷ [])
          (All-map (λ x. Apart x s) (λ x. is_past (key s) x ≡ false) done (λ x a. past_back x s a.0)
            before)
          (past_self s, tt),
      All-map (Apart s) (λ x. is_past (key s) x ≡ true) todo (λ x a. a.0) after,
    )

    pub delete-one :
        (kept : List Segment) (s : Segment) (later : List Segment)
        → All (λ x. Apart x s) kept
        → All (Apart s) later
        → delete (kept ++ s ∷ later) s.id ≡ kept ++ later
    unfolding delete Apart
    delete-one kept s later before after =
        let keeps = λ (x : Segment). not (x.id == s.id) in
        filter-append keeps kept (s ∷ later)
        ∙ rw
            (
              filter-all keeps kept
                  (All-map (λ x. Apart x s) (λ x. keeps x ≡ true) kept (λ x a. ap not a.1) before),
              filter-cons_false keeps s later (self_differs s),
              filter-all keeps later (
                  All-map (Apart s) (λ x. keeps x ≡ true) later (λ x a. differs_after s x a.1)
                    after),
            )
            refl
