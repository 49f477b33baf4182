-- ===== src/Repositories/Segments/Order.antt =====
-- ORDER BY started_at_ms of backend/src/repositories/segment_repository.rs.
use on_air_record.Base.{inl, inr, List, [], ◌∷◌, map, All, arith, if_branches}
use on_air_record.Base.Int.{ℤ, ◌≤ℤ◌, leb_ℤ, leb_ℤ→le, leb_ℤ→gt, le_ℤ_trans}
use on_air_record.Models.Segment.{Segment, range}
use on_air_record.Models.Segment.Coverage.{Sorted, Covers}
use on_air_record.Repositories.Segments.{place, by_start}

-- Each row starts no later than those after it.
unfoldable pub InOrder : List Segment → Type 0
InOrder [] = Unit
InOrder (s ∷ rows) = All (λ r. s.started_at_ms ≤ℤ r.started_at_ms) rows × InOrder rows

pub place-All :
    (P : Segment → Type 0) (s : Segment) (rows : List Segment)
    → P s
    → All P rows
    → All P (place s rows)
unfolding place
place-All P s [] p h = (p, tt)
place-All P s (r ∷ rows) p (q, h) =
    if_branches (All P) (leb_ℤ s.started_at_ms r.started_at_ms) _ _ (λ e. (p, (q, h)))
      (λ e. (q, place-All P s rows p h))

pub by_start-All : (P : Segment → Type 0) (rows : List Segment) → All P rows → All P (by_start rows)
unfolding by_start
by_start-All P [] h = tt
by_start-All P (s ∷ rows) (p, h) = place-All P s (by_start rows) p (by_start-All P rows h)

All-from :
    (low high : ℤ) (rows : List Segment)
    → low ≤ℤ high
    → All (λ r. high ≤ℤ r.started_at_ms) rows
    → All (λ r. low ≤ℤ r.started_at_ms) rows
All-from low high [] h a = tt
All-from low high (r ∷ rows) h (p, a) =
    (le_ℤ_trans low high r.started_at_ms h p, All-from low high rows h a)

place-InOrder : (s : Segment) (rows : List Segment) → InOrder rows → InOrder (place s rows)
unfolding place InOrder
place-InOrder s [] h = (tt, tt)
place-InOrder s (r ∷ rows) (from, h) =
    if_branches InOrder (leb_ℤ s.started_at_ms r.started_at_ms) _ _
      (λ e.
        let low = leb_ℤ→le s.started_at_ms r.started_at_ms e in
        ((low, All-from s.started_at_ms r.started_at_ms rows low from), (from, h)))
      (λ e. (
        place-All (λ q. r.started_at_ms ≤ℤ q.started_at_ms) s rows
            (omega (arith, leb_ℤ→gt s.started_at_ms r.started_at_ms e)) from,
        place-InOrder s rows h,
      ))

pub by_start-InOrder : (rows : List Segment) → InOrder (by_start rows)
unfolding by_start InOrder
by_start-InOrder [] = tt
by_start-InOrder (s ∷ rows) = place-InOrder s (by_start rows) (by_start-InOrder rows)

pub InOrder-Sorted :
    (from_ms : ℤ) (rows : List Segment)
    → All (λ r. from_ms ≤ℤ r.started_at_ms) rows
    → InOrder rows
    → Sorted from_ms (map range rows)
unfolding InOrder Sorted
InOrder-Sorted from_ms [] a h = tt
InOrder-Sorted from_ms (s ∷ rows) (p, a) (from, h) = (p, InOrder-Sorted s.started_at_ms rows from h)

-- With a row in front that the insertion passes.
passed-Covers :
    (t : ℤ) (s r : Segment) (rows placed : List Segment)
    → (Covers t (map range (s ∷ rows)) → Covers t (map range placed))
    → Covers t (map range (s ∷ r ∷ rows))
    → Covers t (map range (r ∷ placed))
unfolding Covers
passed-Covers t s r rows placed later (inl here) = inr (later (inl here))
passed-Covers t s r rows placed later (inr (inl here)) = inl here
passed-Covers t s r rows placed later (inr (inr beyond)) = inr (later (inr beyond))

place-Covers :
    (t : ℤ) (s : Segment) (rows : List Segment)
    → Covers t (map range (s ∷ rows))
    → Covers t (map range (place s rows))
unfolding place
place-Covers t s [] c = c
place-Covers t s (r ∷ rows) c =
    if_branches (λ l. Covers t (map range l)) (leb_ℤ s.started_at_ms r.started_at_ms) _ _ (λ e. c)
      (λ e. passed-Covers t s r rows (place s rows) (place-Covers t s rows) c)

pub by_start-Covers :
    (t : ℤ) (rows : List Segment) → Covers t (map range rows) → Covers t (map range (by_start rows))
unfolding by_start Covers
by_start-Covers t [] c = c
by_start-Covers t (s ∷ rows) (inl here) = place-Covers t s (by_start rows) (inl here)
by_start-Covers t (s ∷ rows) (inr later) =
    place-Covers t s (by_start rows) (inr (by_start-Covers t rows later))
