-- ===== src/Models/Update/Order.antt =====
-- The comparison of versions, backend/src/models/update.rs.
use Prim.Native.Nat.{Ordering, compare}
use on_air_record.Base.{ℕ, ◌≡◌, ◌<◌, ◌⊎◌, inl, inr, refl, sym, ap, Option, none, some, arith}
use on_air_record.Models.Update.{Version, then_with, cmp_beta, cmp}

abbrev pub flip : Ordering → Ordering
flip Ordering.lt = Ordering.gt
flip Ordering.eq = Ordering.eq
flip Ordering.gt = Ordering.lt

flip-compare : (a b : ℕ) → flip (compare a b) ≡ compare b a
flip-compare a b = ground arith

flip-then_with : (a b : Ordering) → flip (then_with a b) ≡ then_with (flip a) (flip b)
flip-then_with Ordering.lt b = refl
flip-then_with Ordering.eq b = refl
flip-then_with Ordering.gt b = refl

flip-cmp_beta : (a b : Option ℕ) → flip (cmp_beta a b) ≡ cmp_beta b a
unfolding cmp_beta
flip-cmp_beta none none = refl
flip-cmp_beta none (some y) = refl
flip-cmp_beta (some x) none = refl
flip-cmp_beta (some x) (some y) = flip-compare x y

cmp_beta-eq : (a b : Option ℕ) → cmp_beta a b ≡ Ordering.eq → a ≡ b
unfolding cmp_beta
cmp_beta-eq none none e = refl
cmp_beta-eq none (some y) e = ground (arith, e)
cmp_beta-eq (some x) none e = ground (arith, e)
cmp_beta-eq (some x) (some y) e = ap some (ground (arith, e))

-- How the comparison of two ends follows from those with a middle.
Composes : Ordering → Ordering → Ordering → Type 0
Composes a b c =
    (a ≡ Ordering.lt → b ≡ Ordering.lt → c ≡ Ordering.lt)
    × (a ≡ Ordering.lt → b ≡ Ordering.eq → c ≡ Ordering.lt)
    × (a ≡ Ordering.eq → c ≡ b)

compare-Composes : (x y z : ℕ) → Composes (compare x y) (compare y z) (compare x z)
unfolding Composes
compare-Composes x y z =
    (λ e f. ground (arith, e, f), λ e f. ground (arith, e, f), λ e. ground (arith, e))

cmp_beta-Composes : (x y z : Option ℕ) → Composes (cmp_beta x y) (cmp_beta y z) (cmp_beta x z)
unfolding Composes cmp_beta
cmp_beta-Composes none none z = (λ e f. ground (arith, e), λ e f. ground (arith, e), λ e. refl)
cmp_beta-Composes none (some y) z =
    (λ e f. ground (arith, e), λ e f. ground (arith, e), λ e. ground (arith, e))
cmp_beta-Composes (some x) none none = (λ e f. refl, λ e f. refl, λ e. ground (arith, e))
cmp_beta-Composes (some x) none (some z) =
    (λ e f. ground (arith, f), λ e f. ground (arith, f), λ e. ground (arith, e))
cmp_beta-Composes (some x) (some y) none = (λ e f. refl, λ e f. refl, λ e. refl)
cmp_beta-Composes (some x) (some y) (some z) = compare-Composes x y z

then_with-Composes :
    (a b c p q r : Ordering)
    → Composes a b c
    → Composes p q r
    → Composes (then_with a p) (then_with b q) (then_with c r)
unfolding Composes
then_with-Composes Ordering.lt Ordering.lt c p q r (l, m, n) w =
    (λ e f. rw (l refl refl), λ e f. ground (arith, f), λ e. ground (arith, e))
then_with-Composes Ordering.lt Ordering.eq c p q r (l, m, n) w =
    (λ e f. rw (m refl refl), λ e f. rw (m refl refl), λ e. ground (arith, e))
then_with-Composes Ordering.lt Ordering.gt c p q r (l, m, n) w =
    (λ e f. ground (arith, f), λ e f. ground (arith, f), λ e. ground (arith, e))
then_with-Composes Ordering.eq Ordering.lt c p q r (l, m, n) w =
    (λ e f. rw (n refl), λ e f. ground (arith, f), λ e. rw (n refl))
then_with-Composes Ordering.eq Ordering.eq c p q r (l, m, n) w =
    (λ e f. rw (n refl) (w.0 e f), λ e f. rw (n refl) (w.1 e f), λ e. rw (n refl) (w.2 e))
then_with-Composes Ordering.eq Ordering.gt c p q r (l, m, n) w =
    (λ e f. ground (arith, f), λ e f. ground (arith, f), λ e. rw (n refl))
then_with-Composes Ordering.gt b c p q r (l, m, n) w =
    (λ e f. ground (arith, e), λ e f. ground (arith, e), λ e. ground (arith, e))

cmp-Composes : (v w x : Version) → Composes (cmp v w) (cmp w x) (cmp v x)
unfolding cmp
cmp-Composes v w x =
    then_with-Composes _ _ _ _ _ _
      (then_with-Composes _ _ _ _ _ _ (compare-Composes v.major w.major x.major) (
        then_with-Composes _ _ _ _ _ _ (compare-Composes v.minor w.minor x.minor)
          (compare-Composes v.patch w.patch x.patch)))
      (cmp_beta-Composes v.pre w.pre x.pre)

then_with-eq :
    (a b : Ordering) → then_with a b ≡ Ordering.eq → (a ≡ Ordering.eq) × (b ≡ Ordering.eq)
then_with-eq Ordering.lt b e = ground (arith, e)
then_with-eq Ordering.eq b e = (refl, e)
then_with-eq Ordering.gt b e = ground (arith, e)

compare-eq : (a b : ℕ) → compare a b ≡ Ordering.eq → a ≡ b
compare-eq a b e = ground (arith, e)

flip-cmp : (v w : Version) → flip (cmp v w) ≡ cmp w v
unfolding cmp
flip-cmp v w =
    rw
      (
        flip-then_with
            (then_with (compare v.major w.major)
              (then_with (compare v.minor w.minor) (compare v.patch w.patch)))
            (cmp_beta v.pre w.pre),
        flip-then_with (compare v.major w.major)
            (then_with (compare v.minor w.minor) (compare v.patch w.patch)),
        flip-then_with (compare v.minor w.minor) (compare v.patch w.patch),
        flip-compare v.major w.major,
        flip-compare v.minor w.minor,
        flip-compare v.patch w.patch,
        flip-cmp_beta v.pre w.pre,
      )
      refl

same_version :
    (v w : Version)
    → v.major ≡ w.major
    → v.minor ≡ w.minor
    → v.patch ≡ w.patch
    → v.pre ≡ w.pre
    → v ≡ w
same_version v w a b c d = λ i. record { major = a i; minor = b i; patch = c i; pre = d i }

cmp-eq : (v w : Version) → cmp v w ≡ Ordering.eq → v ≡ w
unfolding cmp
cmp-eq v w e =
    let (core, pre) =
      then_with-eq
        (then_with (compare v.major w.major)
          (then_with (compare v.minor w.minor) (compare v.patch w.patch)))
        (cmp_beta v.pre w.pre) e in
    let (major, rest) =
      then_with-eq (compare v.major w.major)
        (then_with (compare v.minor w.minor) (compare v.patch w.patch)) core in
    let (minor, patch) = then_with-eq (compare v.minor w.minor) (compare v.patch w.patch) rest in
    same_version v w (compare-eq v.major w.major major) (compare-eq v.minor w.minor minor)
      (compare-eq v.patch w.patch patch) (cmp_beta-eq v.pre w.pre pre)

OlderBeta : Option ℕ → Option ℕ → Type 0
OlderBeta none w = ⊥
OlderBeta (some x) none = Unit
OlderBeta (some x) (some y) = x < y

-- By the first part of three in which two versions differ; with all three the same, a beta is older than
-- the release and a beta with a lower number than one with a higher.
unfoldable pub Older : Version → Version → Type 0
unfolding OlderBeta
Older v w =
    (v.major < w.major)
    ⊎ ((v.major ≡ w.major)
        × ((v.minor < w.minor)
            ⊎ ((v.minor ≡ w.minor)
                × ((v.patch < w.patch) ⊎ ((v.patch ≡ w.patch) × OlderBeta v.pre w.pre)))))

compare-lt : (a b : ℕ) → a < b → compare a b ≡ Ordering.lt
compare-lt a b h = ground (arith, h)

compare-same : (a b : ℕ) → a ≡ b → compare a b ≡ Ordering.eq
compare-same a b h = ground (arith, h)

cmp_beta-lt : (a b : Option ℕ) → OlderBeta a b → cmp_beta a b ≡ Ordering.lt
unfolding OlderBeta cmp_beta
cmp_beta-lt none w h = absurd h
cmp_beta-lt (some x) none h = refl
cmp_beta-lt (some x) (some y) h = compare-lt x y h

cmp-lt : (v w : Version) → Older v w → cmp v w ≡ Ordering.lt
unfolding cmp Older
cmp-lt v w (inl a) = rw (compare-lt v.major w.major a) refl
cmp-lt v w (inr (a, inl b)) = rw (compare-same v.major w.major a, compare-lt v.minor w.minor b) refl
cmp-lt v w (inr (a, inr (b, inl c))) =
    rw
      (compare-same v.major w.major a, compare-same v.minor w.minor b, compare-lt v.patch w.patch c)
      refl
cmp-lt v w (inr (a, inr (b, inr (c, d)))) =
    rw
      (
        compare-same v.major w.major a,
        compare-same v.minor w.minor b,
        compare-same v.patch w.patch c,
        cmp_beta-lt v.pre w.pre d,
      )
      refl

-- The comparison of versions is a total order: turned round it answers the other way, only equal
-- versions compare as equal, and what is newer than a newer version is newer still. It is the order by
-- major, minor and patch, and with those the same a beta is older than the release, and than a beta with
-- a higher number.
pub cmp-total :
    (v w x : Version)
    → (cmp w v ≡ flip (cmp v w))
      × (cmp v w ≡ Ordering.eq → v ≡ w)
      × (cmp v w ≡ Ordering.lt → cmp w x ≡ Ordering.lt → cmp v x ≡ Ordering.lt)
      × (Older v w → cmp v w ≡ Ordering.lt)
unfolding Composes
cmp-total v w x = (sym (flip-cmp v w), cmp-eq v w, (cmp-Composes v w x).0, cmp-lt v w)
