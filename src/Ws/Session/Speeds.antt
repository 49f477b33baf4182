-- ===== src/Ws/Session/Speeds.antt =====
-- The speed that is applied for a requested one, `clamp_speed` of backend/src/ws/session.rs.
use native.Mathlib.Nat.{div-mul-le_self, lt-div-mul-add}
use on_air_record.Base.{
  ◌+◌, ◌-◌, ◌*◌, ◌/◌, ◌%◌, zero, suc, ltb, ◌⊎◌, inl, inr, All-map, if_branches, ℕ, ◌<◌, ◌≤◌, ◌≡◌,
  refl, arith, Bool, true, false, List, [], ◌∷◌, ◌||◌, ◌==◌, leb, leb→le, if◌then◌else◌, All,
}
use on_air_record.Base.Int.{ℤ, pos, ◌-ℤ◌, abs_ℤ}
use on_air_record.Ws.Session.{
  f32_of, step_of, round_to, round_f32, Requested, finite, not_finite, nearest, clamp_speed,
  distance, playback_speeds,
}
use on_air_record.Ws.Session.Coherent.{offered}

or_first : (a b c : Bool) → a || b ≡ true → a || (c || b) ≡ true
or_first true b c e = refl
or_first false b true e = refl
or_first false b false e = e

or_second : (a b : Bool) → b ≡ true → a || b ≡ true
or_second true b e = refl
or_second false b e = e

or_self : (n : ℕ) → (n == n) || false ≡ true
or_self n = ground arith

leb→gt : (a b : ℕ) → leb a b ≡ false → b < a
leb→gt a b e = ground arith

-- One of them, and none of them closer.
unfoldable IsClosest : ℤ → ℕ → List ℕ → Type 0
IsClosest value best speeds =
    (offered best speeds ≡ true) × All (λ speed. distance value best ≤ distance value speed) speeds

alone : (value : ℤ) (best : ℕ) → IsClosest value best (best ∷ [])
unfolding IsClosest offered
alone value best = (or_self best, (omega arith, tt))

next-IsClosest :
    (value : ℤ) (best speed : ℕ) (speeds : List ℕ) (n : ℕ) (b : Bool)
    → leb (distance value best) (distance value speed) ≡ b
    → IsClosest value n ((if b then best else speed) ∷ speeds)
    → IsClosest value n (best ∷ speed ∷ speeds)
unfolding IsClosest offered
next-IsClosest value best speed speeds n true e (among, (closer, rest)) =
    let step = leb→le (distance value best) (distance value speed) e in
    (
      or_first (n == best) (offered n speeds) (n == speed) among,
      (closer, (omega (arith, closer, step), rest)),
    )
next-IsClosest value best speed speeds n false e (among, (closer, rest)) =
    let step = leb→gt (distance value best) (distance value speed) e in
    (or_second (n == best) _ among, (omega (arith, closer, step), (closer, rest)))

nearest-IsClosest :
    (value : ℤ) (best : ℕ) (speeds : List ℕ)
    → IsClosest value (nearest value best speeds) (best ∷ speeds)
unfolding nearest
nearest-IsClosest value best [] = alone value best
nearest-IsClosest value best (speed ∷ speeds) =
    let b = leb (distance value best) (distance value speed) in
    next-IsClosest value best speed speeds _ b refl
      (nearest-IsClosest value (if b then best else speed) speeds)

-- A step that f32 has at `n`: the smallest one, or one of which `n` has 2 ^ 23.
Steps : ℕ → ℕ → Type 0
Steps n step = (1 ≤ step) × ((step ≡ 1) ⊎ (8388608 * step ≤ n))

wider-Steps : (n step : ℕ) → ltb n (16777216 * step) ≡ false → 1 ≤ step → Steps n (2 * step)
unfolding Steps
wider-Steps n step e h = (omega (arith, h), inr (ground (arith, e)))

step_of-Steps : (fuel n step : ℕ) → Steps n step → Steps n (step_of fuel n step)
unfolding step_of Steps
step_of-Steps zero n step h = h
step_of-Steps (suc fuel) n step h =
    if_branches (Steps n) (ltb n (16777216 * step)) step (step_of fuel n (2 * step)) (λ _. h)
      (λ e. step_of-Steps fuel n (2 * step) (wider-Steps n step e h.0))

-- Within a relative error of 2 ^ -24.
Near : ℕ → ℕ → Type 0
Near n rounded = (16777215 * n ≤ 16777216 * rounded) × (16777216 * rounded ≤ 16777217 * n)

round_to-Near : (n step : ℕ) → Steps n step → Near n (round_to n step)
unfolding round_to Near Steps
round_to-Near n step (some_step, fine) =
    either_way (n / step * step) (n / step % 2 == 0) (div-mul-le_self n step)
      (lt-div-mul-add some_step) fine
  where
    either_way :
        (low : ℕ) (even : Bool)
        → low ≤ n
        → n < low + step
        → (step ≡ 1) ⊎ (8388608 * step ≤ n)
        → let rest = 2 * (n - low) in
          Near n (
            if ltb rest step
            then low
            else if ltb step rest
            then low + step
            else if even
            then low
            else low + step)
    either_way low true a b (inl one) = ground (arith, a, b, one)
    either_way low false a b (inl one) = ground (arith, a, b, one)
    either_way low true a b (inr many) = ground (arith, a, b, many)
    either_way low false a b (inr many) = ground (arith, a, b, many)

round_f32-Near : (n : ℕ) → Near n (round_f32 n)
unfolding round_f32 Steps
round_f32-Near n = round_to-Near n (step_of 300 n 1) (step_of-Steps 300 n 1 (omega arith, inl refl))

-- How far a speed is from the requested one.
abbrev pub gap : ℤ → ℕ → ℕ
gap value speed = abs_ℤ (pos (f32_of speed) -ℤ value)

-- One of them, and none of them closer by more than a relative error of 2 ^ -23.
unfoldable pub IsNearest : ℤ → ℕ → List ℕ → Type 0
IsNearest value best speeds =
    (offered best speeds ≡ true)
    × All (λ speed. 16777215 * gap value best ≤ 16777217 * gap value speed) speeds

closest-gap :
    (value : ℤ) (best speed : ℕ)
    → distance value best ≤ distance value speed
    → 16777215 * gap value best ≤ 16777217 * gap value speed
unfolding distance Near
closest-gap value best speed h =
    let a = round_f32-Near (gap value best) in
    let b = round_f32-Near (gap value speed) in omega (arith, h, a.0, b.1)

-- The applied speed is an offered one, and no offered speed is closer to a finite request, in exact
-- arithmetic, but for the rounding of f32: its distance is at most 16777217 / 16777215 of any other's.
pub clamp_speed-IsNearest :
    (value : ℤ) → IsNearest value (clamp_speed (finite value)) playback_speeds
unfolding clamp_speed IsNearest IsClosest
clamp_speed-IsNearest value =
    let best = clamp_speed (finite value) in
    let (among, closest) = nearest-IsClosest value 25 (50 ∷ 100 ∷ 150 ∷ 200 ∷ 400 ∷ []) in
    (
      among,
      All-map (λ speed. distance value best ≤ distance value speed) _ playback_speeds
          (λ speed h. closest-gap value best speed h) closest,
    )

pub clamp_speed-offered : (value : Requested) → offered (clamp_speed value) playback_speeds ≡ true
unfolding clamp_speed IsClosest offered
clamp_speed-offered not_finite = refl
clamp_speed-offered (finite value) =
    (nearest-IsClosest value 25 (50 ∷ 100 ∷ 150 ∷ 200 ∷ 400 ∷ [])).0
