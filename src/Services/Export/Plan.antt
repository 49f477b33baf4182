-- ===== src/Services/Export/Plan.antt =====
-- The plan of an export (backend/src/services/export_service.rs).
use native.Mathlib.Nat.{zero-mul}
use on_air_record.Base.{
  ℕ, ◌+◌, ◌≤◌, ◌<◌, ◌*◌, ◌/◌, ◌^◌, zero, suc, leb, ap, ◌∙◌, ◌≡◌, ◌≢◌, refl, sym, arith, min, max,
  Bool, true, false, not, ◌&&◌, Bool-cases, inl, inr, Option, none, some, List, [], ◌∷◌, All, ltb,
  ◌==◌, if◌then◌else◌,
}
use on_air_record.Base.Int.{ℤ, pos, negsuc, pos_part, max_ℤ, ◌-ℤ◌, leb_ℤ}
use on_air_record.Models.Segment.{Segment, TimeRange}
use on_air_record.Audio.Wav.{
  header_bytes, data_bytes_for, checked_mul, fitting, then_mul, then_div, max_data_bytes,
}
use on_air_record.Services.Playback.{ok}
use on_air_record.Services.Export.{
  ExportPlan, Planned, planned, not_planned, any, lowest_rate, plan_bytes, plan_rows, plan,
  max_export_bytes, duration_ms, mixed_rates_on_channels,
}

lowest_rate-le :
    (rate : ℕ) (rows : List Segment)
    → (lowest_rate rate rows ≤ rate) × All (λ s. lowest_rate rate rows ≤ s.sample_rate) rows
unfolding lowest_rate
lowest_rate-le rate [] = (omega arith, tt)
lowest_rate-le rate (s ∷ rows) =
    let (first, later) = lowest_rate-le (min rate s.sample_rate) rows in
    (omega (arith, first), (omega (arith, first), later))

none_of :
    (test : Segment → Bool) (rows : List Segment)
    → any test rows ≡ false
    → All (λ s. test s ≡ false) rows
none_of test [] e = tt
none_of test (s ∷ rows) e = elim (Bool-cases (test s)) [
  | inl t ↦ absurd (no_hit (test s) (any test rows) t e)
  | inr t ↦ (t, none_of test rows (no_rest (test s) (any test rows) t e))
]
  where
    no_hit : (b c : Bool) → b ≡ true → (if b then true else c) ≢ false
    no_hit true c t = λ e. ground (arith, e)
    no_hit false c t = λ e. ground (arith, t)

    no_rest : (b c : Bool) → b ≡ false → (if b then true else c) ≡ false → c ≡ false
    no_rest true c t e = ground (arith, t)
    no_rest false c t e = e

-- What holds of a plan, if there is one.
abbrev pub IfPlanned : (ExportPlan → Type 0) → Planned → Type 0
IfPlanned P (planned p) = P p
IfPlanned P (not_planned reason) = Unit

-- For the rows of the range; a sample has two bytes for each channel.
unfoldable pub Promises : TimeRange → List Segment → ExportPlan → Type 0
Promises range rows p =
    (1 ≤ p.sample_rate)
    × (All (λ s. (p.sample_rate ≤ s.sample_rate) × (max s.channels 1 ≡ p.channels)) rows)
    × (p.data_bytes ≤ max_export_bytes)
    × (p.total_bytes ≡ header_bytes + p.data_bytes)
    × ((samples : ℕ) × ((p.data_bytes ≡ samples * max p.channels 1 * 2)
          × (samples * 1000 ≤ pos_part (range.end_ms -ℤ range.start_ms) * p.sample_rate)
          × (pos_part (range.end_ms -ℤ range.start_ms) * p.sample_rate < samples * 1000 + 1000)))

some-inj : (a b : ℕ) → some a ≡ some b → a ≡ b
some-inj a b e = ground (arith, e)

checked_mul-some : (a b c : ℕ) → checked_mul a b ≡ some c → c ≡ a * b
unfolding checked_mul
checked_mul-some a b c e = elim (Bool-cases (ltb (a * b) (2 ^ 64))) [
  | inl t ↦ some-inj c (a * b) (sym e ∙ rw t refl)
  | inr t ↦ absurd (no_value (rw t at e))
]
  where
    no_value : Path (Option ℕ) none (some c) → ⊥
    no_value e = ground (arith, e)

fitting-some : (o : Option ℕ) (bytes : ℕ) → fitting o ≡ some bytes → o ≡ some bytes
unfolding fitting
fitting-some none bytes e = e
fitting-some (some n) bytes e = elim (Bool-cases (leb n max_data_bytes)) [
  | inl t ↦ rw t at e
  | inr t ↦ absurd (no_value (rw t at e))
]
  where
    no_value : Path (Option ℕ) none (some bytes) → ⊥
    no_value e = ground (arith, e)

then_mul-some :
    (o : Option ℕ) (b c : ℕ) → then_mul o b ≡ some c → (a : ℕ) × ((o ≡ some a) × (c ≡ a * b))
then_mul-some none b c e = absurd (no_value e)
  where
    no_value : Path (Option ℕ) none (some c) → ⊥
    no_value e = ground (arith, e)
then_mul-some (some a) b c e = (a, (refl, checked_mul-some a b c e))

then_div-some : (a b n : ℕ) → then_div (checked_mul a b) 1000 ≡ some n → n ≡ a * b / 1000
then_div-some a b n e = from (checked_mul a b) refl e
  where
    from : (o : Option ℕ) → checked_mul a b ≡ o → then_div o 1000 ≡ some n → n ≡ a * b / 1000
    from none same e = absurd (no_value e)
      where
        no_value : Path (Option ℕ) none (some n) → ⊥
        no_value e = ground (arith, e)
    from (some m) same e =
        some-inj n (m / 1000) (sym e) ∙ ap (λ x. x / 1000) (checked_mul-some a b m same)

-- The bytes of a duration, from its whole number of samples.
data_bytes_for-Samples :
    (rate channels bytes : ℕ) (duration : ℤ)
    → data_bytes_for rate channels duration ≡ some bytes
    → bytes ≡ pos_part duration * rate / 1000 * max channels 1 * 2
unfolding data_bytes_for checked_mul fitting
data_bytes_for-Samples rate channels bytes duration e = elim (Bool-cases (leb_ℤ duration (pos 0))) [
  | inl t ↦ nothing duration t (some-inj bytes 0 (sym e ∙ rw t refl))
  | inr t ↦
      let (twice, (all, doubled)) = then_mul-some _ 2 bytes (fitting-some _ bytes (rw t at e)) in
      let (samples, (each, spread)) = then_mul-some _ (max channels 1) twice all in
      doubled
      ∙ ap (λ n. n * 2)
          (spread
            ∙ ap (λ n. n * max channels 1) (then_div-some (pos_part duration) rate samples each))
]
  where
    no_time : (c : ℕ) → 0 ≡ 0 * rate / 1000 * c * 2
    no_time c =
        let none_of_it : 0 * rate / 1000 ≡ 0 = omega arith in
        rw (none_of_it, zero-mul, zero-mul) refl

    nothing :
        (duration : ℤ)
        → leb_ℤ duration (pos 0) ≡ true
        → bytes ≡ 0
        → bytes ≡ pos_part duration * rate / 1000 * max channels 1 * 2
    nothing (pos zero) t e = rw e (no_time (max channels 1))
    nothing (pos (suc n)) t e = ground (arith, t)
    nothing (negsuc n) t e = rw e (no_time (max channels 1))

whole_samples : (x : ℕ) → (x / 1000 * 1000 ≤ x) × (x < x / 1000 * 1000 + 1000)
whole_samples x = (omega arith, omega arith)

duration_ms-pos_part :
    (range : TimeRange) → pos_part (duration_ms range) ≡ pos_part (range.end_ms -ℤ range.start_ms)
unfolding duration_ms max_ℤ
duration_ms-pos_part range = at_least_0 (range.end_ms -ℤ range.start_ms)
  where
    at_least_0 : (x : ℤ) → pos_part (max_ℤ x (pos 0)) ≡ pos_part x
    at_least_0 (pos zero) = refl
    at_least_0 (pos (suc n)) = ground arith
    at_least_0 (negsuc n) = ground arith

audio_samples :
    (range : TimeRange) (rate channels bytes : ℕ)
    → data_bytes_for rate channels (duration_ms range) ≡ some bytes
    → (samples : ℕ) × ((bytes ≡ samples * max channels 1 * 2)
        × (samples * 1000 ≤ pos_part (range.end_ms -ℤ range.start_ms) * rate)
        × (pos_part (range.end_ms -ℤ range.start_ms) * rate < samples * 1000 + 1000))
audio_samples range rate channels bytes e =
    let all = pos_part (range.end_ms -ℤ range.start_ms) * rate in
    let same = ap (λ d. d * rate / 1000 * max channels 1 * 2) (duration_ms-pos_part range) in
    let (low, high) = whole_samples all in
    (
      all / 1000,
      (data_bytes_for-Samples rate channels bytes (duration_ms range) e ∙ same, low, high),
    )

plan_bytes-Promises :
    (range : TimeRange) (rows : List Segment) (rate channels : ℕ) (mixed : Bool) (o : Option ℕ)
    → 1 ≤ rate
    → All (λ s. (rate ≤ s.sample_rate) × (max s.channels 1 ≡ channels)) rows
    → data_bytes_for rate channels (duration_ms range) ≡ o
    → IfPlanned (Promises range rows) (plan_bytes range rate channels mixed o)
unfolding plan_bytes Promises
plan_bytes-Promises range rows rate channels mixed none some_rate all e = tt
plan_bytes-Promises range rows rate channels mixed (some bytes) some_rate all e =
    elim (Bool-cases (ltb max_export_bytes bytes)) [
      | inl t ↦ rw t tt
      | inr t ↦
          rw t (
            some_rate,
            all,
            not_over bytes t,
            omega arith,
            audio_samples range rate channels bytes e,
          )
    ]
  where
    not_over : (bytes : ℕ) → ltb max_export_bytes bytes ≡ false → bytes ≤ max_export_bytes
    not_over bytes t = ground (arith, t)

both :
    (rate channels : ℕ) (rows : List Segment)
    → All (λ s. rate ≤ s.sample_rate) rows
    → All (λ s. not (max s.channels 1 == channels) ≡ false) rows
    → All (λ s. (rate ≤ s.sample_rate) × (max s.channels 1 ≡ channels)) rows
both rate channels [] a b = tt
both rate channels (s ∷ rows) a b =
    ((a.0, same (max s.channels 1) channels b.0), both rate channels rows a.1 b.1)
  where
    same : (n m : ℕ) → not (n == m) ≡ false → n ≡ m
    same n m e = ground (arith, e)

if-IfPlanned :
    (P : ExportPlan → Type 0) (b : Bool) (r t : Planned)
    → (b ≡ true → IfPlanned P r)
    → (b ≡ false → IfPlanned P t)
    → IfPlanned P (if b then r else t)
if-IfPlanned P true r t first second = first refl
if-IfPlanned P false r t first second = second refl

plan_rows-Promises :
    (range : TimeRange) (rows : List Segment)
    → IfPlanned (Promises range rows) (plan_rows range rows)
unfolding plan_rows
plan_rows-Promises range [] = tt
plan_rows-Promises range (first ∷ rows) =
    let channels = max first.channels 1 in
    let rate = lowest_rate first.sample_rate rows in
    let P = Promises range (first ∷ rows) in
    let mixed = any (λ s. not (s.sample_rate == rate)) (first ∷ rows) in
    let answer =
      plan_bytes range rate channels mixed (data_bytes_for rate channels (duration_ms range)) in
    if-IfPlanned P (any (λ s. not (max s.channels 1 == channels)) (first ∷ rows)) _ _ (λ e. tt)
      (λ same.
        if-IfPlanned P (rate == 0) _ _ (λ e. tt)
          (λ some_rate.
            if-IfPlanned P (mixed && not (channels == 1)) (not_planned mixed_rates_on_channels)
              answer (λ e. tt)
              (λ e.
                plan_bytes-Promises range (first ∷ rows) rate channels mixed _
                  (not_zero rate some_rate)
                  (both rate channels (first ∷ rows) (lowest_rate-le first.sample_rate rows)
                    (none_of (λ s. not (max s.channels 1 == channels)) (first ∷ rows) same))
                  refl)))
  where
    not_zero : (n : ℕ) → (n == 0) ≡ false → 1 ≤ n
    not_zero n e = ground (arith, e)

-- A plan that was made has a sample rate that no row of the range is below, the channels of every row,
-- two bytes for each channel of each whole sample that the range has at that rate, at most the limit, and
-- the header's bytes on top.
pub plan-Promises :
    (range : TimeRange) (rows : List Segment)
    → IfPlanned (Promises range rows) (plan range (ok rows))
unfolding plan
plan-Promises range rows =
    if-IfPlanned (Promises range rows) (leb_ℤ (duration_ms range) (pos 0)) _ _ (λ e. tt)
      (λ e. plan_rows-Promises range rows)
