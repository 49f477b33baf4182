-- ===== src/Audio/FrameBuilder/Clock.antt =====
-- The timestamps of the frame builder: counted from the samples, tied to the wall clock.
use native.Mathlib.Nat.{zero-add, add-zero, add_assoc, div-mul-le_self, lt-div-mul-add}
use on_air_record.Base.{
  ℕ, ◌+◌, ◌*◌, ◌<◌, ◌≤◌, sym, ◌≡◌, refl, subst, ◌∙◌, inl, inr, Bool-cases, false, List, [], ◌∷◌,
  ◌++◌, length, arith, ◌==◌, ltb, leb,
}
use on_air_record.Base.Int.{ℤ, pos, ◌+ℤ◌, ◌-ℤ◌, abs_ℤ, parts_zero, int_laws}
use on_air_record.Models.AudioFrame.{AudioFrame}
use on_air_record.Audio.FrameBuilder.{
  FrameBuilder, push_sample, push_samples, push, anchor, correct_drift, derived_now_ms,
  samples_to_ms, max_drift_ms,
}
use on_air_record.Audio.FrameBuilder.Lossless.{IsReady}

-- After the correction the derived clock is at most the tolerance from the wall clock.
correct_drift-le :
    (b : FrameBuilder) (now_ms : ℤ)
    → abs_ℤ (derived_now_ms (correct_drift b now_ms) -ℤ now_ms) ≤ max_drift_ms
unfolding correct_drift derived_now_ms
correct_drift-le b now_ms = elim (Bool-cases (ltb 500 (abs_ℤ (derived_now_ms b -ℤ now_ms)))) [
  | inl e ↦
      let waiting = samples_to_ms b.sample_rate (length b.buffer) in
      rw (e, zero-add)
        (omega (int_laws, parts_zero (now_ms -ℤ pos waiting +ℤ pos waiting -ℤ now_ms)))
  | inr e ↦ rw e (ground (arith, e))
]

-- For a builder that holds less than a frame, as one does from `new` on and after every `push`:
-- after a buffer that the driver delivers, the clock that the samples account for is within half a
-- second of the wall clock at which the buffer arrived.
pub push-drift-le :
    (b : FrameBuilder) (samples : List ℤ) (now_ms : ℤ)
    → IsReady b
    → abs_ℤ (derived_now_ms (push b samples now_ms).0 -ℤ now_ms) ≤ max_drift_ms
unfolding push
push-drift-le b samples now_ms r =
    let sized : (b.frame_samples == 0) ≡ false = ground (arith, r.short) in
    rw sized (correct_drift-le (push_samples (anchor b samples now_ms) samples).0 now_ms)

-- Frames that follow one another from `n` samples after the anchor of `b`, stamped in whole milliseconds.
abbrev pub Stamped : FrameBuilder → ℕ → List AudioFrame → Type 0
Stamped b n [] = Unit
Stamped b n (f ∷ fs) =
    ((ms : ℕ) × ((f.timestamp_ms ≡ b.anchor_ms +ℤ pos ms)
        × (ms * b.sample_rate ≤ n * 1000)
        × (n * 1000 < ms * b.sample_rate + b.sample_rate)))
    × Stamped b (n + length f.samples) fs

abbrev total : List AudioFrame → ℕ
total [] = 0
total (f ∷ fs) = length f.samples + total fs

-- What a call does to the clock while the anchor stands.
record Ticks (b : FrameBuilder) (r : FrameBuilder × List AudioFrame) : Type 0 where
  stamps : Stamped b b.samples_since_anchor r.1
  anchored : r.0.anchor_ms ≡ b.anchor_ms
  rate : r.0.sample_rate ≡ b.sample_rate
  counted : r.0.samples_since_anchor ≡ b.samples_since_anchor + total r.1

samples_to_ms-near :
    (rate n : ℕ)
    → 1 ≤ rate
    → (samples_to_ms rate n * rate ≤ n * 1000) × (n * 1000 < samples_to_ms rate n * rate + rate)
unfolding samples_to_ms
samples_to_ms-near rate n h =
    let some_rate : (rate == 0) ≡ false = ground (arith, h) in
    rw some_rate (div-mul-le_self (n * 1000) rate, lt-div-mul-add h)

push_sample-Ticks : (b : FrameBuilder) (s : ℤ) → 1 ≤ b.sample_rate → Ticks b (push_sample b s)
unfolding push_sample
push_sample-Ticks b s h = elim (Bool-cases (leb b.frame_samples (length (b.buffer ++ s ∷ [])))) [
  | inl e ↦
      let near = samples_to_ms-near b.sample_rate b.samples_since_anchor h in
      rw e (record {
        stamps =
            (((samples_to_ms b.sample_rate b.samples_since_anchor, (refl, near.0, near.1)), tt));
        anchored = refl;
        rate = refl;
        counted = omega arith;
      })
  | inr e ↦ rw e (record { stamps = tt; anchored = refl; rate = refl; counted = omega arith })
]

total-append : (fs gs : List AudioFrame) → total (fs ++ gs) ≡ total fs + total gs
total-append [] gs = omega arith
total-append (f ∷ fs) gs = omega (arith, total-append fs gs)

Stamped-cong :
    (b c : FrameBuilder) (n : ℕ) (gs : List AudioFrame)
    → c.anchor_ms ≡ b.anchor_ms
    → c.sample_rate ≡ b.sample_rate
    → Stamped c n gs
    → Stamped b n gs
Stamped-cong b c n [] a r k = tt
Stamped-cong b c n (g ∷ gs) a r k = (
  subst
      (λ anchor_ms.
        (ms : ℕ) × ((g.timestamp_ms ≡ anchor_ms +ℤ pos ms)
          × (ms * b.sample_rate ≤ n * 1000)
          × (n * 1000 < ms * b.sample_rate + b.sample_rate)))
      a
      (subst
        (λ rate.
          (ms : ℕ) × ((g.timestamp_ms ≡ c.anchor_ms +ℤ pos ms)
            × (ms * rate ≤ n * 1000)
            × (n * 1000 < ms * rate + rate)))
        r k.0),
  Stamped-cong b c (n + length g.samples) gs a r k.1,
)

Stamped-append :
    (b c : FrameBuilder) (n : ℕ) (fs gs : List AudioFrame)
    → c.anchor_ms ≡ b.anchor_ms
    → c.sample_rate ≡ b.sample_rate
    → Stamped b n fs
    → Stamped c (n + total fs) gs
    → Stamped b n (fs ++ gs)
Stamped-append b c n [] gs a r h k = Stamped-cong b c n gs a r (rw add-zero at k)
Stamped-append b c n (f ∷ fs) gs a r h k =
    (h.0, Stamped-append b c (n + length f.samples) fs gs a r h.1 (rw add_assoc k))

push_samples-Ticks :
    (b : FrameBuilder) (samples : List ℤ) → 1 ≤ b.sample_rate → Ticks b (push_samples b samples)
unfolding push_samples
push_samples-Ticks b [] h = record {
  stamps = tt;
  anchored = refl;
  rate = refl;
  counted = omega arith;
}
push_samples-Ticks b (s ∷ ss) h =
    let (c, fs) = push_sample b s in
    let k = push_sample-Ticks b s h in
    let l = push_samples-Ticks c ss (subst (λ n. 1 ≤ n) (sym k.rate) h) in
    record {
      stamps =
          Stamped-append b c b.samples_since_anchor fs (push_samples c ss).1 k.anchored k.rate
            k.stamps (subst (λ n. Stamped c n (push_samples c ss).1) k.counted l.stamps);
      anchored = l.anchored ∙ k.anchored;
      rate = l.rate ∙ k.rate;
      counted = omega (arith, k.counted, l.counted, total-append fs (push_samples c ss).1);
    }

anchor-rate :
    (b : FrameBuilder) (samples : List ℤ) (now_ms : ℤ)
    → 1 ≤ b.sample_rate
    → 1 ≤ (anchor b samples now_ms).sample_rate
unfolding anchor
anchor-rate b samples now_ms h = elim (Bool-cases b.anchored) [ inl e ↦ rw e h | inr e ↦ rw e h ]

-- For a builder with a sample rate that holds less than a frame, as one does from `new` on and after every
-- `push`: within one buffer every frame is stamped with the anchor's time plus the whole milliseconds that
-- the samples emitted since the anchor take at the sample rate.
pub push-Stamped :
    (b : FrameBuilder) (samples : List ℤ) (now_ms : ℤ)
    → IsReady b
    → 1 ≤ b.sample_rate
    → let a = anchor b samples now_ms in Stamped a a.samples_since_anchor (push b samples now_ms).1
unfolding push
push-Stamped b samples now_ms r h =
    let sized : (b.frame_samples == 0) ≡ false = ground (arith, r.short) in
    rw sized
      (push_samples-Ticks (anchor b samples now_ms) samples (anchor-rate b samples now_ms h)).stamps
