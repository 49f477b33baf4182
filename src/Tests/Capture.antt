-- ===== src/Tests/Capture.antt =====
-- The frame builder of backend/src/audio/frame_builder.rs at concrete buffers.
use on_air_record.Base.{arith, ◌≤◌, ◌<◌, ◌≡◌, refl, List, [], ◌∷◌, ◌++◌, map, concat, All, length}
use mathlib.Core.Bool.{Bool}
use on_air_record.Base.Int.{ℤ, pos, negsuc, ◌-ℤ◌, ◌+ℤ◌, abs_ℤ}
use on_air_record.Models.AudioFrame.{to_le_bytes, from_samples}
use on_air_record.Audio.FrameBuilder.{
  FrameBuilder, new, push, push_all, flush, push_samples, anchor, derived_now_ms, frame_samples_for,
  samples_to_ms, max_drift_ms, correct_drift, push_sample,
}
use on_air_record.Audio.FrameBuilder.Lossless.{
  IsReady, IsFull, joined, capture_lossless, new-IsReady,
}
use on_air_record.Audio.FrameBuilder.Clock.{Stamped, push-drift-le, push-Stamped}

-- 40 samples a second, 100 ms frames: four samples to a frame.
abbrev slow : FrameBuilder
slow = new 40 1 100

abbrev six : List ℤ
six = pos 1 ∷ pos 2 ∷ negsuc 0 ∷ pos 4 ∷ pos 5 ∷ pos 6 ∷ []

abbrev buffers : List (List ℤ × ℤ)
buffers = (six, pos 1150) ∷ (pos 7 ∷ [], pos 61000) ∷ []

sizes : frame_samples_for 48000 100 ≡ 4800
unfolding frame_samples_for
sizes = refl

first_frame_is_back_dated : map (λ f. f.timestamp_ms) (push slow six (pos 1150)).1 ≡ pos 1000 ∷ []
unfolding new push push_samples anchor correct_drift samples_to_ms ◌-ℤ◌ ◌+ℤ◌ push_sample
first_frame_is_back_dated = refl

le_bytes :
    to_le_bytes (from_samples (pos 0) 8000 1 (pos 1 ∷ negsuc 1 ∷ []) Bool.true)
    ≡ 1 ∷ 0 ∷ 0xfe ∷ 0xff ∷ []
unfolding to_le_bytes
le_bytes = refl

slow-IsReady : IsReady slow
slow-IsReady = new-IsReady 40 1 100

capture_lossless_example :
    let r = push_all (new 40 1 100) buffers in
    (joined (r.1 ++ (flush r.0 (pos 61000)).1) ≡ concat (map (λ d. d.0) buffers))
    × All (IsFull (frame_samples_for 40 100)) r.1
    × (length r.0.buffer < frame_samples_for 40 100)
capture_lossless_example = capture_lossless 40 1 100 buffers (pos 61000)

push-drift-le_example :
    abs_ℤ (derived_now_ms (push slow six (pos 1150)).0 -ℤ pos 1150) ≤ max_drift_ms
push-drift-le_example = push-drift-le slow six (pos 1150) slow-IsReady

slow_rate : 1 ≤ slow.sample_rate
unfolding new
slow_rate = omega arith

push-Stamped_example :
    let a = anchor slow six (pos 1150) in
    Stamped a a.samples_since_anchor (push slow six (pos 1150)).1
push-Stamped_example = push-Stamped slow six (pos 1150) slow-IsReady slow_rate
