-- ===== src/Audio/FrameBuilder.antt =====
-- backend/src/audio/frame_builder.rs: buffers of any size in, frames of one size out. `emit` is the
-- list of frames that a call returns beside the new state. u64 sample counts do not wrap here.
pub mod Lossless
pub mod Clock
use on_air_record.Base.{
  ℕ, ◌+◌, ◌*◌, ◌/◌, ◌<◌, max, Bool, true, false, List, [], ◌∷◌, ◌++◌, length, if◌then◌else◌, ◌==◌,
  ltb, leb,
}
use on_air_record.Base.Int.{ℤ, pos, ◌+ℤ◌, ◌-ℤ◌, abs_ℤ}
use on_air_record.Models.AudioFrame.{AudioFrame, from_samples}

abbrev pub max_drift_ms : ℕ
max_drift_ms = 500

pub record FrameBuilder : Type 0 where
  pub sample_rate : ℕ  -- u32
  pub channels : ℕ  -- u16
  pub frame_samples : ℕ
  pub buffer : List ℤ
  pub anchor_ms : ℤ
  pub samples_since_anchor : ℕ
  pub anchored : Bool
  pub drift_resets : ℕ

unfoldable pub frame_samples_for : ℕ → ℕ → ℕ
frame_samples_for sample_rate frame_ms =
    let samples = sample_rate * frame_ms / 1000 in max samples 1

unfoldable pub new : ℕ → ℕ → ℕ → FrameBuilder
unfolding frame_samples_for
new sample_rate channels frame_ms = record {
  sample_rate = sample_rate;
  channels = channels;
  frame_samples = frame_samples_for sample_rate frame_ms;
  buffer = [];
  anchor_ms = pos 0;
  samples_since_anchor = 0;
  anchored = false;
  drift_resets = 0;
}

-- The method's `self.sample_rate`, and the samples.
unfoldable pub samples_to_ms : ℕ → ℕ → ℕ
samples_to_ms sample_rate samples = if sample_rate == 0 then 0 else samples * 1000 / sample_rate

unfoldable pub flush_frame : FrameBuilder → FrameBuilder × AudioFrame
flush_frame b =
    let timestamp_ms = b.anchor_ms +ℤ pos (samples_to_ms b.sample_rate b.samples_since_anchor) in
    (
      record b { buffer = []; samples_since_anchor = b.samples_since_anchor + length b.buffer },
      from_samples timestamp_ms b.sample_rate b.channels b.buffer true,
    )

-- The wall clock reading that the samples received so far account for.
unfoldable pub derived_now_ms : FrameBuilder → ℤ
derived_now_ms b =
    b.anchor_ms +ℤ pos (samples_to_ms b.sample_rate (b.samples_since_anchor + length b.buffer))

unfoldable pub correct_drift : FrameBuilder → ℤ → FrameBuilder
unfolding derived_now_ms
correct_drift b now_ms =
    if ltb max_drift_ms (abs_ℤ (derived_now_ms b -ℤ now_ms))
    then record b {
      anchor_ms = now_ms -ℤ pos (samples_to_ms b.sample_rate (length b.buffer));
      samples_since_anchor = 0;
      drift_resets = b.drift_resets + 1;
    }
    else b

-- One turn of the loop of `push`.
unfoldable pub push_sample : FrameBuilder → ℤ → FrameBuilder × List AudioFrame
unfolding flush_frame
push_sample b sample =
    let filled = record b { buffer = b.buffer ++ sample ∷ [] } in
    let (flushed, frame) = flush_frame filled in
    if leb b.frame_samples (length filled.buffer) then (flushed, frame ∷ []) else (filled, [])

unfoldable pub push_samples : FrameBuilder → List ℤ → FrameBuilder × List AudioFrame
push_samples b [] = (b, [])
push_samples b (sample ∷ samples) =
    let (b', frames) = push_sample b sample in
    let (b'', more) = push_samples b' samples in (b'', frames ++ more)

-- The first buffer of a session is dated back by its own length.
unfoldable pub anchor : FrameBuilder → List ℤ → ℤ → FrameBuilder
anchor b samples now_ms = if b.anchored then b else record b {
  anchor_ms = now_ms -ℤ pos (samples_to_ms b.sample_rate (length samples));
  samples_since_anchor = 0;
  anchored = true;
}

unfoldable pub push : FrameBuilder → List ℤ → ℤ → FrameBuilder × List AudioFrame
push b samples now_ms =
    let (b', frames) = push_samples (anchor b samples now_ms) samples in
    if b.frame_samples == 0 then (b, []) else (correct_drift b' now_ms, frames)

unfoldable pub flush : FrameBuilder → ℤ → FrameBuilder × List AudioFrame
unfolding flush_frame
flush b now_ms =
    let (b', frame) = flush_frame b in
    if length b.buffer == 0 then (b, []) else (correct_drift b' now_ms, frame ∷ [])

-- A capture session: the buffers the driver delivered, each with the clock at its arrival.
unfoldable pub push_all : FrameBuilder → List (List ℤ × ℤ) → FrameBuilder × List AudioFrame
push_all b [] = (b, [])
push_all b ((samples, now_ms) ∷ rest) =
    let (b', frames) = push b samples now_ms in
    let (b'', more) = push_all b' rest in (b'', frames ++ more)
