-- ===== src/Models/AudioFrame.antt =====
-- backend/src/models/audio_frame.rs: a slice of captured audio. The two level statistics of a frame
-- are f32 and are left out; nothing modelled here reads them.
use on_air_record.Base.{
  ℕ, ◌-◌, ◌*◌, ◌/◌, ◌%◌, max, Bool, List, [], ◌∷◌, length, if◌then◌else◌, ◌==◌,
}
use on_air_record.Base.Int.{ℤ, pos, negsuc, ◌+ℤ◌}

pub record AudioFrame : Type 0 where
  pub timestamp_ms : ℤ  -- i64
  pub sample_rate : ℕ  -- u32
  pub channels : ℕ  -- u16
  pub samples : List ℤ  -- i16
  pub live : Bool

-- The same arguments as the source's constructor.
abbrev pub from_samples : ℤ → ℕ → ℕ → List ℤ → Bool → AudioFrame
from_samples timestamp_ms sample_rate channels samples live = record {
  timestamp_ms = timestamp_ms;
  sample_rate = sample_rate;
  channels = channels;
  samples = samples;
  live = live;
}

unfoldable pub sample_count : AudioFrame → ℕ
sample_count f = let channels = max f.channels 1 in length f.samples / channels

unfoldable pub duration_ms : AudioFrame → ℕ
duration_ms f = if f.sample_rate == 0 then 0 else sample_count f * 1000 / f.sample_rate

unfoldable pub end_timestamp_ms : AudioFrame → ℤ
end_timestamp_ms f = f.timestamp_ms +ℤ pos (duration_ms f)

-- The two's complement pattern of an i16.
unfoldable pub word_of_sample : ℤ → ℕ
word_of_sample (pos n) = n
word_of_sample (negsuc n) = 65535 - n

-- The bytes of the samples, little end first.
unfoldable pub sample_bytes : List ℤ → List ℕ
unfolding word_of_sample
sample_bytes [] = []
sample_bytes (s ∷ ss) = (word_of_sample s % 256) ∷ (word_of_sample s / 256) ∷ sample_bytes ss

unfoldable pub to_le_bytes : AudioFrame → List ℕ
unfolding sample_bytes
to_le_bytes f = sample_bytes f.samples
