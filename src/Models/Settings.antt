-- ===== src/Models/Settings.antt =====
-- backend/src/models/settings.rs: the preferences, the ranges that every write goes through, and the
-- partial update. A gain is in thousandths; `trimmed` is a text without its outer blanks, or none when
-- nothing is left.
pub mod Ranges
use Prim.Native.String.{String}
use on_air_record.Base.{
  ℕ, ◌+◌, ◌-◌, ◌*◌, min, max, Bool, true, false, ◌&&◌, Option, none, some, List, [], ◌∷◌, ltb, leb,
  ◌==◌, if◌then◌else◌,
}
use on_air_record.Base.Int.{ℤ, pos, min_ℤ, max_ℤ}
use on_air_record.Audio.Sounds.Floor.{SoundSensitivity}

pub data Gain : Type 0 where
  finite : ℤ → Gain
  not_finite : Gain

pub record Settings : Type 0 where
  pub input_device_id : Option String
  pub gain : Gain
  pub segment_seconds : ℕ
  pub retention_hours : Option ℕ
  pub auto_start : Bool
  pub auto_start_delay_seconds : ℕ
  pub frame_ms : ℕ
  pub recording_sample_rate : Option ℕ
  pub recordings_dir : Option String
  pub check_for_updates : Bool
  pub sound_sensitivity : SoundSensitivity
  pub activity_retention_days : ℕ

abbrev pub supported_sample_rates : List ℕ
supported_sample_rates = 48000 ∷ 32000 ∷ 24000 ∷ 16000 ∷ 8000 ∷ []

unfoldable pub clamp : ℕ → ℕ → ℕ → ℕ
clamp low high value = min (max value low) high

abbrev pub abs_diff : ℕ → ℕ → ℕ
abs_diff a b = (a - b) + (b - a)

-- `min_by_key` keeps the first of several.
unfoldable pub nearest_rate : ℕ → ℕ → List ℕ → ℕ
nearest_rate rate best [] = best
nearest_rate rate best (supported ∷ rates) =
    nearest_rate rate
      (if leb (abs_diff best rate) (abs_diff supported rate) then best else supported) rates

unfoldable pub nearest_supported_rate : ℕ → ℕ
unfolding nearest_rate
nearest_supported_rate rate = nearest_rate rate 48000 (32000 ∷ 24000 ∷ 16000 ∷ 8000 ∷ [])

unfoldable pub clamp_gain : Gain → Gain
clamp_gain (finite value) = finite (min_ℤ (max_ℤ value (pos 0)) (pos 4000))
clamp_gain not_finite = finite (pos 1000)

unfoldable pub map_option : (ℕ → ℕ) → Option ℕ → Option ℕ
map_option f none = none
map_option f (some n) = some (f n)

unfoldable pub clamped : Settings → Settings
clamped s = record s {
  gain = clamp_gain s.gain;
  segment_seconds = clamp 5 300 s.segment_seconds;
  retention_hours = map_option (clamp 1 87600) s.retention_hours;
  frame_ms = clamp 20 500 s.frame_ms;
  auto_start_delay_seconds = clamp 0 600 s.auto_start_delay_seconds;
  recording_sample_rate = map_option nearest_supported_rate s.recording_sample_rate;
  activity_retention_days = clamp 1 3650 s.activity_retention_days;
}

abbrev pub rate_for : Option ℕ → ℕ → ℕ
rate_for (some target) device_rate = if ltb 0 device_rate then min target device_rate else target
rate_for none device_rate = device_rate

unfoldable pub effective_sample_rate : Settings → ℕ → ℕ
effective_sample_rate s device_rate = rate_for s.recording_sample_rate device_rate

unfoldable pub retention_ms : Settings → Option ℕ
retention_ms s = map_option (λ hours. hours * 3600000) s.retention_hours

unfoldable pub activity_retention_ms : Settings → ℕ
activity_retention_ms s = s.activity_retention_days * 86400000

-- None leaves a field as it is.
pub record SettingsPatch : Type 0 where
  pub input_device_id : Option (Option String)
  pub gain : Option Gain
  pub segment_seconds : Option ℕ
  pub retention_hours : Option (Option ℕ)
  pub auto_start : Option Bool
  pub auto_start_delay_seconds : Option ℕ
  pub frame_ms : Option ℕ
  pub recording_sample_rate : Option (Option ℕ)
  pub recordings_dir : Option (Option String)
  pub check_for_updates : Option Bool
  pub sound_sensitivity : Option SoundSensitivity
  pub activity_retention_days : Option ℕ

abbrev pub is_none {ℓ} : {A : Type ℓ} → Option A → Bool
is_none none = true
is_none (some a) = false

unfoldable pub is_empty : SettingsPatch → Bool
is_empty p =
    is_none p.input_device_id
    && (is_none p.gain
        && (is_none p.segment_seconds
            && (is_none p.retention_hours
                && (is_none p.auto_start
                    && (is_none p.auto_start_delay_seconds
                        && (is_none p.frame_ms
                            && (is_none p.recording_sample_rate
                                && (is_none p.recordings_dir
                                    && (is_none p.check_for_updates
                                        && (is_none p.sound_sensitivity
                                            && is_none p.activity_retention_days))))))))))

abbrev pub patched {ℓ} : {A : Type ℓ} → Option A → A → A
patched none value = value
patched (some other) value = other

abbrev pub tidy : (String → Option String) → Option String → Option String
tidy trimmed none = none
tidy trimmed (some text) = trimmed text

abbrev pub patched_text :
    (String → Option String) → Option (Option String) → Option String → Option String
patched_text trimmed none value = value
patched_text trimmed (some other) value = tidy trimmed other

unfoldable pub apply_to : (String → Option String) → SettingsPatch → Settings → Settings
apply_to trimmed p base = clamped (record {
  input_device_id = patched_text trimmed p.input_device_id base.input_device_id;
  gain = patched p.gain base.gain;
  segment_seconds = patched p.segment_seconds base.segment_seconds;
  retention_hours = patched p.retention_hours base.retention_hours;
  auto_start = patched p.auto_start base.auto_start;
  auto_start_delay_seconds = patched p.auto_start_delay_seconds base.auto_start_delay_seconds;
  frame_ms = patched p.frame_ms base.frame_ms;
  recording_sample_rate = patched p.recording_sample_rate base.recording_sample_rate;
  recordings_dir = patched_text trimmed p.recordings_dir base.recordings_dir;
  check_for_updates = patched p.check_for_updates base.check_for_updates;
  sound_sensitivity = patched p.sound_sensitivity base.sound_sensitivity;
  activity_retention_days = patched p.activity_retention_days base.activity_retention_days;
})
