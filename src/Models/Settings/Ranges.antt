-- ===== src/Models/Settings/Ranges.antt =====
-- The ranges of the settings, for every write of backend/src/models/settings.rs.
use Prim.Native.String.{String}
use on_air_record.Base.{
  All, ℕ, ◌≤◌, ◌≡◌, refl, ◌∙◌, ap, arith, ◌⊎◌, inl, inr, Bool, true, false, ◌&&◌, Option, none,
  some, List, [], ◌∷◌, if◌then◌else◌, if_branches, leb,
}
use on_air_record.Base.Int.{pos, ◌≤ℤ◌, int_laws, eq_of_parts}
use on_air_record.Models.Settings.{
  Settings, Gain, finite, not_finite, clamp, clamp_gain, map_option, nearest_rate,
  nearest_supported_rate, clamped, SettingsPatch, apply_to, is_empty, is_none, patched,
  patched_text, abs_diff,
}

abbrev pub Within : ℕ → ℕ → ℕ → Type 0
Within low high value = (low ≤ value) × (value ≤ high)

unfoldable pub IsSupported : ℕ → Type 0
IsSupported rate =
    (rate ≡ 48000) ⊎ ((rate ≡ 32000) ⊎ ((rate ≡ 24000) ⊎ ((rate ≡ 16000) ⊎ (rate ≡ 8000))))

abbrev pub IfSome : (ℕ → Type 0) → Option ℕ → Type 0
IfSome P none = Unit
IfSome P (some n) = P n

abbrev pub IsGain : Gain → Type 0
IsGain (finite value) = (pos 0 ≤ℤ value) × (value ≤ℤ pos 4000)
IsGain not_finite = false ≡ true

unfoldable pub InRange : Settings → Type 0
InRange s =
    IsGain s.gain
    × Within 5 300 s.segment_seconds
    × IfSome (Within 1 87600) s.retention_hours
    × Within 20 500 s.frame_ms
    × Within 0 600 s.auto_start_delay_seconds
    × IfSome IsSupported s.recording_sample_rate
    × Within 1 3650 s.activity_retention_days

clamp-Within : (low high value : ℕ) → low ≤ high → Within low high (clamp low high value)
unfolding clamp
clamp-Within low high value h = (omega arith, omega arith)

clamp-same : (low high value : ℕ) → Within low high value → clamp low high value ≡ value
unfolding clamp
clamp-same low high value h = omega (arith, h.0, h.1)

nearest_rate-of :
    (P : ℕ → Type 0) (rate best : ℕ) (rates : List ℕ)
    → P best
    → All P rates
    → P (nearest_rate rate best rates)
unfolding nearest_rate
nearest_rate-of P rate best [] h k = h
nearest_rate-of P rate best (supported ∷ rates) h k =
    nearest_rate-of P rate
      (if leb (abs_diff best rate) (abs_diff supported rate) then best else supported) rates
      (if_branches P (leb (abs_diff best rate) (abs_diff supported rate)) best supported (λ e. h)
        (λ e. k.0))
      k.1

nearest-IsSupported : (rate : ℕ) → IsSupported (nearest_supported_rate rate)
unfolding nearest_supported_rate IsSupported
nearest-IsSupported rate =
    nearest_rate-of IsSupported rate 48000 (32000 ∷ 24000 ∷ 16000 ∷ 8000 ∷ []) (inl refl) (
      inr (inl refl),
      (inr (inr (inl refl)), (inr (inr (inr (inl refl))), (inr (inr (inr (inr refl))), tt))),
    )

nearest-same : (rate : ℕ) → IsSupported rate → nearest_supported_rate rate ≡ rate
unfolding nearest_supported_rate IsSupported nearest_rate
nearest-same rate (inl e) = rw e refl
nearest-same rate (inr (inl e)) = rw e refl
nearest-same rate (inr (inr (inl e))) = rw e refl
nearest-same rate (inr (inr (inr (inl e)))) = rw e refl
nearest-same rate (inr (inr (inr (inr e)))) = rw e refl

clamp_gain-IsGain : (g : Gain) → IsGain (clamp_gain g)
unfolding clamp_gain
clamp_gain-IsGain (finite value) = (omega int_laws, omega int_laws)
clamp_gain-IsGain not_finite = (omega arith, omega arith)

clamp_gain-same : (g : Gain) → IsGain g → clamp_gain g ≡ g
unfolding clamp_gain
clamp_gain-same (finite value) h = ap finite (eq_of_parts _ _ (omega (int_laws, h.0, h.1)))
clamp_gain-same not_finite h = ground (arith, h)

clamped_hours : (o : Option ℕ) → IfSome (Within 1 87600) (map_option (clamp 1 87600) o)
unfolding map_option
clamped_hours none = tt
clamped_hours (some hours) = clamp-Within 1 87600 hours (omega arith)

clamped_rate : (o : Option ℕ) → IfSome IsSupported (map_option nearest_supported_rate o)
unfolding map_option
clamped_rate none = tt
clamped_rate (some rate) = nearest-IsSupported rate

same_hours : (o : Option ℕ) → IfSome (Within 1 87600) o → map_option (clamp 1 87600) o ≡ o
unfolding map_option
same_hours none h = refl
same_hours (some hours) h = ap some (clamp-same 1 87600 hours h)

same_rate : (o : Option ℕ) → IfSome IsSupported o → map_option nearest_supported_rate o ≡ o
unfolding map_option
same_rate none h = refl
same_rate (some rate) h = ap some (nearest-same rate h)

pub clamped-InRange : (s : Settings) → InRange (clamped s)
unfolding clamped InRange
clamped-InRange s = (
  clamp_gain-IsGain s.gain,
  clamp-Within 5 300 s.segment_seconds (omega arith),
  clamped_hours s.retention_hours,
  clamp-Within 20 500 s.frame_ms (omega arith),
  clamp-Within 0 600 s.auto_start_delay_seconds (omega arith),
  clamped_rate s.recording_sample_rate,
  clamp-Within 1 3650 s.activity_retention_days (omega arith),
)

pub clamped-same : (s : Settings) → InRange s → clamped s ≡ s
unfolding clamped InRange
clamped-same s (gain, segment, hours, frame, delay, rate, days) =
    rw
      (
        clamp_gain-same s.gain gain,
        clamp-same 5 300 s.segment_seconds segment,
        same_hours s.retention_hours hours,
        clamp-same 20 500 s.frame_ms frame,
        clamp-same 0 600 s.auto_start_delay_seconds delay,
        same_rate s.recording_sample_rate rate,
        clamp-same 1 3650 s.activity_retention_days days,
      )
      refl

both_true : (a b : Bool) → a && b ≡ true → (a ≡ true) × (b ≡ true)
both_true true b e = (refl, e)
both_true false b e = ground (arith, e)

unpatched {ℓ} : {A : Type ℓ} (o : Option A) (value : A) → is_none o ≡ true → patched o value ≡ value
unpatched none value e = refl
unpatched (some other) value e = ground (arith, e)

unpatched_text :
    (trimmed : String → Option String) (o : Option (Option String)) (value : Option String)
    → is_none o ≡ true
    → patched_text trimmed o value ≡ value
unpatched_text trimmed none value e = refl
unpatched_text trimmed (some other) value e = ground (arith, e)

nothing_patched :
    (trimmed : String → Option String) (p : SettingsPatch) (base : Settings)
    → is_empty p ≡ true
    → Path Settings
        (record {
          input_device_id = patched_text trimmed p.input_device_id base.input_device_id;
          gain = patched p.gain base.gain;
          segment_seconds = patched p.segment_seconds base.segment_seconds;
          retention_hours = patched p.retention_hours base.retention_hours;
          auto_start = patched p.auto_start base.auto_start;
          auto_start_delay_seconds =
              patched p.auto_start_delay_seconds base.auto_start_delay_seconds;
          frame_ms = patched p.frame_ms base.frame_ms;
          recording_sample_rate = patched p.recording_sample_rate base.recording_sample_rate;
          recordings_dir = patched_text trimmed p.recordings_dir base.recordings_dir;
          check_for_updates = patched p.check_for_updates base.check_for_updates;
          sound_sensitivity = patched p.sound_sensitivity base.sound_sensitivity;
          activity_retention_days = patched p.activity_retention_days base.activity_retention_days;
        })
        base
unfolding is_empty
nothing_patched trimmed p base e =
    let (e0, r0) = both_true (is_none p.input_device_id) _ e in
    let (e1, r1) = both_true (is_none p.gain) _ r0 in
    let (e2, r2) = both_true (is_none p.segment_seconds) _ r1 in
    let (e3, r3) = both_true (is_none p.retention_hours) _ r2 in
    let (e4, r4) = both_true (is_none p.auto_start) _ r3 in
    let (e5, r5) = both_true (is_none p.auto_start_delay_seconds) _ r4 in
    let (e6, r6) = both_true (is_none p.frame_ms) _ r5 in
    let (e7, r7) = both_true (is_none p.recording_sample_rate) _ r6 in
    let (e8, r8) = both_true (is_none p.recordings_dir) _ r7 in
    let (e9, r9) = both_true (is_none p.check_for_updates) _ r8 in
    let (e10, r10) = both_true (is_none p.sound_sensitivity) _ r9 in
    rw
      (
        unpatched_text trimmed p.input_device_id base.input_device_id e0,
        unpatched p.gain base.gain e1,
        unpatched p.segment_seconds base.segment_seconds e2,
        unpatched p.retention_hours base.retention_hours e3,
        unpatched p.auto_start base.auto_start e4,
        unpatched p.auto_start_delay_seconds base.auto_start_delay_seconds e5,
        unpatched p.frame_ms base.frame_ms e6,
        unpatched p.recording_sample_rate base.recording_sample_rate e7,
        unpatched_text trimmed p.recordings_dir base.recordings_dir e8,
        unpatched p.check_for_updates base.check_for_updates e9,
        unpatched p.sound_sensitivity base.sound_sensitivity e10,
        unpatched p.activity_retention_days base.activity_retention_days r10,
      )
      refl

-- Whatever an update asks for, the settings after it are in their ranges, with a recording rate that
-- the interface offers; and an empty update leaves settings that are in their ranges as they are.
pub apply_to-InRange :
    (trimmed : String → Option String) (p : SettingsPatch) (base : Settings)
    → InRange (apply_to trimmed p base)
      × (is_empty p ≡ true → InRange base → apply_to trimmed p base ≡ base)
unfolding apply_to
apply_to-InRange trimmed p base =
    (clamped-InRange _, λ e h. ap clamped (nothing_patched trimmed p base e) ∙ clamped-same base h)
