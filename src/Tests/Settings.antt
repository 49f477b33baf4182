-- ===== src/Tests/Settings.antt =====
-- An update of the preferences of backend/src/models/settings.rs.
use on_air_record.Base.{◌≡◌, true, none, some}
use on_air_record.Base.Int.{pos, negsuc}
use on_air_record.Audio.Sounds.Floor.{medium}
use on_air_record.Models.Settings.{Settings, SettingsPatch, finite, apply_to, is_empty}
use on_air_record.Models.Settings.Ranges.{InRange, apply_to-InRange}

abbrev pub kitchen : Settings
kitchen = record {
  input_device_id = none;
  gain = finite (pos 1000);
  segment_seconds = 60;
  retention_hours = some 168;
  auto_start = true;
  auto_start_delay_seconds = 0;
  frame_ms = 100;
  recording_sample_rate = some 24000;
  recordings_dir = none;
  check_for_updates = true;
  sound_sensitivity = medium;
  activity_retention_days = 90;
}

-- A gain below the range, and a rate that the interface does not offer.
abbrev odd_request : SettingsPatch
odd_request = record {
  input_device_id = none;
  gain = some (finite (negsuc 20));
  segment_seconds = some 4000;
  retention_hours = some none;
  auto_start = none;
  auto_start_delay_seconds = none;
  frame_ms = none;
  recording_sample_rate = some (some 22050);
  recordings_dir = none;
  check_for_updates = none;
  sound_sensitivity = none;
  activity_retention_days = none;
}

apply_to-InRange_example :
    InRange (apply_to (λ t. some t) odd_request kitchen)
    × (is_empty odd_request ≡ true
        → InRange kitchen
        → apply_to (λ t. some t) odd_request kitchen ≡ kitchen)
apply_to-InRange_example = apply_to-InRange (λ t. some t) odd_request kitchen
