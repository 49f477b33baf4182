-- ===== src/Audio/Sounds/Detect.antt =====
-- `detect`: loud slots form bursts, and bursts merge into sounds.
use on_air_record.Base.{
  ℕ, ◌*◌, max, Bool, false, ◌||◌, Option, none, some, List, [], ◌∷◌, ◌++◌, length, ltb, leb,
  if◌then◌else◌,
}
use on_air_record.Base.Int.{ℤ, pos, negsuc, ◌+ℤ◌, ◌-ℤ◌, ◌==ℤ◌, ltb_ℤ, leb_ℤ, max_ℤ, div_euclid}
use on_air_record.Audio.Sounds.Floor.{
  SoundSensitivity, EnvelopeRun, threshold, peak_bucket_ms, floor_block_ms, noise_floors, floor_at,
}

abbrev pub merge_gap_ms : ℕ
merge_gap_ms = 2000

abbrev pub min_sound_ms : ℕ
min_sound_ms = 300

abbrev pub min_burst_ms : ℕ
min_burst_ms = 200

abbrev pub lead_in_ms : ℕ
lead_in_ms = 1000

abbrev pub continuity_tolerance_ms : ℕ
continuity_tolerance_ms = 500

pub record Sound : Type 0 where
  pub start_ms : ℤ
  pub end_ms : ℤ
  pub peak : ℕ  -- u8
  pub seek_ms : ℤ

-- The locals of `detect`.
pub record Detector : Type 0 where
  pub sounds : List Sound
  pub merging : Option Sound
  pub burst : Option Sound
  pub stretch_start_ms : ℤ
  pub previous_end_ms : Option ℤ

unfoldable pub close : Option Sound → List Sound → List Sound
close none sounds = sounds
close (some sound) sounds =
    if leb_ℤ (pos min_sound_ms) (sound.end_ms -ℤ sound.start_ms)
    then sounds ++ sound ∷ []
    else sounds

-- Fold a finished burst into the sound being merged, or start a new one.
unfoldable pub merge : Sound → Option Sound → List Sound → Option Sound × List Sound
unfolding close
merge finished none sounds = (some finished, sounds)
merge finished (some sound) sounds =
    if ltb_ℤ (finished.start_ms -ℤ sound.end_ms) (pos merge_gap_ms)
    then (
      some (record sound { end_ms = finished.end_ms; peak = max sound.peak finished.peak }),
      sounds,
    )
    else (some finished, close (some sound) sounds)

unfoldable pub end_burst : Option Sound → Detector → Detector
unfolding merge
end_burst none d = record d { burst = none }
end_burst (some finished) d =
    let (merging, sounds) = merge finished d.merging d.sounds in
    if ltb_ℤ (finished.end_ms -ℤ finished.start_ms) (pos min_burst_ms)
    then record d { burst = none }
    else record d { burst = none; merging = merging; sounds = sounds }

abbrev pub new_burst : ℤ → ℤ → ℕ → Sound
new_burst stretch_start_ms slot_start_ms value = record {
  start_ms = slot_start_ms;
  end_ms = slot_start_ms +ℤ pos peak_bucket_ms;
  peak = value;
  seek_ms = max_ℤ (slot_start_ms -ℤ pos lead_in_ms) stretch_start_ms;
}

-- A loud slot, by the burst in progress.
unfoldable pub loud_slot : Option Sound → Detector → ℤ → ℕ → Detector
unfolding end_burst
loud_slot none d slot_start_ms value = record (end_burst none d) {
  burst = some (new_burst d.stretch_start_ms slot_start_ms value);
}
loud_slot (some current) d slot_start_ms value =
    if current.end_ms ==ℤ slot_start_ms
    then record d {
      burst = some (record current {
        end_ms = slot_start_ms +ℤ pos peak_bucket_ms;
        peak = max current.peak value;
      });
    }
    else record (end_burst (some current) d) {
      burst = some (new_burst d.stretch_start_ms slot_start_ms value);
    }

unfoldable pub is_quiet : ℕ → SoundSensitivity → ℕ → Bool
is_quiet floor sensitivity value = ltb value (threshold floor sensitivity) || leb value floor

module _ (floors : List (ℤ × ℕ)) (sensitivity : SoundSensitivity) where
  unfoldable pub slot : Detector → ℤ → ℕ → Detector
  slot d slot_start_ms value =
      let floor = floor_at (div_euclid slot_start_ms floor_block_ms) floors in
      if is_quiet floor sensitivity value
      then end_burst d.burst d
      else loud_slot d.burst d slot_start_ms value

  unfoldable pub scan : Detector → ℤ → List ℕ → Detector
  scan d slot_start_ms [] = d
  scan d slot_start_ms (value ∷ values) =
      scan (slot d slot_start_ms value) (slot_start_ms +ℤ pos peak_bucket_ms) values

  abbrev pub is_continuous : Option ℤ → ℤ → Bool
  is_continuous none start_ms = false
  is_continuous (some end) start_ms = leb_ℤ (start_ms -ℤ end) (pos continuity_tolerance_ms)

  -- A gap in the recording ends whatever was being heard.
  unfoldable pub begin_run : Detector → EnvelopeRun → Detector
  begin_run d run =
      let ended = end_burst d.burst d in
      let broken = record ended {
        merging = none;
        sounds = close ended.merging ended.sounds;
        stretch_start_ms = run.start_ms;
      } in
      let current = if is_continuous d.previous_end_ms run.start_ms then d else broken in
      record current {
        previous_end_ms = some (run.start_ms +ℤ pos (length run.values * peak_bucket_ms));
      }

  unfoldable pub scan_run : Detector → EnvelopeRun → Detector
  scan_run d run = scan (begin_run d run) run.start_ms run.values

  unfoldable pub scan_runs : Detector → List EnvelopeRun → Detector
  scan_runs d [] = d
  scan_runs d (run ∷ runs) = scan_runs (scan_run d run) runs

-- `stretch_start_ms` begins as i64::MIN.
abbrev pub start : Detector
start = record {
  sounds = [];
  merging = none;
  burst = none;
  stretch_start_ms = negsuc 9223372036854775807;
  previous_end_ms = none;
}

unfoldable pub detect : List EnvelopeRun → SoundSensitivity → List Sound
detect runs sensitivity =
    let d = scan_runs (noise_floors runs) sensitivity start runs in
    let ended = end_burst d.burst d in close ended.merging ended.sounds
