-- ===== src/Audio/Sounds/Bounds.antt =====
-- The bounds that every sound keeps, in backend/src/audio/activity.rs.
use on_air_record.Base.{
  ℕ, ◌≤◌, ◌≡◌, inl, inr, Bool-cases, false, Option, none, some, List, [], ◌∷◌, All, All-append,
  arith,
}
use on_air_record.Base.Int.{
  ℤ, pos, max_ℤ, ◌+ℤ◌, ◌-ℤ◌, ◌≤ℤ◌, ◌==ℤ◌, ltb_ℤ, leb_ℤ, int_laws, leb_ℤ→le,
}
use on_air_record.Audio.Sounds.Floor.{SoundSensitivity, low, medium, high, threshold, min_level}
use on_air_record.Audio.Sounds.Detect.{
  Sound, Detector, close, merge, end_burst, new_burst, loud_slot, is_quiet, lead_in_ms,
  min_sound_ms, merge_gap_ms, min_burst_ms,
}

-- Over every noise floor, a less sensitive setting asks for at least as high a level as a more
-- sensitive one, and none asks for less than level 2.
pub threshold_monotone :
    (floor : ℕ)
    → (min_level ≤ threshold floor high)
      × (threshold floor high ≤ threshold floor medium)
      × (threshold floor medium ≤ threshold floor low)
unfolding threshold
threshold_monotone floor = omega arith

-- Playback of the sound starts at most the lead in before it, and not after it; the two moments are in a
-- place of `first`, and the sound reaches at least the least level.
pub record Fits (first : ℤ → ℤ → Type 0) (s : Sound) : Type 0 where
  pub recorded : first s.start_ms s.seek_ms
  pub early : s.seek_ms ≤ℤ s.start_ms
  pub lead : s.start_ms ≤ℤ s.seek_ms +ℤ pos lead_in_ms
  pub loud : min_level ≤ s.peak

pub record IsHeard (first : ℤ → ℤ → Type 0) (s : Sound) : Type 0 where
  pub fits : Fits first s
  pub lasts : s.start_ms +ℤ pos min_sound_ms ≤ℤ s.end_ms

abbrev pub Each : (Sound → Type 0) → Option Sound → Type 0
Each P none = Unit
Each P (some s) = P s

-- The recording stretch began at `stretch`.
pub record Sane (first : ℤ → ℤ → Type 0) (stretch : ℤ) (d : Detector) : Type 0 where
  pub heard : All (IsHeard first) d.sounds
  pub merging : Each (Fits first) d.merging
  pub burst : Each (Fits first) d.burst
  pub same : d.stretch_start_ms ≡ stretch

pub close-heard :
    (first : ℤ → ℤ → Type 0) (o : Option Sound) (ss : List Sound)
    → Each (Fits first) o
    → All (IsHeard first) ss
    → All (IsHeard first) (close o ss)
unfolding close
close-heard first none ss f h = h
close-heard first (some s) ss f h =
    elim (Bool-cases (leb_ℤ (pos min_sound_ms) (s.end_ms -ℤ s.start_ms))) [
      | inl e ↦
          let long = leb_ℤ→le (pos min_sound_ms) (s.end_ms -ℤ s.start_ms) e in
          rw e (
            All-append (IsHeard first) ss (s ∷ []) h
              (record { fits = f; lasts = omega (int_laws, long) }, tt))
      | inr e ↦ rw e h
    ]

merge-Fits :
    (first : ℤ → ℤ → Type 0) (b : Sound) (o : Option Sound) (ss : List Sound)
    → Fits first b
    → Each (Fits first) o
    → All (IsHeard first) ss
    → Each (Fits first) (merge b o ss).0 × All (IsHeard first) (merge b o ss).1
unfolding merge
merge-Fits first b none ss f m h = (f, h)
merge-Fits first b (some s) ss f m h =
    elim (Bool-cases (ltb_ℤ (b.start_ms -ℤ s.end_ms) (pos merge_gap_ms))) [
      | inl e ↦ rw e (
        record {
          recorded = m.recorded;
          early = m.early;
          lead = m.lead;
          loud = omega (arith, m.loud);
        },
        h,
      )
      | inr e ↦ rw e (f, close-heard first (some s) ss m h)
    ]

pub end_burst-Sane :
    (first : ℤ → ℤ → Type 0) (stretch : ℤ) (d : Detector) (o : Option Sound)
    → Sane first stretch d
    → Each (Fits first) o
    → Sane first stretch (end_burst o d)
unfolding end_burst
end_burst-Sane first stretch d none v f = record {
  heard = v.heard;
  merging = v.merging;
  burst = tt;
  same = v.same;
}
end_burst-Sane first stretch d (some b) v f =
    let (merging, heard) = merge-Fits first b d.merging d.sounds f v.merging v.heard in
    elim (Bool-cases (ltb_ℤ (b.end_ms -ℤ b.start_ms) (pos min_burst_ms))) [
      | inl e ↦ rw e (record { heard = v.heard; merging = v.merging; burst = tt; same = v.same })
      | inr e ↦ rw e (record { heard = heard; merging = merging; burst = tt; same = v.same })
    ]

new_burst-Fits :
    (first : ℤ → ℤ → Type 0) (stretch at : ℤ) (value : ℕ)
    → first at (max_ℤ (at -ℤ pos lead_in_ms) stretch)
    → stretch ≤ℤ at
    → min_level ≤ value
    → Fits first (new_burst stretch at value)
new_burst-Fits first stretch at value h k l = record {
  recorded = h;
  early = omega int_laws;
  lead = omega int_laws;
  loud = l;
}

pub loud_slot-Sane :
    (first : ℤ → ℤ → Type 0) (stretch : ℤ) (d : Detector) (o : Option Sound) (at : ℤ) (value : ℕ)
    → Sane first stretch d
    → Each (Fits first) o
    → first at (max_ℤ (at -ℤ pos lead_in_ms) stretch)
    → stretch ≤ℤ at
    → min_level ≤ value
    → Sane first stretch (loud_slot o d at value)
unfolding loud_slot
loud_slot-Sane first stretch d none at value v f h k l =
    let e = end_burst-Sane first stretch d none v tt in
    record {
      heard = e.heard;
      merging = e.merging;
      burst = rw v.same (new_burst-Fits first stretch at value h k l);
      same = e.same;
    }
loud_slot-Sane first stretch d (some b) at value v f h k l =
    let e = end_burst-Sane first stretch d (some b) v f in
    elim (Bool-cases (b.end_ms ==ℤ at)) [
      | inl t ↦ rw t (record {
        heard = v.heard;
        merging = v.merging;
        burst = record {
          recorded = f.recorded;
          early = f.early;
          lead = f.lead;
          loud = omega (arith, f.loud);
        };
        same = v.same;
      })
      | inr t ↦ rw t (record {
        heard = e.heard;
        merging = e.merging;
        burst = rw v.same (new_burst-Fits first stretch at value h k l);
        same = e.same;
      })
    ]

threshold-ge :
    (floor : ℕ) (sensitivity : SoundSensitivity) → min_level ≤ threshold floor sensitivity
unfolding threshold
threshold-ge floor sensitivity = omega arith

pub is_quiet-loud :
    (floor value : ℕ) (sensitivity : SoundSensitivity)
    → is_quiet floor sensitivity value ≡ false
    → min_level ≤ value
unfolding is_quiet
is_quiet-loud floor value sensitivity h = ground (arith, threshold-ge floor sensitivity)
