-- ===== src/Audio/Sounds/Stretches.antt =====
-- The stretches of recording between gaps, in `detect` of backend/src/audio/activity.rs.
use on_air_record.Base.{
  ℕ, suc, ◌*◌, ◌⊎◌, ◌∙◌, length, if_branches, if◌then◌else◌, ◌≡◌, refl, inl, inr, Bool-cases, subst,
  false, true, Option, none, some, List, [], ◌∷◌, All, arith,
}
use on_air_record.Base.Int.{
  ℤ, pos, negsuc, ◌<ℤ◌, max_ℤ, max_ℤ_bounds, le_ℤ_trans, ◌+ℤ◌, ◌-ℤ◌, ◌≤ℤ◌, ◌==ℤ◌, ltb_ℤ, leb_ℤ,
  div_euclid, int_laws,
}
use on_air_record.Audio.Sounds.Floor.{
  SoundSensitivity, EnvelopeRun, peak_bucket_ms, floor_block_ms, noise_floors, floor_at,
}
use on_air_record.Audio.Sounds.Detect.{
  Sound, Detector, close, end_burst, loud_slot, is_quiet, slot, scan, scan_run, scan_runs,
  begin_run, is_continuous, start, detect, lead_in_ms, min_burst_ms,
}
use on_air_record.Audio.Sounds.Bounds.{
  IsHeard, Sane, close-heard, end_burst-Sane, loud_slot-Sane, is_quiet-loud,
}

-- The end of a run.
abbrev pub end_of : EnvelopeRun → ℤ
end_of run = run.start_ms +ℤ pos (length run.values * peak_bucket_ms)

-- Where the stretch of recording that a run belongs to began: a run that starts more than half a second
-- after the end of the one before begins a new one.
abbrev pub stretch_from : Option ℤ → ℤ → EnvelopeRun → ℤ
stretch_from none stretch run = run.start_ms
stretch_from (some end_ms) stretch run =
    if leb_ℤ (run.start_ms -ℤ end_ms) (pos 500) then stretch else run.start_ms

-- The start is in one of the runs, and the other moment not before that run's stretch.
unfoldable pub InStretch : Option ℤ → ℤ → List EnvelopeRun → ℤ → ℤ → Type 0
InStretch before stretch [] start_ms seek_ms = false ≡ true
InStretch before stretch (run ∷ runs) start_ms seek_ms =
    let here = stretch_from before stretch run in
    ((run.start_ms ≤ℤ start_ms) × (start_ms <ℤ end_of run) × (here ≤ℤ seek_ms))
    ⊎ InStretch (some (end_of run)) here runs start_ms seek_ms

-- Runs in time order, none before `lo`.
abbrev pub StartsFrom : ℤ → List EnvelopeRun → Type 0
StartsFrom lo [] = Unit
StartsFrom lo (run ∷ runs) = (lo ≤ℤ run.start_ms) × StartsFrom run.start_ms runs

starts_later :
    (lowest highest : ℤ) (runs : List EnvelopeRun)
    → lowest ≤ℤ highest
    → StartsFrom highest runs
    → StartsFrom lowest runs
starts_later lowest highest [] h k = tt
starts_later lowest highest (run ∷ runs) h k = (le_ℤ_trans lowest highest run.start_ms h k.0, k.1)

module _ (floors : List (ℤ × ℕ)) (sensitivity : SoundSensitivity) (W : ℤ → ℤ → Type 0) where
  -- A slot at a moment that W has, with the start of its playback.
  slot-Sane :
      (stretch : ℤ) (d : Detector) (at : ℤ) (value : ℕ)
      → W at (max_ℤ (at -ℤ pos lead_in_ms) stretch)
      → stretch ≤ℤ at
      → Sane W stretch d
      → Sane W stretch (slot floors sensitivity d at value)
  unfolding slot
  slot-Sane stretch d at value w under v =
      let floor = floor_at (div_euclid at floor_block_ms) floors in
      elim (Bool-cases (is_quiet floor sensitivity value)) [
        | inl e ↦ rw e (end_burst-Sane W stretch d d.burst v v.burst)
        | inr e ↦ rw e (
            loud_slot-Sane W stretch d d.burst at value v v.burst w under
              (is_quiet-loud floor value sensitivity e))
      ]

  scan-Sane :
      (lowest stretch : ℤ) (d : Detector) (at : ℤ) (values : List ℕ)
      → ((start_ms seek_ms : ℤ)
          → lowest ≤ℤ start_ms
          → start_ms <ℤ at +ℤ pos (length values * peak_bucket_ms)
          → stretch ≤ℤ seek_ms
          → W start_ms seek_ms)
      → lowest ≤ℤ at
      → stretch ≤ℤ at
      → Sane W stretch d
      → Sane W stretch (scan floors sensitivity d at values)
  unfolding scan
  scan-Sane lowest stretch d at [] w h under v = v
  scan-Sane lowest stretch d at (value ∷ values) w h under v =
      scan-Sane lowest stretch (slot floors sensitivity d at value) (at +ℤ pos peak_bucket_ms)
        values
        (λ start_ms seek_ms a b c. w start_ms seek_ms a (next_end start_ms at (length values) b) c)
        (omega int_laws) (omega int_laws)
        (slot-Sane stretch d at value
          (w at (max_ℤ (at -ℤ pos lead_in_ms) stretch) h (in_slot at (length values))
            (max_ℤ_bounds (at -ℤ pos lead_in_ms) stretch).1)
          under v)
    where
      next_end :
          (start_ms at : ℤ) (n : ℕ)
          → start_ms <ℤ at +ℤ pos peak_bucket_ms +ℤ pos (n * peak_bucket_ms)
          → start_ms <ℤ at +ℤ pos (suc n * peak_bucket_ms)
      next_end start_ms at n b = omega int_laws

      in_slot : (at : ℤ) (n : ℕ) → at <ℤ at +ℤ pos (suc n * peak_bucket_ms)
      in_slot at n = omega int_laws

  ended-heard :
      (d : Detector) (stretch : ℤ)
      → Sane W stretch d
      → All (IsHeard W) (close (end_burst d.burst d).merging (end_burst d.burst d).sounds)
  ended-heard d stretch v =
      let e = end_burst-Sane W stretch d d.burst v v.burst in
      close-heard W (end_burst d.burst d).merging (end_burst d.burst d).sounds e.merging e.heard

  -- The detector at the start of a run, by where the run before ended.
  begun-Sane :
      (before : Option ℤ) (stretch : ℤ) (d : Detector) (run : EnvelopeRun)
      → Sane W stretch d
      → let ended = end_burst d.burst d in
        let broken = record ended {
          merging = none;
          sounds = close ended.merging ended.sounds;
          stretch_start_ms = run.start_ms;
        } in
        let current = if is_continuous floors sensitivity before run.start_ms then d else broken in
        Sane W
          (stretch_from before stretch run)
          (record current { previous_end_ms = some (end_of run) })
  begun-Sane none stretch d run v = record {
    heard = ended-heard d stretch v;
    merging = tt;
    burst = (end_burst-Sane W stretch d d.burst v v.burst).burst;
    same = refl;
  }
  begun-Sane (some end_ms) stretch d run v =
      elim (Bool-cases (leb_ℤ (run.start_ms -ℤ end_ms) (pos 500))) [
        | inl t ↦
            rw t (record { heard = v.heard; merging = v.merging; burst = v.burst; same = v.same })
        | inr t ↦ rw t (record {
          heard = ended-heard d stretch v;
          merging = tt;
          burst = (end_burst-Sane W stretch d d.burst v v.burst).burst;
          same = refl;
        })
      ]

  begin_run-Sane :
      (before : Option ℤ) (stretch : ℤ) (d : Detector) (run : EnvelopeRun)
      → d.previous_end_ms ≡ before
      → Sane W stretch d
      → Sane W (stretch_from before stretch run) (begin_run floors sensitivity d run)
  unfolding begin_run
  begin_run-Sane before stretch d run e v =
      subst (λ o. Sane W (stretch_from o stretch run) (begin_run floors sensitivity d run)) e
        (begun-Sane d.previous_end_ms stretch d run v)

  stretch_from-le :
      (before : Option ℤ) (stretch : ℤ) (run : EnvelopeRun)
      → stretch ≤ℤ run.start_ms
      → stretch_from before stretch run ≤ℤ run.start_ms
  stretch_from-le none stretch run h = omega arith
  stretch_from-le (some end_ms) stretch run h =
      if_branches (λ x. x ≤ℤ run.start_ms) (leb_ℤ (run.start_ms -ℤ end_ms) (pos 500)) stretch
        run.start_ms (λ _. h) (λ _. omega arith)

  end_burst-previous :
      (o : Option Sound) (d : Detector) → (end_burst o d).previous_end_ms ≡ d.previous_end_ms
  unfolding end_burst
  end_burst-previous none d = refl
  end_burst-previous (some b) d =
      if_branches (λ (x : Detector). x.previous_end_ms ≡ d.previous_end_ms)
        (ltb_ℤ (b.end_ms -ℤ b.start_ms) (pos min_burst_ms)) _ _ (λ _. refl) (λ _. refl)

  loud_slot-previous :
      (o : Option Sound) (d : Detector) (at : ℤ) (value : ℕ)
      → (loud_slot o d at value).previous_end_ms ≡ d.previous_end_ms
  unfolding loud_slot
  loud_slot-previous none d at value = end_burst-previous none d
  loud_slot-previous (some b) d at value =
      if_branches (λ (x : Detector). x.previous_end_ms ≡ d.previous_end_ms) (b.end_ms ==ℤ at) _ _
        (λ _. refl) (λ _. end_burst-previous (some b) d)

  slot-previous :
      (d : Detector) (at : ℤ) (value : ℕ)
      → (slot floors sensitivity d at value).previous_end_ms ≡ d.previous_end_ms
  unfolding slot
  slot-previous d at value =
      if_branches (λ (x : Detector). x.previous_end_ms ≡ d.previous_end_ms)
        (is_quiet (floor_at (div_euclid at floor_block_ms) floors) sensitivity value) _ _
        (λ _. end_burst-previous d.burst d) (λ _. loud_slot-previous d.burst d at value)

  scan-previous :
      (d : Detector) (at : ℤ) (values : List ℕ)
      → (scan floors sensitivity d at values).previous_end_ms ≡ d.previous_end_ms
  unfolding scan
  scan-previous d at [] = refl
  scan-previous d at (value ∷ values) =
      scan-previous (slot floors sensitivity d at value) (at +ℤ pos peak_bucket_ms) values
      ∙ slot-previous d at value

  begin_run-previous :
      (d : Detector) (run : EnvelopeRun)
      → (begin_run floors sensitivity d run).previous_end_ms ≡ some (end_of run)
  unfolding begin_run
  begin_run-previous d run = refl

  -- What is left of the runs is where W has moments.
  scan_runs-heard :
      (before : Option ℤ) (stretch : ℤ) (d : Detector) (runs : List EnvelopeRun)
      → ((start_ms seek_ms : ℤ)
          → InStretch before stretch runs start_ms seek_ms
          → W start_ms seek_ms)
      → d.previous_end_ms ≡ before
      → StartsFrom stretch runs
      → Sane W stretch d
      → let c = scan_runs floors sensitivity d runs in
        All (IsHeard W) (close (end_burst c.burst c).merging (end_burst c.burst c).sounds)
  unfolding scan_runs scan_run InStretch
  scan_runs-heard before stretch d [] w e h v = ended-heard d stretch v
  scan_runs-heard before stretch d (run ∷ runs) w e h v =
      let here = stretch_from before stretch run in
      let begun = begin_run floors sensitivity d run in
      let under = stretch_from-le before stretch run h.0 in
      scan_runs-heard (some (end_of run)) here
        (scan floors sensitivity begun run.start_ms run.values) runs
        (λ start_ms seek_ms k. w start_ms seek_ms (inr k))
        (scan-previous begun run.start_ms run.values ∙ begin_run-previous d run)
        (starts_later here run.start_ms runs under h.1)
        (scan-Sane run.start_ms here begun run.start_ms run.values
          (λ start_ms seek_ms a b c. w start_ms seek_ms (inl (a, b, c))) (omega arith) under
          (begin_run-Sane before stretch d run e v))

-- For runs in time order that start within the range of i64, at every sensitivity, every sound found lasts
-- at least 300 ms and reaches at least level 2; it starts in one of the runs, and playback of it starts at
-- most a second before it, never after it, and never before the stretch of recording that its run belongs
-- to, a run that starts more than half a second after the end of the one before beginning a new stretch.
pub detect-heard :
    (runs : List EnvelopeRun) (sensitivity : SoundSensitivity)
    → StartsFrom (negsuc 9223372036854775807) runs
    → All (IsHeard (InStretch none (negsuc 9223372036854775807) runs)) (detect runs sensitivity)
unfolding detect
detect-heard runs sensitivity h =
    scan_runs-heard (noise_floors runs) sensitivity
      (InStretch none (negsuc 9223372036854775807) runs) none (negsuc 9223372036854775807) start
      runs (λ start_ms seek_ms k. k) refl h
      (record { heard = tt; merging = tt; burst = tt; same = refl })
