-- ===== src/Services/Export/Length.antt =====
-- The length of the file of an export (backend/src/services/export_service.rs).
use on_air_record.Base.{
  ℕ, zero, suc, ◌+◌, ◌-◌, ◌≤◌, ◌≡◌, ◌≢◌, refl, sym, ◌∙◌, ap, arith, ◌%◌, ◌^◌, Bool, true, false,
  Bool-cases, inl, inr, List, [], ◌∷◌, length, take, replicate, length-append, length-take,
  length-replicate, ltb, ◌==◌, if◌then◌else◌,
}
use on_air_record.Audio.Wav.{header, header_bytes, length-header}
use on_air_record.Base.{Option, none, some}
use on_air_record.Base.Int.{leb_ℤ}
use on_air_record.Models.AudioFrame.{AudioFrame}
use on_air_record.Services.Playback.{
  Library, Answer, ok, error, CursorOutput, frame, gap, end_of_recording, advance,
}
use on_air_record.Services.Export.{
  ExportPlan, Resampling, Export, Chunk, bytes, past_end, tail, broken, Ending, complete, cancelled,
  failed, out_of_fuel, next_chunk, emit, emit_truncated, pad, go_on, after_chunk, write_data, start,
  write, chunk_of, encode_frame, resample, filter_for,
}

not_longer : (n m : ℕ) → ltb n m ≡ false → m ≤ n
not_longer n m e = ground (arith, e)

not_less : (n m : ℕ) → ltb n m ≡ false → m ≤ n
not_less n m e = ground (arith, e)

module _ (resampling : Resampling) (library : Library) (takes : ℕ → Bool) (plan : ExportPlan) where
  -- The file is the header and the audio counted so far, and no more than announced.
  unfoldable pub Counted : Export resampling → Type 0
  Counted x = (length x.file ≡ header_bytes + x.written) × (x.written ≤ plan.data_bytes)

  -- The whole announced length when it is complete, never more than that.
  unfoldable pub Exact : Export resampling × Ending resampling → Type 0
  Exact r =
      (length r.0.file ≤ header_bytes + plan.data_bytes)
      × (r.1 ≡ complete → length r.0.file ≡ header_bytes + plan.data_bytes)

  more-Counted :
      (x : Export resampling) (chunk : List ℕ)
      → Counted x
      → length chunk ≤ plan.data_bytes - x.written
      → Counted
          (emit resampling library takes plan
            (record x { written = x.written + length chunk })
            chunk).0
  unfolding emit Counted
  more-Counted x chunk (size, most) fits =
      (length-append x.file chunk ∙ omega (arith, size), omega (arith, most, fits))

  cut-fits :
      (remaining : ℕ) (chunk : List ℕ)
      → length (if ltb remaining (length chunk) then take remaining chunk else chunk) ≤ remaining
  cut-fits remaining chunk = elim (Bool-cases (ltb remaining (length chunk))) [
    | inl e ↦ rw e (omega (arith, length-take remaining chunk))
    | inr e ↦ rw e (not_longer remaining (length chunk) e)
  ]

  emit_truncated-Counted :
      (x : Export resampling) (chunk : List ℕ)
      → Counted x
      → Counted (emit_truncated resampling library takes plan x chunk).0
  unfolding emit_truncated
  emit_truncated-Counted x [] h = h
  emit_truncated-Counted x (b ∷ chunk) h = elim (Bool-cases (plan.data_bytes - x.written == 0)) [
    | inl e ↦ rw e h
    | inr e ↦ rw e (more-Counted x _ h (cut-fits (plan.data_bytes - x.written) (b ∷ chunk)))
  ]

  pad-Exact : (x : Export resampling) → Counted x → Exact (pad resampling library takes plan x)
  unfolding pad emit Counted Exact
  pad-Exact x (size, most) =
      let missing = plan.data_bytes - x.written in
      elim (Bool-cases (ltb x.written plan.data_bytes)) [
        | inl e ↦
            let whole = length-append x.file (replicate missing 0) in
            let zeros = length-replicate {A = ℕ} missing 0 in
            rw e (
              omega (arith, whole, zeros, size, most),
              λ c. omega (arith, whole, zeros, size, most),
            )
        | inr e ↦
            let full = not_less x.written plan.data_bytes e in
            rw e (omega (arith, size, most), λ c. omega (arith, size, most, full))
      ]

  stopped-Exact :
      (x : Export resampling) (e : Ending resampling) → e ≢ complete → Counted x → Exact (x, e)
  unfolding Exact Counted
  stopped-Exact x e other (size, most) = (omega (arith, size, most), λ c. absurd (other c))

  go_on-Exact :
      (again : Export resampling → Export resampling × Ending resampling)
      (r : Export resampling × Bool)
      → ((y : Export resampling) → Counted y → Exact (again y))
      → Counted r.0
      → Exact (go_on resampling library takes plan again r)
  go_on-Exact again (x, true) later h = later x h
  go_on-Exact again (x, false) later h = stopped-Exact x cancelled (λ e. ground (arith, e)) h

  after_chunk-Exact :
      (again : Export resampling → Export resampling × Ending resampling)
      (r : Export resampling × Chunk resampling)
      → ((y : Export resampling) → Counted y → Exact (again y))
      → Counted r.0
      → Exact (after_chunk resampling library takes plan again r)
  after_chunk-Exact again (x, bytes chunk) later h =
      go_on-Exact again (emit_truncated resampling library takes plan x chunk) later
        (emit_truncated-Counted x chunk h)
  after_chunk-Exact again (x, past_end) later h = pad-Exact x h
  after_chunk-Exact again (x, tail chunk) later h = pad-Exact _ (emit_truncated-Counted x chunk h)
  after_chunk-Exact again (x, broken message) later h =
      stopped-Exact x (failed message) (λ e. ground (arith, e)) h

  -- Reading the next chunk writes nothing.
  unfoldable pub Unwritten : Export resampling → Export resampling → Type 0
  Unwritten x y = (y.file ≡ x.file) × (y.written ≡ x.written)

  encode_frame-Unwritten :
      (x : Export resampling) (f : AudioFrame) → Unwritten x (encode_frame resampling plan x f).0
  unfolding encode_frame Unwritten
  encode_frame-Unwritten x f = elim (Bool-cases (f.sample_rate == plan.sample_rate)) [
    | inl e ↦ rw e (refl, refl)
    | inr e ↦ rw e (resampled (filter_for resampling plan x.resampler f.sample_rate))
  ]
    where
      resampled :
          (o : Option (ℕ × resampling.Filter))
          → ((resample resampling x f o).0.file ≡ x.file)
            × ((resample resampling x f o).0.written ≡ x.written)
      resampled none = (refl, refl)
      resampled (some (rate, active)) = (refl, refl)

  chunk_of-Unwritten :
      (x : Export resampling) (o : Answer CursorOutput)
      → Unwritten x (chunk_of resampling plan x o).0
  unfolding chunk_of Unwritten
  chunk_of-Unwritten x (error message) = (refl, refl)
  chunk_of-Unwritten x (ok (frame f)) = elim (Bool-cases (leb_ℤ plan.range.end_ms f.timestamp_ms)) [
    | inl e ↦ rw e (refl, refl)
    | inr e ↦ rw e (encode_frame-Unwritten x f)
  ]
  chunk_of-Unwritten x (ok (gap from_ms to_ms)) = (refl, refl)
  chunk_of-Unwritten x (ok (end_of_recording at_ms)) = (refl, refl)

  pub next_chunk-Unwritten :
      (x : Export resampling) → Unwritten x (next_chunk resampling library takes plan x).0
  unfolding next_chunk Unwritten
  next_chunk-Unwritten x =
      let (cursor, output) = advance library x.cursor in
      chunk_of-Unwritten (record x { cursor = cursor }) output

  next_chunk-Counted :
      (x : Export resampling) → Counted x → Counted (next_chunk resampling library takes plan x).0
  unfolding Counted Unwritten
  next_chunk-Counted x (size, most) =
      let (file, written) = next_chunk-Unwritten x in
      (
        ap length file ∙ size ∙ ap (λ n. header_bytes + n) (sym written),
        omega (arith, most, written),
      )

  write_data-Exact :
      (n : ℕ) (x : Export resampling)
      → Counted x
      → Exact (write_data resampling library takes plan n x)
  unfolding write_data
  write_data-Exact zero x h = stopped-Exact x out_of_fuel (λ e. ground (arith, e)) h
  write_data-Exact (suc n) x h = elim (Bool-cases (ltb x.written plan.data_bytes)) [
    | inl e ↦ rw e (
        after_chunk-Exact (λ y. write_data resampling library takes plan n y)
          (next_chunk resampling library takes plan x) (λ y k. write_data-Exact n y k)
          (next_chunk-Counted x h))
    | inr e ↦ rw e (pad-Exact x h)
  ]

  greeted-Counted :
      Counted
        (emit resampling library takes plan
          (start resampling library takes plan)
          (header plan.sample_rate plan.channels (plan.data_bytes % 2 ^ 32))).0
  unfolding Counted emit
  greeted-Counted =
      (length-header plan.sample_rate plan.channels (plan.data_bytes % 2 ^ 32), omega arith)

  -- Whatever the cursor answers and however long the export runs, the file never gets longer than the
  -- header and the announced audio, and a complete one has exactly that length.
  pub write-Exact : (steps : ℕ) → Exact (write resampling library takes plan steps)
  unfolding write
  write-Exact steps =
      go_on-Exact (λ x. write_data resampling library takes plan steps x) _
        (λ x h. write_data-Exact steps x h) greeted-Counted
