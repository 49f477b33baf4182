-- ===== src/Audio/FrameBuilder/Lossless.antt =====
-- The samples in the frames of backend/src/audio/frame_builder.rs.
use on_air_record.Base.{
  ℕ, ◌<◌, ◌≡◌, refl, ap, subst, ◌∙◌, inl, inr, Bool-cases, false, List, [], ◌∷◌, ◌++◌, map,
  append-nil, append_assoc, concat, All, All-append, length, length-append, arith, ◌==◌, ltb, leb,
}
use on_air_record.Base.Int.{ℤ, ◌-ℤ◌, abs_ℤ}
use on_air_record.Models.AudioFrame.{AudioFrame}
use on_air_record.Audio.FrameBuilder.{
  FrameBuilder, push_sample, push_samples, push, push_all, flush, new, anchor, correct_drift,
  derived_now_ms, frame_samples_for,
}

-- The samples of some frames, laid end to end.
abbrev pub joined : List AudioFrame → List ℤ
joined frames = concat (map (λ f. f.samples) frames)

joined-append : (fs gs : List AudioFrame) → joined (fs ++ gs) ≡ joined fs ++ joined gs
joined-append [] gs = refl
joined-append (f ∷ fs) gs = rw (joined-append fs gs, append_assoc)

-- What holds of the builder between two calls.
pub record IsReady (b : FrameBuilder) : Type 0 where
  pub short : length b.buffer < b.frame_samples

abbrev pub IsFull : ℕ → AudioFrame → Type 0
IsFull size f = length f.samples ≡ size

-- What one call must give: the samples are kept, the frames are full, the size stays.
pub record Kept (b : FrameBuilder) (samples : List ℤ) (r : FrameBuilder × List AudioFrame)
    : Type 0 where
  pub same : joined r.1 ++ r.0.buffer ≡ b.buffer ++ samples
  pub full : All (IsFull b.frame_samples) r.1
  pub short : length r.0.buffer < b.frame_samples
  pub size : r.0.frame_samples ≡ b.frame_samples

push_sample-Kept : (b : FrameBuilder) (s : ℤ) → IsReady b → Kept b (s ∷ []) (push_sample b s)
unfolding push_sample
push_sample-Kept b s r = elim (Bool-cases (leb b.frame_samples (length (b.buffer ++ s ∷ [])))) [
  | inl e ↦ rw e (record {
    same = simp append-nil;
    full = ground (arith, length-append b.buffer (s ∷ []));
    short = omega arith;
    size = refl;
  })
  | inr e ↦ rw e (record { same = refl; full = tt; short = ground arith; size = refl })
]

-- Two calls in a row.
Kept-append :
    (b : FrameBuilder) (xs ys : List ℤ) (c : FrameBuilder) (fs : List AudioFrame) (d : FrameBuilder)
    (gs : List AudioFrame)
    → Kept b xs (c, fs)
    → Kept c ys (d, gs)
    → Kept b (xs ++ ys) (d, fs ++ gs)
Kept-append b xs ys c fs d gs k l = record {
  same =
      simp (joined-append, append_assoc, l.same) (rw (← append_assoc) (rw (k.same, append_assoc)));
  full = All-append (IsFull b.frame_samples) fs gs k.full (rw k.size at l.full);
  short = omega (arith, k.size, l.short);
  size = l.size ∙ k.size;
}

Kept-IsReady :
    (b : FrameBuilder) (xs : List ℤ) (r : FrameBuilder × List AudioFrame)
    → Kept b xs r
    → IsReady r.0
Kept-IsReady b xs r k = record { short = omega (arith, k.short, k.size) }

pub push_samples-Kept :
    (b : FrameBuilder) (samples : List ℤ) → IsReady b → Kept b samples (push_samples b samples)
unfolding push_samples
push_samples-Kept b [] r = record {
  same = simp append-nil;
  full = tt;
  short = r.short;
  size = refl;
}
push_samples-Kept b (s ∷ ss) r =
    let k = push_sample-Kept b s r in
    let r' = Kept-IsReady b (s ∷ []) (push_sample b s) k in
    Kept-append b (s ∷ []) ss (push_sample b s).0 (push_sample b s).1 _ _ k
      (push_samples-Kept (push_sample b s).0 ss r')

anchor_keeps :
    (b : FrameBuilder) (samples : List ℤ) (now_ms : ℤ)
    → ((anchor b samples now_ms).buffer ≡ b.buffer)
      × ((anchor b samples now_ms).frame_samples ≡ b.frame_samples)
unfolding anchor
anchor_keeps b samples now_ms = ground arith

correct_drift_keeps :
    (b : FrameBuilder) (now_ms : ℤ)
    → ((correct_drift b now_ms).buffer ≡ b.buffer)
      × ((correct_drift b now_ms).frame_samples ≡ b.frame_samples)
unfolding correct_drift
correct_drift_keeps b now_ms = elim (Bool-cases (ltb 500 (abs_ℤ (derived_now_ms b -ℤ now_ms)))) [
  | inl e ↦ rw e (refl, refl)
  | inr e ↦ rw e (refl, refl)
]

-- For a builder that holds less than a frame, as one does from `new` on and after every `push`: a
-- buffer that the driver delivers is kept whole; what comes out as frames, each of exactly the
-- size of the settings, with what waits for the next frame, is what waited before with the new
-- samples behind it.
pub push-Kept :
    (b : FrameBuilder) (samples : List ℤ) (now_ms : ℤ)
    → IsReady b
    → Kept b samples (push b samples now_ms)
unfolding push
push-Kept b samples now_ms r =
    let a = anchor b samples now_ms in
    let (kept, size) = anchor_keeps b samples now_ms in
    let k = push_samples-Kept a samples (record { short = rw (kept, size) r.short }) in
    let (tail, size') = correct_drift_keeps (push_samples a samples).0 now_ms in
    let sized : (b.frame_samples == 0) ≡ false = ground (arith, r.short) in
    rw sized (record {
      same = rw tail (k.same ∙ ap (λ xs. xs ++ samples) kept);
      full = subst (λ n. All (IsFull n) (push_samples a samples).1) size k.full;
      short = rw tail (subst (λ n. length (push_samples a samples).0.buffer < n) size k.short);
      size = size' ∙ k.size ∙ size;
    })

push_all-Kept :
    (b : FrameBuilder) (buffers : List (List ℤ × ℤ))
    → IsReady b
    → Kept b (concat (map (λ d. d.0) buffers)) (push_all b buffers)
unfolding push_all
push_all-Kept b [] r = record { same = simp append-nil; full = tt; short = r.short; size = refl }
push_all-Kept b ((samples, now_ms) ∷ rest) r =
    let k = push-Kept b samples now_ms r in
    let r' = Kept-IsReady b samples (push b samples now_ms) k in
    Kept-append b samples _ (push b samples now_ms).0 (push b samples now_ms).1 _ _ k
      (push_all-Kept (push b samples now_ms).0 rest r')

flush_joined : (b : FrameBuilder) (now_ms : ℤ) → joined (flush b now_ms).1 ≡ b.buffer
unfolding flush
flush_joined b now_ms = go b.buffer refl
  where
    go : (xs : List ℤ) → b.buffer ≡ xs → joined (flush b now_ms).1 ≡ b.buffer
    go [] e = rw e
    go (x ∷ xs) e = ground (arith, append-nil (x ∷ xs))

pub new-IsReady : (rate channels frame_ms : ℕ) → IsReady (new rate channels frame_ms)
unfolding new
new-IsReady rate channels frame_ms = record { short = omega arith }

-- Whatever buffers the driver delivers to a new builder, every frame that is emitted has exactly
-- the size of the settings, fewer samples than that wait, and the frames followed by what `flush`
-- emits are the samples delivered: none lost, none repeated, none reordered.
pub capture_lossless :
    (rate channels frame_ms : ℕ) (buffers : List (List ℤ × ℤ)) (now_ms : ℤ)
    → let r = push_all (new rate channels frame_ms) buffers in
      (joined (r.1 ++ (flush r.0 now_ms).1) ≡ concat (map (λ d. d.0) buffers))
      × All (IsFull (frame_samples_for rate frame_ms)) r.1
      × (length r.0.buffer < frame_samples_for rate frame_ms)
unfolding new
capture_lossless rate channels frame_ms buffers now_ms =
    let b = new rate channels frame_ms in
    let k = push_all-Kept b buffers (new-IsReady rate channels frame_ms) in
    let r = push_all b buffers in
    (rw (joined-append r.1 (flush r.0 now_ms).1, flush_joined r.0 now_ms) k.same, k.full, k.short)
