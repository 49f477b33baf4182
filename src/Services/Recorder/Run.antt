-- ===== src/Services/Recorder/Run.antt =====
-- An invariant of the disk thread over the frames received so far, from what each step has to show.
use on_air_record.Base.{
  ℕ, ◌+◌, ◌*◌, ◌≡◌, refl, subst, inl, inr, false, Bool-cases, Option, none, some, List, [], ◌∷◌,
  ◌++◌, append-nil, append_assoc, arith, ◌==◌,
}
use on_air_record.Base.Int.{ℤ, pos}
use on_air_record.Models.AudioFrame.{AudioFrame}
use on_air_record.Services.Recorder.Health.{RecorderHealth}
use on_air_record.Services.Recorder.Writer.{
  Storage, SegmentWriter, SegmentDraft, opened, appended, draft_of,
}
use on_air_record.Services.Recorder.Disk.{
  Disk, index_waiting, close_writer, close_segment, append_frame, ensure_open, write_frame,
  write_frames, write_to_disk, enqueue, should_roll_over,
}
use on_air_record.Services.Recorder.Rules.{
  index_waiting_rule, close_writer_rule, append_frame_rule, ensure_open_rule,
}

module _ (io : Storage) (session_id : ℕ) (P : List AudioFrame → Disk io session_id → Type 0) where
  pub record Invariant : Type 0 where
    pub stores :
        (rs : List AudioFrame) (d : Disk io session_id) (x : SegmentDraft) (ws : List SegmentDraft)
        → P rs (record d { waiting = x ∷ ws })
        → P rs (record d { waiting = ws; index = d.index ++ x ∷ [] })
    pub drops :
        (rs : List AudioFrame) (d : Disk io session_id) (x : SegmentDraft) (ws : List SegmentDraft)
        → P rs (record d { waiting = x ∷ ws })
        → P rs (record d { waiting = ws })
    pub hidden :
        (rs : List AudioFrame) (d : Disk io session_id) (w : io.World) (h : RecorderHealth) (n : ℕ)
        → P rs d
        → P rs (record d { world = w; health = h; segments_written = n })
    pub closes :
        (rs : List AudioFrame) (d : Disk io session_id) → P rs d → P rs (record d { writer = none })
    pub queues :
        (rs : List AudioFrame) (d : Disk io session_id) (s : SegmentWriter)
        → P rs d
        → d.writer ≡ some s
        → (s.byte_len == 0) ≡ false
        → P rs (record d { writer = none; waiting = enqueue io session_id d.waiting (draft_of s) })
    pub extends :
        (rs : List AudioFrame) (d : Disk io session_id) (s : SegmentWriter) (f : AudioFrame)
        (ms : ℤ)
        → P rs d
        → d.writer ≡ some s
        → should_roll_over (some s) f ms ≡ false
        → P (rs ++ f ∷ []) (record d { writer = some (appended s f) })
    pub begins :
        (rs : List AudioFrame) (d : Disk io session_id) (f : AudioFrame)
        → P rs d
        → d.writer ≡ none
        → P (rs ++ f ∷ []) (record d {
          writer = some (appended (opened session_id d.sequence f) f);
          sequence = d.sequence + 1;
        })
    pub skips :
        (rs : List AudioFrame) (d : Disk io session_id) (f : AudioFrame)
        → P rs d
        → d.writer ≡ none
        → P (rs ++ f ∷ []) d
    pub passes :
        (rs : List AudioFrame) (d : Disk io session_id)
        → P rs d
        → P rs (record d { sequence = d.sequence + 1 })

  module _ (inv : Invariant) where
    open inv use {stores, drops, hidden, closes, queues, extends, begins, skips, passes}

    -- The invariant with no file open.
    abbrev Shut : List AudioFrame → Disk io session_id → Type 0
    Shut rs d = P rs d × (d.writer ≡ none)

    indexed :
        (rs : List AudioFrame) (d : Disk io session_id)
        → Shut rs d
        → Shut rs (index_waiting io session_id d d.waiting)
    indexed rs d h =
        index_waiting_rule io session_id (λ d ws. Shut rs (record d { waiting = ws }))
          (λ d x ws w k. (
            hidden rs (record d { waiting = ws; index = d.index ++ x ∷ [] }) w d.health
                (d.segments_written + 1) (stores rs d x ws k.0),
            k.1,
          ))
          (λ d x ws w k. (
            hidden rs (record d { waiting = ws }) w d.health d.segments_written
                (drops rs d x ws k.0),
            k.1,
          ))
          (λ d ws w m k. (
            hidden rs (record d { waiting = ws }) w (record d.health { indexing = m })
                d.segments_written k.0,
            k.1,
          ))
          d d.waiting h

    close_segment-Shut :
        (rs : List AudioFrame) (d : Disk io session_id)
        → P rs d
        → Shut rs (close_segment io session_id d)
    unfolding close_segment
    close_segment-Shut rs d h = indexed rs (close_writer io session_id d d.writer) (
        close_writer_rule io session_id (Shut rs) d d.writer
          (λ w. (
            hidden rs (record d { writer = none }) w d.health d.segments_written (closes rs d h),
            refl,
          ))
          (λ w m. (
            hidden rs (record d { writer = none }) w (record d.health { writing = some m })
                d.segments_written (closes rs d h),
            refl,
          ))
          (λ w s e f. (hidden rs _ w d.health d.segments_written (queues rs d s h e f), refl)))

    append_old :
        (rs : List AudioFrame) (d : Disk io session_id) (s : SegmentWriter) (f : AudioFrame)
        (ms : ℤ)
        → P rs d
        → d.writer ≡ some s
        → should_roll_over (some s) f ms ≡ false
        → P (rs ++ f ∷ []) (append_frame io session_id d (some s) f)
    append_old rs d s f ms h e stay =
        append_frame_rule io session_id (P (rs ++ f ∷ [])) d s f
          (λ w.
            hidden (rs ++ f ∷ []) (record d { writer = some (appended s f) }) w _ d.segments_written
              (extends rs d s f ms h e stay))
          (λ w m.
            let (k, shut) =
              close_segment-Shut rs _
                (hidden rs (record d { writer = some s }) w _ d.segments_written (rw (← e) h)) in
            skips rs _ f k shut)

    -- A file opened for this very frame: nothing is queued if the append fails.
    append_new :
        (rs : List AudioFrame) (d : Disk io session_id) (w : io.World) (f : AudioFrame)
        → Shut rs d
        → P (rs ++ f ∷ []) (
            append_frame io session_id
              (record d {
                writer = some (opened session_id d.sequence f);
                world = w;
                sequence = d.sequence + 1;
              })
              (some (opened session_id d.sequence f))
              f)
    unfolding close_segment
    append_new rs d w f (h, shut) =
        append_frame_rule io session_id (P (rs ++ f ∷ [])) _ (opened session_id d.sequence f) f
          (λ w'. hidden (rs ++ f ∷ []) _ w' _ d.segments_written (begins rs d f h shut))
          (λ w' m.
            let (k, empty) = indexed rs _ (
              close_writer_rule io session_id (Shut rs) _ (some (opened session_id d.sequence f))
                (λ v. (hidden rs _ v _ d.segments_written (closes rs _ (passes rs d h)), refl))
                (λ v n. (hidden rs _ v _ d.segments_written (closes rs _ (passes rs d h)), refl))
                (λ v s e full. absurd (empty_is_zero f s e full))) in
            skips rs _ f k empty)
      where
        empty_is_zero :
            (f : AudioFrame) (s : SegmentWriter)
            → some (opened session_id d.sequence f) ≡ some s
            → (s.byte_len == 0) ≡ false
            → ⊥
        empty_is_zero f s e full = ground arith

    ensure_open-keeps :
        (rs : List AudioFrame) (d : Disk io session_id) (o : Option SegmentWriter) (f : AudioFrame)
        (ms : ℤ)
        → P rs d
        → d.writer ≡ o
        → should_roll_over o f ms ≡ false
        → P (rs ++ f ∷ []) (ensure_open io session_id d o f)
    unfolding ensure_open
    ensure_open-keeps rs d (some s) f ms h e stay = append_old rs d s f ms h e stay
    ensure_open-keeps rs d none f ms h e stay =
        ensure_open_rule io session_id (P (rs ++ f ∷ [])) d f (λ w. append_new rs d w f (h, e))
          (λ w m. hidden (rs ++ f ∷ []) d w _ d.segments_written (skips rs d f h e))

    write_frame-keeps :
        (rs : List AudioFrame) (d : Disk io session_id) (f : AudioFrame)
        → P rs d
        → P (rs ++ f ∷ []) (write_frame io session_id d f)
    unfolding write_frame should_roll_over
    write_frame-keeps rs d f h =
        let ms = pos (io.segment_seconds d.world * 1000) in
        elim (Bool-cases (should_roll_over d.writer f ms)) [
          | inl e ↦
              let (k, shut) = close_segment-Shut rs d h in
              rw e (ensure_open-keeps rs _ _ f ms k refl (rw shut))
          | inr e ↦ rw e (ensure_open-keeps rs d d.writer f ms h refl e)
        ]

    write_frames-keeps :
        (rs : List AudioFrame) (d : Disk io session_id) (fs : List AudioFrame)
        → P rs d
        → P (rs ++ fs) (write_frames io session_id d fs)
    unfolding write_frames
    write_frames-keeps rs d [] h = rw append-nil h
    write_frames-keeps rs d (f ∷ fs) h =
        subst (λ xs. P xs (write_frames io session_id (write_frame io session_id d f) fs))
          (append_assoc rs (f ∷ []) fs)
          (write_frames-keeps (rs ++ f ∷ []) (write_frame io session_id d f) fs
            (write_frame-keeps rs d f h))

    -- What the thread starts from, and what it leaves behind.
    pub write_to_disk-keeps :
        (world : io.World) (health : RecorderHealth) (index : List SegmentDraft)
        (frames : List AudioFrame)
        → P [] (record {
          world = world;
          writer = none;
          sequence = 0;
          waiting = [];
          health = health;
          segments_written = 0;
          index = index;
        })
        → P frames (write_to_disk io session_id world health index frames)
    unfolding write_to_disk
    write_to_disk-keeps world health index frames h =
        (close_segment-Shut frames _ (write_frames-keeps [] _ frames h)).0
