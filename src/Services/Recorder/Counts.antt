-- ===== src/Services/Recorder/Counts.antt =====
-- The counts of frames and the bound on what waits, for backend/src/services/recorder_service.rs.
use on_air_record.Base.{
  ℕ, suc, ◌+◌, ◌*◌, ◌≤◌, ◌≡◌, refl, inl, inr, Bool-cases, Option, none, some, List, [], ◌∷◌, length,
  length-append, arith,
}
use on_air_record.Base.Int.{pos}
use on_air_record.Models.AudioFrame.{AudioFrame}
use on_air_record.Services.Recorder.Health.{RecorderHealth}
use on_air_record.Services.Recorder.Writer.{Storage, SegmentWriter, SegmentDraft, draft_of}
use on_air_record.Services.Recorder.Disk.{
  Disk, index_waiting, close_writer, close_segment, append_frame, ensure_open, write_frame,
  write_frames, write_to_disk, enqueue, max_waiting_segments, should_roll_over,
}
use on_air_record.Services.Recorder.Rules.{
  index_waiting_rule, close_writer_rule, append_frame_rule, ensure_open_rule,
}

abbrev pub counted : RecorderHealth → ℕ
counted h = h.frames_written + h.frames_not_written

module _ (io : Storage) (session_id : ℕ) where
  -- `n` frames are counted, and the queue is within its limit.
  pub record Counts (n : ℕ) (d : Disk io session_id) : Type 0 where
    pub total : counted d.health ≡ n
    pub bounded : length d.waiting ≤ max_waiting_segments

  enqueue-le :
      (ws : List SegmentDraft) (x : SegmentDraft)
      → length ws ≤ max_waiting_segments
      → length (enqueue io session_id ws x) ≤ max_waiting_segments
  unfolding enqueue
  enqueue-le [] x h = ground arith
  enqueue-le (w ∷ ws) x h = ground (arith, length-append ws (x ∷ []))

  close_segment-Counts :
      (n : ℕ) (d : Disk io session_id) → Counts n d → Counts n (close_segment io session_id d)
  unfolding close_segment
  close_segment-Counts n d c = indexed (close_writer io session_id d d.writer) closed
    where
      closed : Counts n (close_writer io session_id d d.writer)
      closed =
          close_writer_rule io session_id (Counts n) d d.writer
            (λ w. record { total = c.total; bounded = c.bounded })
            (λ w m. record { total = c.total; bounded = c.bounded })
            (λ w s e f. record {
              total = c.total;
              bounded = enqueue-le d.waiting (draft_of s) c.bounded;
            })

      queue : (d : Disk io session_id) → List SegmentDraft → Type 0
      queue d ws = (counted d.health ≡ n) × (length ws ≤ max_waiting_segments)

      indexed :
          (d : Disk io session_id) → Counts n d → Counts n (index_waiting io session_id d d.waiting)
      indexed d k =
          let (total, bounded) =
            index_waiting_rule io session_id queue (λ d x ws w h. (h.0, omega arith))
              (λ d x ws w h. (h.0, omega arith)) (λ d ws w m h. h) d d.waiting
              (k.total, k.bounded) in
          record { total = total; bounded = bounded }

  append_frame-Counts :
      (n : ℕ) (d : Disk io session_id) (s : SegmentWriter) (frame : AudioFrame)
      → Counts n d
      → Counts (suc n) (append_frame io session_id d (some s) frame)
  append_frame-Counts n d s frame c =
      append_frame_rule io session_id (Counts (suc n)) d s frame
        (λ w. record { total = omega (arith, c.total); bounded = c.bounded })
        (λ w m.
          close_segment-Counts (suc n) _
            (record { total = omega (arith, c.total); bounded = c.bounded }))

  ensure_open-Counts :
      (n : ℕ) (d : Disk io session_id) (o : Option SegmentWriter) (frame : AudioFrame)
      → Counts n d
      → Counts (suc n) (ensure_open io session_id d o frame)
  unfolding ensure_open
  ensure_open-Counts n d (some s) frame c = append_frame-Counts n d s frame c
  ensure_open-Counts n d none frame c =
      ensure_open_rule io session_id (Counts (suc n)) d frame
        (λ w. append_frame-Counts n _ _ frame (record { total = c.total; bounded = c.bounded }))
        (λ w m. record { total = omega (arith, c.total); bounded = c.bounded })

  write_frame-Counts :
      (n : ℕ) (d : Disk io session_id) (frame : AudioFrame)
      → Counts n d
      → Counts (suc n) (write_frame io session_id d frame)
  unfolding write_frame
  write_frame-Counts n d frame c =
      elim (Bool-cases
        (should_roll_over d.writer frame (pos (io.segment_seconds d.world * 1000)))) [
          | inl e ↦ rw e (ensure_open-Counts n _ _ frame (close_segment-Counts n d c))
          | inr e ↦ rw e (ensure_open-Counts n d _ frame c)
        ]

  write_frames-Counts :
      (n : ℕ) (d : Disk io session_id) (frames : List AudioFrame)
      → Counts n d
      → Counts (n + length frames) (write_frames io session_id d frames)
  unfolding write_frames
  write_frames-Counts n d [] c = record { total = omega (arith, c.total); bounded = c.bounded }
  write_frames-Counts n d (f ∷ fs) c =
      let rest = write_frames-Counts (suc n) _ fs (write_frame-Counts n d f c) in
      record { total = omega (arith, rest.total); bounded = rest.bounded }

  -- Whatever the file system and the index answer, each frame that reaches the disk thread is
  -- counted exactly once, as written or as not written, and when the thread ends at most 360
  -- segments wait for the index.
  pub write_to_disk-counts :
      (world : io.World) (health : RecorderHealth) (index : List SegmentDraft)
      (frames : List AudioFrame)
      → let d = write_to_disk io session_id world health index frames in
        (counted d.health ≡ counted health + length frames)
        × (length d.waiting ≤ max_waiting_segments)
  unfolding write_to_disk
  write_to_disk-counts world health index frames =
      let c = close_segment-Counts _ _ (
        write_frames-Counts (counted health) _ frames
          (record { total = refl; bounded = omega arith })) in
      (c.total, c.bounded)
