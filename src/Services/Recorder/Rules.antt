-- ===== src/Services/Recorder/Rules.antt =====
-- One rule for each function of the disk thread: what a proof about it has to show.
use Prim.Native.String.{String}
use on_air_record.Base.{
  ℕ, ◌+◌, ◌≡◌, refl, Bool, true, false, Option, none, some, List, [], ◌∷◌, ◌++◌, ◌==◌,
}
use on_air_record.Models.AudioFrame.{AudioFrame, to_le_bytes as bytes}
use on_air_record.Services.Recorder.Health.{frame_written, frame_not_written}
use on_air_record.Services.Recorder.Writer.{
  Storage, SegmentWriter, SegmentDraft, Insert, stored, constraint_violation, insert_failed,
  Attempt, done, failed, opened, appended, draft_of,
}
use on_air_record.Services.Recorder.Disk.{
  Disk, index_waiting, close_writer, close_segment, append_frame, ensure_open, enqueue,
}

module _ {ℓ} (io : Storage) (session_id : ℕ) where
  -- An invariant of the loop over the queue, `P d ws` with `ws` still to be tried.
  pub index_waiting_rule :
      (P : Disk io session_id → List SegmentDraft → Type ℓ)
      → ((d : Disk io session_id) (x : SegmentDraft) (ws : List SegmentDraft) (w : io.World)
          → P d (x ∷ ws)
          → P
              (record d {
                world = w;
                segments_written = d.segments_written + 1;
                index = d.index ++ x ∷ [];
              })
              ws)
      → ((d : Disk io session_id) (x : SegmentDraft) (ws : List SegmentDraft) (w : io.World)
          → P d (x ∷ ws)
          → P (record d { world = w }) ws)
      → ((d : Disk io session_id) (ws : List SegmentDraft) (w : io.World) (m : Option String)
          → P d ws
          → P (record d { world = w; waiting = ws; health = record d.health { indexing = m } }) ws)
      → (d : Disk io session_id) (ws : List SegmentDraft) → P d ws
      → P (index_waiting io session_id d ws) (index_waiting io session_id d ws).waiting
  unfolding index_waiting
  index_waiting_rule P keeps drops ends d [] h = ends d [] d.world none h
  index_waiting_rule P keeps drops ends d (x ∷ ws) h =
      go (io.insert_row d.world x).0 refl (λ d' h'. index_waiting_rule P keeps drops ends d' ws h')
    where
      go :
          (answer : Insert)
          → (io.insert_row d.world x).0 ≡ answer
          → ((d' : Disk io session_id)
              → P d' ws
              → P (index_waiting io session_id d' ws) (index_waiting io session_id d' ws).waiting)
          → P
              (index_waiting io session_id d (x ∷ ws))
              (index_waiting io session_id d (x ∷ ws)).waiting
      go stored e rest = rw (e, index_waiting) (rest _ (keeps d x ws _ h))
      go constraint_violation e rest = rw (e, index_waiting) (rest _ (drops d x ws _ h))
      go (insert_failed m) e rest = rw (e, index_waiting) (ends d (x ∷ ws) _ (some m) h)

  -- What `close_writer` may leave: the queue as it was, or with the segment's draft behind it.
  pub close_writer_rule :
      (P : Disk io session_id → Type ℓ) (d : Disk io session_id) (o : Option SegmentWriter)
      → ((w : io.World) → P (record d { writer = none; world = w }))
      → ((w : io.World) (m : String)
          → P (record d {
            writer = none;
            world = w;
            health = record d.health { writing = some m };
          }))
      → ((w : io.World) (s : SegmentWriter)
          → o ≡ some s
          → (s.byte_len == 0) ≡ false
          → P (record d {
            writer = none;
            world = w;
            waiting = enqueue io session_id d.waiting (draft_of s);
          }))
      → P (close_writer io session_id d o)
  unfolding close_writer
  close_writer_rule P d none plain lost queued = plain d.world
  close_writer_rule P d (some s) plain lost queued =
      go (io.flush d.world).0 (s.byte_len == 0) (io.file_deleted (io.flush d.world).1) refl refl
        refl
    where
      go :
          (flushed : Attempt) (empty deleted : Bool)
          → (io.flush d.world).0 ≡ flushed
          → (s.byte_len == 0) ≡ empty
          → io.file_deleted (io.flush d.world).1 ≡ deleted
          → P (close_writer io session_id d (some s))
      go (failed m) empty deleted e f g = rw e (lost _ m)
      go done true deleted e f g = rw (e, f) (plain _)
      go done false true e f g = rw (e, f, g) (lost _ _)
      go done false false e f g = rw (e, f, g) (queued _ s refl f)

  -- The frame is written, or it is not and the writer is closed.
  pub append_frame_rule :
      (P : Disk io session_id → Type ℓ) (d : Disk io session_id) (s : SegmentWriter)
      (frame : AudioFrame)
      → ((w : io.World)
          → P (record d {
            writer = some (appended s frame);
            world = w;
            health = record (frame_written d.health) { writing = none };
          }))
      → ((w : io.World) (m : String)
          → P (
              close_segment io session_id (record d {
                writer = some s;
                world = w;
                health = record (frame_not_written d.health) { writing = some m };
              })))
      → P (append_frame io session_id d (some s) frame)
  unfolding append_frame
  append_frame_rule P d s frame written lost = go (io.write_all d.world (bytes frame)).0 refl
    where
      go :
          (a : Attempt)
          → (io.write_all d.world (bytes frame)).0 ≡ a
          → P (append_frame io session_id d (some s) frame)
      go done e = simp (e, append_frame) (written _)
      go (failed m) e = simp (e, append_frame) (lost _ m)

  -- A file is opened for the frame, or the frame is lost.
  pub ensure_open_rule :
      (P : Disk io session_id → Type ℓ) (d : Disk io session_id) (frame : AudioFrame)
      → ((w : io.World)
          → P (
              append_frame io session_id
                (record d {
                  writer = some (opened session_id d.sequence frame);
                  world = w;
                  sequence = d.sequence + 1;
                })
                (some (opened session_id d.sequence frame))
                frame))
      → ((w : io.World) (m : String)
          → P (record d {
            world = w;
            health = record (frame_not_written d.health) { writing = some m };
          }))
      → P (ensure_open io session_id d none frame)
  unfolding ensure_open
  ensure_open_rule P d frame made lost = go (io.create_file d.world session_id d.sequence).0 refl
    where
      go :
          (a : Attempt)
          → (io.create_file d.world session_id d.sequence).0 ≡ a
          → P (ensure_open io session_id d none frame)
      go done e = rw e (made _)
      go (failed m) e = rw e (lost _ m)
