-- ===== src/Services/Recorder/Live.antt =====
-- The thread that keeps pace with capture: `run`. What the channels answer is part of each event.
use Prim.Native.String.{String}
use on_air_record.Base.{
  ◌+◌, ◌≡◌, refl, sym, ◌∙◌, ap, ◌⊎◌, inl, inr, Bool, true, false, List, [], ◌∷◌, ◌++◌, append-nil,
  append_assoc, length, arith, if◌then◌else◌,
}
use on_air_record.Models.AudioFrame.{AudioFrame}
use on_air_record.Services.Hub.{BroadcastHub, publish}
use on_air_record.Services.Recorder.Health.{
  RecorderHealth, frame_not_written, report_failure, report_recovery, is_some,
}

-- What `try_send` to the disk thread answered.
pub data Send : Type 0 where
  sent full disconnected : Send

-- What `recv_timeout` answered; a timeout comes with the stop flag as it was then.
pub data Received : Type 0 where
  frame : AudioFrame → Send → Received
  timeout : Bool → Received
  gone : Received

pub record Live : Type 0 where
  pub hub : BroadcastHub
  pub health : RecorderHealth
  pub behind : Bool
  pub to_disk : List AudioFrame

abbrev pub behind_message : String
behind_message =
    "storage has not kept up for a minute, so frames are being left out of the recording"

-- After the frame went to the listeners.
unfoldable pub hand_over : Live → AudioFrame → Send → Live
hand_over s f sent =
    let queued = record s { to_disk = s.to_disk ++ f ∷ [] } in
    if s.behind
    then record queued { behind = false; health = record s.health { overflow = report_recovery } }
    else queued
hand_over s f full =
    let lost = frame_not_written s.health in
    if s.behind then record s { health = lost } else record s {
      behind = true;
      health = record lost { overflow = report_failure behind_message };
    }
hand_over s f disconnected = record s {
  health = record (frame_not_written s.health) {
    writing = report_failure "the recorder's disk thread stopped";
  };
}

unfoldable pub take_frame : Live → AudioFrame → Send → Live
unfolding hand_over
take_frame s f answer = hand_over (record s { hub = publish s.hub f }) f answer

-- The loop ends at a timeout once told to stop, and when the capture stream is gone.
unfoldable pub run : Live → List Received → Live
run s [] = s
run s (frame f answer ∷ events) = run (take_frame s f answer) events
run s (timeout false ∷ events) = run s events
run s (timeout true ∷ events) = s
run s (gone ∷ events) = s

-- The frames that the loop receives before it ends.
abbrev pub received : List Received → List AudioFrame
received [] = []
received (frame f answer ∷ events) = f ∷ received events
received (timeout false ∷ events) = received events
received (timeout true ∷ events) = []
received (gone ∷ events) = []

-- Behind, and saying so.
abbrev pub IsHonest : Live → Type 0
IsHonest s = is_some s.health.overflow ≡ s.behind

take_frame-IsHonest :
    (s : Live) (f : AudioFrame) (answer : Send) → IsHonest s → IsHonest (take_frame s f answer)
unfolding take_frame
take_frame-IsHonest s f sent h = ground arith
take_frame-IsHonest s f _ h = ground arith

-- If the status page speaks of an overflow exactly when the loop counts the disk thread as behind,
-- then it still does after any events.
pub run-IsHonest : (s : Live) (events : List Received) → IsHonest s → IsHonest (run s events)
unfolding run
run-IsHonest s [] h = h
run-IsHonest s (frame f answer ∷ events) h =
    run-IsHonest (take_frame s f answer) events (take_frame-IsHonest s f answer h)
run-IsHonest s (timeout false ∷ events) h = run-IsHonest s events h
run-IsHonest s (timeout true ∷ events) h = h
run-IsHonest s (gone ∷ events) h = h

-- The first list with some elements left out.
pub data Subsequence : List AudioFrame → List AudioFrame → Type 0 where
  stop : Subsequence [] []
  keep :
      {f : AudioFrame} {xs ys : List AudioFrame} → Subsequence xs ys → Subsequence (f ∷ xs) (f ∷ ys)
  skip : {f : AudioFrame} {xs ys : List AudioFrame} → Subsequence xs ys → Subsequence xs (f ∷ ys)

-- What the loop did to the state it began with.
pub record Accounts (s : Live) (frames : List AudioFrame) (t : Live) : Type 0 where
  pub queued : List AudioFrame
  pub broadcast : t.hub.sent ≡ s.hub.sent ++ frames
  pub published : t.hub.frames_published ≡ s.hub.frames_published + length frames
  pub to_disk : t.to_disk ≡ s.to_disk ++ queued
  pub in_order : Subsequence queued frames
  pub lost :
      t.health.frames_not_written + length queued ≡ s.health.frames_not_written + length frames
  pub written : t.health.frames_written ≡ s.health.frames_written

run_nothing : (s : Live) → Accounts s [] s
run_nothing s = record {
  queued = [];
  broadcast = sym (append-nil s.hub.sent);
  published = omega arith;
  to_disk = sym (append-nil s.to_disk);
  in_order = stop;
  lost = refl;
  written = refl;
}

take_frame-cases :
    (s : Live) (f : AudioFrame) (answer : Send)
    → let t = take_frame s f answer in
      (t.hub ≡ publish s.hub f)
      × (t.health.frames_written ≡ s.health.frames_written)
      × (((t.to_disk ≡ s.to_disk ++ f ∷ [])
            × (t.health.frames_not_written ≡ s.health.frames_not_written))
          ⊎ ((t.to_disk ≡ s.to_disk)
              × (t.health.frames_not_written ≡ s.health.frames_not_written + 1)))
unfolding take_frame
take_frame-cases s f sent = ground arith
take_frame-cases s f _ = ground arith

run-Accounts-step :
    (s t u : Live) (f : AudioFrame) (fs : List AudioFrame)
    → t.hub ≡ publish s.hub f
    → t.health.frames_written ≡ s.health.frames_written
    → ((t.to_disk ≡ s.to_disk ++ f ∷ [])
        × (t.health.frames_not_written ≡ s.health.frames_not_written))
      ⊎ ((t.to_disk ≡ s.to_disk) × (t.health.frames_not_written ≡ s.health.frames_not_written + 1))
    → Accounts t fs u
    → Accounts s (f ∷ fs) u
unfolding publish
run-Accounts-step s t u f fs hub written (inl (kept, same)) a = record {
  queued = f ∷ a.queued;
  broadcast = a.broadcast ∙ (rw hub (append_assoc s.hub.sent (f ∷ []) fs));
  published = omega (arith, a.published, ap (λ h. h.frames_published) hub);
  to_disk = a.to_disk ∙ (rw kept (append_assoc s.to_disk (f ∷ []) a.queued));
  in_order = keep a.in_order;
  lost = omega (arith, a.lost, same);
  written = a.written ∙ written;
}
run-Accounts-step s t u f fs hub written (inr (kept, more)) a = record {
  queued = a.queued;
  broadcast = a.broadcast ∙ (rw hub (append_assoc s.hub.sent (f ∷ []) fs));
  published = omega (arith, a.published, ap (λ h. h.frames_published) hub);
  to_disk = a.to_disk ∙ (rw kept);
  in_order = skip a.in_order;
  lost = omega (arith, a.lost, more);
  written = a.written ∙ written;
}

-- Whatever the channels answer, every frame that the loop receives is broadcast, in order; what goes
-- to the disk thread is those frames, in order, less the ones that are counted as not written.
pub run-Accounts : (s : Live) (events : List Received) → Accounts s (received events) (run s events)
unfolding run
run-Accounts s [] = run_nothing s
run-Accounts s (frame f answer ∷ events) =
    let t = take_frame s f answer in
    let (hub, written, split) = take_frame-cases s f answer in
    run-Accounts-step s t (run t events) f (received events) hub written split
      (run-Accounts t events)
run-Accounts s (timeout false ∷ events) = run-Accounts s events
run-Accounts s (timeout true ∷ events) = run_nothing s
run-Accounts s (gone ∷ events) = run_nothing s
