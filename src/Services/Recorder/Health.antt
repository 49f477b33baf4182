-- ===== src/Services/Recorder/Health.antt =====
-- RecorderHealth and its slots. A slot is a string behind a lock; a poisoned lock is read as if it
-- were not, so the lock has no part in the model. Log lines are left out.
use Prim.Native.String.{String}
use on_air_record.Base.{ℕ, ◌+◌, Bool, Option, none, some}

pub record RecorderHealth : Type 0 where
  pub frames_written : ℕ  -- u64
  pub frames_not_written : ℕ  -- u64
  pub writing : Option String
  pub indexing : Option String
  pub overflow : Option String

pub record RecorderReport : Type 0 where
  pub frames_written : ℕ
  pub frames_not_written : ℕ
  pub problem : Bool

-- The first of three slots that holds a message, in the source's order. The sentence that the
-- source puts in front of it is left out.
unfoldable pub problem : RecorderHealth → Option String
problem h = elim h.overflow [
  | some message ↦ some message
  | none ↦ elim h.writing [ some message ↦ some message | none ↦ h.indexing ]
]

abbrev pub is_some : Option String → Bool
is_some none = Bool.false
is_some (some _) = Bool.true

unfoldable pub report : RecorderHealth → RecorderReport
unfolding problem
report h = record {
  frames_written = h.frames_written;
  frames_not_written = h.frames_not_written;
  problem = is_some (problem h);
}

unfoldable pub reset : RecorderHealth → RecorderHealth
reset h = record {
  frames_written = 0;
  frames_not_written = 0;
  writing = none;
  indexing = none;
  overflow = none;
}

abbrev pub frame_written : RecorderHealth → RecorderHealth
frame_written h = record h { frames_written = h.frames_written + 1 }

abbrev pub frame_not_written : RecorderHealth → RecorderHealth
frame_not_written h = record h { frames_not_written = h.frames_not_written + 1 }

-- What `report_failure` and `report_recovery` leave in a slot.
abbrev pub report_failure : String → Option String
report_failure message = some message

abbrev pub report_recovery : Option String
report_recovery = none

-- `RecorderHealth::default`
abbrev pub fresh_health : RecorderHealth
fresh_health = record {
  frames_written = 0;
  frames_not_written = 0;
  writing = none;
  indexing = none;
  overflow = none;
}
