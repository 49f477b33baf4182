-- ===== src/Services/Auth/Throttle.antt =====
-- LoginThrottle of backend/src/services/auth_service.rs: failed logins per client address. An address
-- is the number it is written as; the lock is never poisoned.
pub mod Lockout
use on_air_record.Base.{
  ℕ, ◌+◌, ◌/◌, ◌≤◌, ◌≡◌, max, ltb, leb, ◌==◌, if◌then◌else◌, Bool, true, false, ◌&&◌, Option, none,
  some, List, [], ◌∷◌, length,
}
use on_air_record.Base.Int.{ℤ, pos, ◌-ℤ◌, ◌<ℤ◌, ltb_ℤ, pos_part}
use on_air_record.Base.Maps.{Map, lookup, insert, remove, retain}

abbrev pub max_failures : ℕ
max_failures = 5

abbrev pub failure_window_ms : ℕ
failure_window_ms = 900000

abbrev pub IpAddr : Type 0
IpAddr = ℕ

pub record Attempts : Type 0 where
  pub failures : ℕ  -- u32
  pub window_started_ms : ℤ

abbrev pub LoginThrottle : Type 0
LoginThrottle = Map Attempts

-- `Ok(())`, or the refusal with the minutes that it tells the client to wait.
pub data Check : Type 0 where
  allowed : Check
  too_many_requests : ℕ → Check

abbrev pub within_window : ℤ → Attempts → Bool
within_window now entry = ltb_ℤ (now -ℤ entry.window_started_ms) (pos failure_window_ms)

-- The difference is positive here, so its quotient is that of a natural number.
unfoldable pub check_entry : Option Attempts → ℤ → Check
check_entry none now = allowed
check_entry (some entry) now =
    if leb max_failures entry.failures && within_window now entry
    then too_many_requests
        (max (pos_part (pos failure_window_ms -ℤ (now -ℤ entry.window_started_ms)) / 60000) 1)
    else allowed

unfoldable pub check : LoginThrottle → IpAddr → ℤ → Check
check attempts client now = check_entry (lookup attempts client) now

abbrev pub fresh : ℤ → Attempts
fresh now = record { failures = 0; window_started_ms = now }

-- The entry after the failure, from the one that was there.
unfoldable pub failed_again : Option Attempts → ℤ → Attempts
failed_again none now = record { failures = 1; window_started_ms = now }
failed_again (some entry) now =
    let current = if within_window now entry then entry else fresh now in
    record current { failures = current.failures + 1 }

unfoldable pub record_failure : LoginThrottle → IpAddr → ℤ → LoginThrottle
unfolding failed_again
record_failure attempts client now =
    let kept =
      if ltb 1000 (length attempts) then retain (within_window now) attempts else attempts in
    insert kept client (failed_again (lookup kept client) now)

unfoldable pub record_success : LoginThrottle → IpAddr → LoginThrottle
record_success attempts client = remove attempts client

pub data Event : Type 0 where
  failure : IpAddr → ℤ → Event
  success : IpAddr → Event

unfoldable pub step : LoginThrottle → Event → LoginThrottle
unfolding record_failure record_success
step attempts (failure client now) = record_failure attempts client now
step attempts (success client) = record_success attempts client

unfoldable pub run : LoginThrottle → List Event → LoginThrottle
run attempts [] = attempts
run attempts (e ∷ events) = run (step attempts e) events
