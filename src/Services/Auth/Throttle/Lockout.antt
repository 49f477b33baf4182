-- ===== src/Services/Auth/Throttle/Lockout.antt =====
-- The failures of one address among those of others, in backend/src/services/auth_service.rs.
use native.Mathlib.Nat.{add-zero, add_assoc}
use on_air_record.Base.{
  ℕ, ◌+◌, ◌≤◌, ◌<◌, ◌≡◌, ◌≢◌, refl, ◌∙◌, ap, ltb, le→leb, ◌==◌, if◌then◌else◌, Bool, true, false,
  some, List, [], ◌∷◌, All, length, arith, ℕ_discrete,
}
use on_air_record.Base.Int.{
  ℤ, pos, ◌+ℤ◌, ◌-ℤ◌, ◌<ℤ◌, ◌≤ℤ◌, lt→ltb_ℤ, int_laws, parts_zero, pos_part,
}
use on_air_record.Base.Maps.{
  same_key, other_key, lookup, retain, lookup-insert_self, lookup-insert_ne, lookup-remove_ne,
  lookup-retain,
}
use on_air_record.Services.Auth.Throttle.{
  IpAddr, Attempts, LoginThrottle, Event, failure, success, Check, allowed, too_many_requests,
  check, check_entry, failed_again, record_failure, record_success, step, run, within_window,
  max_failures, failure_window_ms,
}

-- The failures of one client.
abbrev pub failures_of : IpAddr → List Event → ℕ
failures_of client [] = 0
failures_of client (failure c now ∷ events) =
    let rest = failures_of client events in if c == client then 1 + rest else rest
failures_of client (success c ∷ events) = failures_of client events

-- Every failure, whoever's, comes before the window closes, and the client never logs in.
abbrev pub Before : IpAddr → ℤ → Event → Type 0
Before client opened (failure c now) = now <ℤ opened +ℤ pos failure_window_ms
Before client opened (success c) = c ≢ client

within-true :
    (now : ℤ) (entry : Attempts)
    → now <ℤ entry.window_started_ms +ℤ pos failure_window_ms
    → within_window now entry ≡ true
within-true now entry h =
    lt→ltb_ℤ (now -ℤ entry.window_started_ms) (pos failure_window_ms) (omega int_laws)

-- What a failure adds to, when an entry is there and its window is open.
kept_entries-lookup :
    (crowded : Bool) (attempts : LoginThrottle) (client : IpAddr) (entry : Attempts) (now : ℤ)
    → lookup attempts client ≡ some entry
    → within_window now entry ≡ true
    → lookup (if crowded then retain (within_window now) attempts else attempts) client ≡ some entry
kept_entries-lookup true attempts client entry now h b =
    lookup-retain (within_window now) attempts client entry h b
kept_entries-lookup false attempts client entry now h b = h

failed_again-open :
    (entry : Attempts) (now : ℤ)
    → within_window now entry ≡ true
    → failed_again (some entry) now ≡ record entry { failures = entry.failures + 1 }
unfolding failed_again
failed_again-open entry now b = rw b

step-counts :
    (attempts : LoginThrottle) (client : IpAddr) (entry : Attempts) (e : Event)
    → lookup attempts client ≡ some entry
    → Before client entry.window_started_ms e
    → lookup (step attempts e) client
      ≡ some (record entry { failures = entry.failures + failures_of client (e ∷ []) })
unfolding step record_failure record_success
step-counts attempts client entry (failure c now) h b =
    let in_time = within-true now entry b in
    let crowded = ltb 1000 (length attempts) in
    let kept = if crowded then retain (within_window now) attempts else attempts in
    let found = kept_entries-lookup crowded attempts client entry now h in_time in
    elim (ℕ_discrete c client) [
      | yes same ↦
          rw (same, same_key client)
            (lookup-insert_self kept client _
              ∙ ap (λ o. some (failed_again o now)) found
              ∙ ap some (failed_again-open entry now in_time))
      | no other ↦
          rw (other_key other, add-zero entry.failures)
            (lookup-insert_ne kept (failed_again (lookup kept c) now) other ∙ found)
    ]
step-counts attempts client entry (success c) h b =
    rw (add-zero entry.failures) (lookup-remove_ne attempts b ∙ h)

failures_of-cons :
    (client : IpAddr) (e : Event) (events : List Event)
    → failures_of client (e ∷ events) ≡ failures_of client (e ∷ []) + failures_of client events
failures_of-cons client e events = ground arith

run-counts :
    (attempts : LoginThrottle) (client : IpAddr) (entry : Attempts) (events : List Event)
    → lookup attempts client ≡ some entry
    → All (Before client entry.window_started_ms) events
    → lookup (run attempts events) client
      ≡ some (record entry { failures = entry.failures + failures_of client events })
unfolding run
run-counts attempts client entry [] h b = rw (add-zero entry.failures) h
run-counts attempts client entry (e ∷ events) h b =
    let one = failures_of client (e ∷ []) in
    let next = record entry { failures = entry.failures + one } in
    run-counts (step attempts e) client next events (step-counts attempts client entry e h b.0) b.1
    ∙ rw
        (failures_of-cons client e events, add_assoc entry.failures one (failures_of client events))
        refl

-- A refusal names at least one minute, and at most the window's fifteen.
abbrev pub IsRefusal : Check → Type 0
IsRefusal allowed = ⊥
IsRefusal (too_many_requests minutes) = (1 ≤ minutes) × (minutes ≤ 15)

check_entry-few :
    (entry : Attempts) (now : ℤ)
    → entry.failures < max_failures
    → check_entry (some entry) now ≡ allowed
unfolding check_entry
check_entry-few entry now few = ground arith

check_entry-many :
    (entry : Attempts) (now : ℤ)
    → max_failures ≤ entry.failures
    → entry.window_started_ms ≤ℤ now
    → now <ℤ entry.window_started_ms +ℤ pos failure_window_ms
    → IsRefusal (check_entry (some entry) now)
unfolding check_entry
check_entry-many entry now many started h =
    let left = pos failure_window_ms -ℤ (now -ℤ entry.window_started_ms) in
    let most : pos_part left ≤ failure_window_ms = omega (int_laws, parts_zero left) in
    rw (le→leb max_failures entry.failures many, within-true now entry h)
      (omega arith, omega (arith, most))

-- While the window of an address with an entry is open, and it does not log in, its failures add up
-- exactly, whatever other addresses do and however full the table is: it is let through below five
-- failures, and refused from five on, with a wait of one to fifteen minutes.
pub run-lockout :
    (attempts : LoginThrottle) (client : IpAddr) (entry : Attempts) (events : List Event) (now : ℤ)
    → lookup attempts client ≡ some entry
    → All (Before client entry.window_started_ms) events
    → entry.window_started_ms ≤ℤ now
    → now <ℤ entry.window_started_ms +ℤ pos failure_window_ms
    → let total = entry.failures + failures_of client events in
      let answer = check (run attempts events) client now in
      (total < max_failures → answer ≡ allowed) × (max_failures ≤ total → IsRefusal answer)
unfolding check
run-lockout attempts client entry events now h b started in_time =
    let later = record entry { failures = entry.failures + failures_of client events } in
    rw (run-counts attempts client entry events h b)
      (check_entry-few later now, λ many. check_entry-many later now many started in_time)
