-- ===== src/Tests/Services.antt =====
-- Sign in, playback and the listener list of backend/src/services on concrete values.
use on_air_record.Base.{if◌then◌else◌, ◌+◌, ◌≤◌, ◌<◌, ◌≡◌, refl, none, List, [], ◌∷◌, arith}
use on_air_record.Models.Segment.{Segment}
use on_air_record.Tests.Models.{second_row}
use on_air_record.Base.Int.{pos, ◌+ℤ◌}
use on_air_record.Base.Maps.{Map, lookup}
use on_air_record.Services.Auth.Challenges.{Challenge}
use on_air_record.Services.Auth.Challenges.CodeLimit.{
  wrong_codes, codes_against, after_codes, wrong_codes-lookup,
}
use on_air_record.Services.Auth.Throttle.{
  LoginThrottle, Event, failure, success, check, run, allowed, max_failures,
}
use on_air_record.Services.Auth.Throttle.Lockout.{failures_of, run-lockout, IsRefusal}
use on_air_record.Services.Playback.{ok}
use on_air_record.Services.Retention.{
  Surroundings, refused, not_found, is_past, is_expired, sweep_pages, no_sweep, find_expired_after,
  sweep_page, sweep_segment, delete_row, count_deleted, delete,
}
use on_air_record.Services.Retention.Pages.{Ordered, Apart, is_stuck}
use on_air_record.Services.Retention.Pass.Sweeps.{Ends}
use on_air_record.Services.Retention.Complete.{
  expired_rows, young_rows, sweep_pages-Ends, sweep_pages-leaves_stuck,
}
use on_air_record.Base.{true, false, All, ◌⊎◌, ◌==◌}
use on_air_record.Base.Filter.{filter}
use on_air_record.Services.Listeners.{new, step, drops}
use on_air_record.Services.Listeners.Wake.{Woken, step-Woken}

abbrev one_failure : LoginThrottle
one_failure = (7, record { failures = 1; window_started_ms = pos 1000 }) ∷ []

abbrev attack : List Event
attack =
    failure 7 (pos 2000)
    ∷ failure 8 (pos 2500)
    ∷ failure 7 (pos 3000)
    ∷ success 8
    ∷ failure 7 (pos 4000)
    ∷ failure 7 (pos 5000)
    ∷ []

run-lockout_example :
    (1 + failures_of 7 attack < max_failures
      → check (run one_failure attack) 7 (pos 9000) ≡ allowed)
    × (max_failures ≤ 1 + failures_of 7 attack
        → IsRefusal (check (run one_failure attack) 7 (pos 9000)))
unfolding lookup ◌+ℤ◌
run-lockout_example =
    run-lockout one_failure 7 (record { failures = 1; window_started_ms = pos 1000 }) attack
      (pos 9000) refl
      (omega arith, (omega arith, (omega arith, (ground arith, (omega arith, (omega arith, tt))))))
      (omega arith) (omega arith)

step-Woken_example : Woken new (step new (drops 3))
step-Woken_example = step-Woken new (drops 3)

-- One wrong code so far.
abbrev pub pending : Challenge
pending = record { user_id = 1; expires_at_ms = pos 300000; attempts = 1 }

abbrev two_sign_ins : Map Challenge
two_sign_ins = (11, pending) ∷ (12, pending) ∷ []

wrong_codes-lookup_example :
    lookup (wrong_codes two_sign_ins (11 ∷ 12 ∷ 11 ∷ 11 ∷ 11 ∷ 11 ∷ [])) 11
    ≡ after_codes pending (codes_against 11 (11 ∷ 12 ∷ 11 ∷ 11 ∷ 11 ∷ 11 ∷ []))
unfolding lookup
wrong_codes-lookup_example =
    wrong_codes-lookup two_sign_ins 11 pending (11 ∷ 12 ∷ 11 ∷ 11 ∷ 11 ∷ 11 ∷ []) refl (omega arith)

-- Three rows of a second each: the first file is gone, the second cannot be deleted, the third is new.
abbrev gone_row : Segment
gone_row = record second_row { id = 4; ended_at_ms = pos 2000 }

abbrev stuck_row : Segment
stuck_row = record second_row { id = 5; ended_at_ms = pos 3000 }

abbrev janitor : Surroundings
janitor = record {
  remove_file = λ s. if s.id == 5 then refused "read only" else not_found;
  query_fails = λ after. none;
  delete_fails = λ s. none;
  delete_empty = ok 1;
  delete_before = λ cutoff_ms. ok 0;
}

abbrev index : List Segment
index = gone_row ∷ stuck_row ∷ second_row ∷ []

index-Ordered : Ordered index
unfolding Ordered Apart is_past
index-Ordered = (((refl, refl), ((refl, refl), tt)), (((refl, refl), tt), (tt, tt)))

sweep_pages-Ends_example :
    Ends janitor
      (pos 4000)
      (expired_rows (pos 4000) index)
      (young_rows (pos 4000) index)
      (sweep_pages janitor (pos 4000) 4 (no_sweep index))
sweep_pages-Ends_example = sweep_pages-Ends janitor (pos 4000) index index-Ordered

sweep_pages-leaves_stuck_example :
    All
      (λ s. (is_stuck janitor s ≡ true) ⊎ (is_expired (pos 4000) s ≡ false))
      (sweep_pages janitor (pos 4000) 4 (no_sweep index)).0.rows
unfolding sweep_pages find_expired_after filter is_past sweep_page sweep_segment delete_row
    count_deleted delete
sweep_pages-leaves_stuck_example =
    sweep_pages-leaves_stuck janitor (pos 4000) index index-Ordered refl (omega arith)
