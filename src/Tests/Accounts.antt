-- ===== src/Tests/Accounts.antt =====
-- Accounts: setting up, adding, demoting and removing, with concrete hashes.
use Prim.Native.String.{String}
use text.Mathlib.Text.{◌==◌ as ◌==text◌}
use on_air_record.Base.{true, false, ◌≢◌, ◌⊎◌, ◌≡◌, ℕ, none, some, List, [], ◌∷◌, if◌then◌else◌}
use on_air_record.Base.Int.{pos}
use on_air_record.Error.{Result, success_of, database}
use on_air_record.Models.Access.{undecided}
use on_air_record.Models.Activity.{admin, listener}
use on_air_record.Repositories.Accounts.{Store}
use on_air_record.Repositories.Accounts.Admins.{Rising}
use on_air_record.Repositories.Accounts.Guarded.{Guarded}
use on_air_record.Services.Auth.Accounts.{Faults, change_own_password, set_password, log_out}
use on_air_record.Services.Auth.Accounts.SignedOut.{IfSome, OnSuccess, account_of, signed_out}
use on_air_record.Services.Auth.Accounts.Calls.{Call, sets_up, creates, gives_role, deletes, run}
use on_air_record.Services.Auth.Accounts.HasAdmin.{run-Guarded}
use on_air_record.Services.Auth.Accounts.SignsOut.{Ended, passwords-Ended}

abbrev fresh_install : Store
fresh_install = record {
  mode = undecided;
  users = [];
  last_user_id = 0;
  sessions = [];
  recovery_codes = [];
  metrics_token = none;
}

-- A hash that keeps the text.
abbrev plain_hash : String → Result String
plain_hash text = success_of text

abbrev token_hash : String → ℕ
token_hash text = if text ==text "t1" then 2 else 3

abbrev calm : Faults
calm = record { first = none; second = none }

abbrev family : List Call
family =
    sets_up "ann@home" "correct horse" "t1" (pos 10) calm
    ∷ creates "ben@home" "battery staple" listener (pos 20) calm
    ∷ gives_role 1 listener none
    ∷ gives_role 2 admin (some (database "disk I/O error"))
    ∷ deletes 1 none
    ∷ []

run-Guarded_example : Guarded (run ◌==text◌ plain_hash ◌==text◌ token_hash fresh_install family)
unfolding Rising
run-Guarded_example =
    run-Guarded ◌==text◌ plain_hash ◌==text◌ token_hash fresh_install family
      (record { rising = tt; below = tt; admin_left = λ on. absurd (cc on) })

abbrev at_home : Store
at_home = run ◌==text◌ plain_hash ◌==text◌ token_hash fresh_install family

passwords-Ended_example :
    Ended plain_hash at_home 1 "a longer phrase" calm (some (token_hash "t1")) (
      change_own_password ◌==text◌ plain_hash ◌==text◌ token_hash 1 "correct horse"
        "a longer phrase" "t1"
        (pos 30)
        calm
        at_home)
    × Ended plain_hash at_home 1 "a longer phrase" calm none (
        set_password ◌==text◌ plain_hash ◌==text◌ token_hash 1 "a longer phrase"
          (pos 30)
          calm
          at_home)
passwords-Ended_example =
    passwords-Ended ◌==text◌ plain_hash ◌==text◌ token_hash at_home 1 "correct horse"
      "a longer phrase" "t1" (pos 30) calm

-- Ann's browser, after she changed her password with another one, and after an admin set it.
signed_out_example :
    OnSuccess
      (λ t.
        IfSome
          (λ u. (u.id ≢ 1) ⊎ (some (token_hash "t9") ≡ some (token_hash "t1")))
          (account_of ◌==text◌ plain_hash ◌==text◌ token_hash "t9" (pos 50) none t))
      (change_own_password ◌==text◌ plain_hash ◌==text◌ token_hash 1 "correct horse"
        "a longer phrase" "t1"
        (pos 30)
        calm
        at_home)
    × OnSuccess
        (λ t.
          IfSome
            (λ u. (u.id ≢ 1) ⊎ (some (token_hash "t9") ≡ none))
            (account_of ◌==text◌ plain_hash ◌==text◌ token_hash "t9" (pos 50) none t))
        (set_password ◌==text◌ plain_hash ◌==text◌ token_hash 1 "a longer phrase"
          (pos 30)
          calm
          at_home)
    × OnSuccess
        (λ t.
          IfSome
            (λ _. false ≡ true)
            (account_of ◌==text◌ plain_hash ◌==text◌ token_hash "t1" (pos 50) none t))
        (log_out ◌==text◌ plain_hash ◌==text◌ token_hash "t1" none at_home)
signed_out_example =
    signed_out ◌==text◌ plain_hash ◌==text◌ token_hash at_home 1 "correct horse" "a longer phrase"
      "t1" "t9" (pos 30) (pos 50) calm none none
