-- ===== src/Models/Activity/Filter.antt =====
-- The filter of the activity log and the group of each event (backend/src/models/activity.rs).
use Prim.Native.String.{String}
use text.Mathlib.Text
use on_air_record.Base.{◌≡◌, refl, Bool, false, List, [], ◌∷◌, ◌||◌}
use on_air_record.Models.Activity.{
  ActivityEvent, signed_in, sign_in_failed, second_factor_failed, sign_in_blocked, signed_out,
  accounts_set_up, stayed_open, password_changed, two_factor_enabled, two_factor_disabled,
  recovery_codes_replaced, account_created, account_removed, role_changed, password_set,
  two_factor_removed, accounts_disabled, listened, exported, capture_started, capture_stopped,
  device_selected, settings_changed, settings_reset, bookmark_added, bookmark_removed,
  metrics_token_created, metrics_token_revoked, ActivityGroup, access, accounts, listening,
  recorder, kinds, kinds_among, kinds_table, same_group, group, kind, find_group,
}

abbrev pub lists : List String → String → Bool
lists [] kind = false
lists (name ∷ names) kind = Text.◌==◌ name kind || lists names kind

by_group :
    (P : ActivityGroup → Type 0)
    → P access
    → P accounts
    → P listening
    → P recorder
    → (g : ActivityGroup) → P g
by_group P a b c d access = a
by_group P a b c d accounts = b
by_group P a b c d listening = c
by_group P a b c d recorder = d

-- The stored kinds that the filter for a group asks for include an event's kind exactly if the event
-- is of that group: each event is found under its own group and under no other.
pub kinds-group :
    {Value : Type 0} (e : ActivityEvent Value) (g : ActivityGroup)
    → lists (kinds g) (kind e) ≡ same_group (group e) g
unfolding kinds kinds_among kinds_table same_group group kind find_group
kinds-group (signed_in _) g =
    by_group (λ g. lists (kinds g) "signed_in" ≡ same_group access g) refl refl refl refl g
kinds-group (sign_in_failed _) g =
    by_group (λ g. lists (kinds g) "sign_in_failed" ≡ same_group access g) refl refl refl refl g
kinds-group second_factor_failed g =
    by_group (λ g. lists (kinds g) "second_factor_failed" ≡ same_group access g) refl refl refl refl
      g
kinds-group (sign_in_blocked _) g =
    by_group (λ g. lists (kinds g) "sign_in_blocked" ≡ same_group access g) refl refl refl refl g
kinds-group signed_out g =
    by_group (λ g. lists (kinds g) "signed_out" ≡ same_group access g) refl refl refl refl g
kinds-group accounts_set_up g =
    by_group (λ g. lists (kinds g) "accounts_set_up" ≡ same_group accounts g) refl refl refl refl g
kinds-group stayed_open g =
    by_group (λ g. lists (kinds g) "stayed_open" ≡ same_group accounts g) refl refl refl refl g
kinds-group password_changed g =
    by_group (λ g. lists (kinds g) "password_changed" ≡ same_group accounts g) refl refl refl refl g
kinds-group two_factor_enabled g =
    by_group (λ g. lists (kinds g) "two_factor_enabled" ≡ same_group accounts g) refl refl refl refl
      g
kinds-group two_factor_disabled g =
    by_group (λ g. lists (kinds g) "two_factor_disabled" ≡ same_group accounts g) refl refl refl
      refl g
kinds-group recovery_codes_replaced g =
    by_group (λ g. lists (kinds g) "recovery_codes_replaced" ≡ same_group accounts g) refl refl refl
      refl g
kinds-group (account_created _ _) g =
    by_group (λ g. lists (kinds g) "account_created" ≡ same_group accounts g) refl refl refl refl g
kinds-group (account_removed _) g =
    by_group (λ g. lists (kinds g) "account_removed" ≡ same_group accounts g) refl refl refl refl g
kinds-group (role_changed _ _ _) g =
    by_group (λ g. lists (kinds g) "role_changed" ≡ same_group accounts g) refl refl refl refl g
kinds-group (password_set _) g =
    by_group (λ g. lists (kinds g) "password_set" ≡ same_group accounts g) refl refl refl refl g
kinds-group (two_factor_removed _) g =
    by_group (λ g. lists (kinds g) "two_factor_removed" ≡ same_group accounts g) refl refl refl refl
      g
kinds-group accounts_disabled g =
    by_group (λ g. lists (kinds g) "accounts_disabled" ≡ same_group accounts g) refl refl refl refl
      g
kinds-group (listened _) g =
    by_group (λ g. lists (kinds g) "listened" ≡ same_group listening g) refl refl refl refl g
kinds-group (exported _ _) g =
    by_group (λ g. lists (kinds g) "exported" ≡ same_group listening g) refl refl refl refl g
kinds-group capture_started g =
    by_group (λ g. lists (kinds g) "capture_started" ≡ same_group recorder g) refl refl refl refl g
kinds-group capture_stopped g =
    by_group (λ g. lists (kinds g) "capture_stopped" ≡ same_group recorder g) refl refl refl refl g
kinds-group (device_selected _) g =
    by_group (λ g. lists (kinds g) "device_selected" ≡ same_group recorder g) refl refl refl refl g
kinds-group (settings_changed _) g =
    by_group (λ g. lists (kinds g) "settings_changed" ≡ same_group recorder g) refl refl refl refl g
kinds-group settings_reset g =
    by_group (λ g. lists (kinds g) "settings_reset" ≡ same_group recorder g) refl refl refl refl g
kinds-group (bookmark_added _ _) g =
    by_group (λ g. lists (kinds g) "bookmark_added" ≡ same_group recorder g) refl refl refl refl g
kinds-group (bookmark_removed _) g =
    by_group (λ g. lists (kinds g) "bookmark_removed" ≡ same_group recorder g) refl refl refl refl g
kinds-group (metrics_token_created _) g =
    by_group (λ g. lists (kinds g) "metrics_token_created" ≡ same_group recorder g) refl refl refl
      refl g
kinds-group metrics_token_revoked g =
    by_group (λ g. lists (kinds g) "metrics_token_revoked" ≡ same_group recorder g) refl refl refl
      refl g
