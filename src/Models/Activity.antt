-- ===== src/Models/Activity.antt =====
-- What the activity log records, and the groups that its filter offers: backend/src/models/activity.rs.
pub mod Tally
pub mod Filter
use Prim.Native.String.{String}
use text.Mathlib.Text
use on_air_record.Base.{Option, none, some, List, [], ◌∷◌, map, Bool, true, false, if◌then◌else◌}
use on_air_record.Base.Int.{ℤ}

pub data Role : Type 0 where
  admin listener : Role

pub data SignInMethod : Type 0 where
  password code recovery_code : SignInMethod

-- The fields of a listening session's event.
pub record Listened : Type 0 where
  pub started_at_ms : ℤ
  pub connected_ms : ℤ
  pub played_ms : ℤ
  pub played_back : Bool
  pub earliest_ms : Option ℤ

-- A setting's value is JSON, which the log only stores.
module _ (Value : Type 0) where
  pub data ActivityEvent : Type 0 where
    signed_in : SignInMethod → ActivityEvent
    sign_in_failed : Option String → ActivityEvent
    second_factor_failed : ActivityEvent
    sign_in_blocked : Option String → ActivityEvent
    signed_out : ActivityEvent
    accounts_set_up : ActivityEvent
    stayed_open : ActivityEvent
    password_changed : ActivityEvent
    two_factor_enabled : ActivityEvent
    two_factor_disabled : ActivityEvent
    recovery_codes_replaced : ActivityEvent
    account_created : String → Role → ActivityEvent
    account_removed : String → ActivityEvent
    role_changed : String → Role → Role → ActivityEvent
    password_set : String → ActivityEvent
    two_factor_removed : String → ActivityEvent
    accounts_disabled : ActivityEvent
    listened : Listened → ActivityEvent
    exported : ℤ → ℤ → ActivityEvent
    capture_started : ActivityEvent
    capture_stopped : ActivityEvent
    device_selected : Option String → ActivityEvent
    settings_changed : List (String × Value × Value) → ActivityEvent
    settings_reset : ActivityEvent
    bookmark_added : String → ℤ → ActivityEvent
    bookmark_removed : String → ActivityEvent
    metrics_token_created : Bool → ActivityEvent
    metrics_token_revoked : ActivityEvent

pub data ActivityGroup : Type 0 where
  access accounts listening recorder : ActivityGroup

unfoldable pub kinds_table : List (String × ActivityGroup)
kinds_table =
    ("signed_in", access)
    ∷ ("sign_in_failed", access)
    ∷ ("second_factor_failed", access)
    ∷ ("sign_in_blocked", access)
    ∷ ("signed_out", access)
    ∷ ("accounts_set_up", accounts)
    ∷ ("stayed_open", accounts)
    ∷ ("password_changed", accounts)
    ∷ ("two_factor_enabled", accounts)
    ∷ ("two_factor_disabled", accounts)
    ∷ ("recovery_codes_replaced", accounts)
    ∷ ("account_created", accounts)
    ∷ ("account_removed", accounts)
    ∷ ("role_changed", accounts)
    ∷ ("password_set", accounts)
    ∷ ("two_factor_removed", accounts)
    ∷ ("accounts_disabled", accounts)
    ∷ ("listened", listening)
    ∷ ("exported", listening)
    ∷ ("capture_started", recorder)
    ∷ ("capture_stopped", recorder)
    ∷ ("device_selected", recorder)
    ∷ ("settings_changed", recorder)
    ∷ ("settings_reset", recorder)
    ∷ ("bookmark_added", recorder)
    ∷ ("bookmark_removed", recorder)
    ∷ ("metrics_token_created", recorder)
    ∷ ("metrics_token_revoked", recorder)
    ∷ []

unfoldable pub parse : String → Option ActivityGroup
parse text =
    if Text.◌==◌ text "access"
    then some access
    else if Text.◌==◌ text "accounts"
    then some accounts
    else if Text.◌==◌ text "listening"
    then some listening
    else if Text.◌==◌ text "recorder"
    then some recorder
    else none

unfoldable pub same_group : ActivityGroup → ActivityGroup → Bool
same_group access access = true
same_group accounts accounts = true
same_group listening listening = true
same_group recorder recorder = true
same_group _ _ = false

unfoldable pub kinds_among : List (String × ActivityGroup) → ActivityGroup → List String
unfolding same_group
kinds_among [] g = []
kinds_among ((kind, group) ∷ table) g =
    let rest = kinds_among table g in if same_group group g then kind ∷ rest else rest

unfoldable pub kinds : ActivityGroup → List String
unfolding kinds_among kinds_table
kinds g = kinds_among kinds_table g

unfoldable pub kind : {Value : Type 0} → ActivityEvent Value → String
kind (signed_in _) = "signed_in"
kind (sign_in_failed _) = "sign_in_failed"
kind second_factor_failed = "second_factor_failed"
kind (sign_in_blocked _) = "sign_in_blocked"
kind signed_out = "signed_out"
kind accounts_set_up = "accounts_set_up"
kind stayed_open = "stayed_open"
kind password_changed = "password_changed"
kind two_factor_enabled = "two_factor_enabled"
kind two_factor_disabled = "two_factor_disabled"
kind recovery_codes_replaced = "recovery_codes_replaced"
kind (account_created _ _) = "account_created"
kind (account_removed _) = "account_removed"
kind (role_changed _ _ _) = "role_changed"
kind (password_set _) = "password_set"
kind (two_factor_removed _) = "two_factor_removed"
kind accounts_disabled = "accounts_disabled"
kind (listened _) = "listened"
kind (exported _ _) = "exported"
kind capture_started = "capture_started"
kind capture_stopped = "capture_stopped"
kind (device_selected _) = "device_selected"
kind (settings_changed _) = "settings_changed"
kind settings_reset = "settings_reset"
kind (bookmark_added _ _) = "bookmark_added"
kind (bookmark_removed _) = "bookmark_removed"
kind (metrics_token_created _) = "metrics_token_created"
kind metrics_token_revoked = "metrics_token_revoked"

unfoldable pub find_group : List (String × ActivityGroup) → String → Option ActivityGroup
find_group [] kind = none
find_group ((name, group) ∷ table) kind =
    let rest = find_group table kind in if Text.◌==◌ name kind then some group else rest

abbrev pub or_recorder : Option ActivityGroup → ActivityGroup
or_recorder none = recorder
or_recorder (some g) = g

unfoldable pub group : {Value : Type 0} → ActivityEvent Value → ActivityGroup
unfolding kind find_group kinds_table
group e = or_recorder (find_group kinds_table (kind e))
