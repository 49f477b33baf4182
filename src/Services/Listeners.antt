-- ===== src/Services/Listeners.antt =====
-- backend/src/services/listener_registry.rs: every open audio stream. The locks are never poisoned;
-- dropping a handle is `remove`; the clock's reading is an argument of `register`.
pub mod Wake
use Prim.Native.String.{String}
use on_air_record.Base.{
  ℕ, ◌+◌, ◌%◌, ◌^◌, Bool, true, false, ◌&&◌, not, Option, none, some, List, [], ◌∷◌, length,
  if◌then◌else◌,
}
use on_air_record.Base.Int.{ℤ, ◌==ℤ◌}
use on_air_record.Base.Maps.{Map, lookup, insert, remove}
use on_air_record.Models.Activity.{Role}
use on_air_record.Models.Activity.Tally.{PlayerState, idle, playing, paused}

pub record ListenerAccount : Type 0 where
  pub email : String
  pub role : Role

pub data ListenerActivity : Type 0 where
  following : ListenerActivity  -- Live
  playback : ℤ → ListenerActivity
  halted : ListenerActivity  -- Paused

pub record ListenerEntry : Type 0 where
  pub id : ℕ
  pub account : Option ListenerAccount
  pub address : ℕ
  pub user_agent : Option String
  pub connected_at_ms : ℤ
  pub activity : ListenerActivity
  pub player : PlayerState

pub record ListenerRegistry : Type 0 where
  pub entries : Map ListenerEntry
  pub next_id : ℕ  -- u64
  pub version : ℕ  -- u64

abbrev pub new : ListenerRegistry
new = record { entries = []; next_id = 1; version = 0 }

unfoldable pub bump : ListenerRegistry → ListenerRegistry
bump r = record r { version = (r.version + 1) % 2 ^ 64 }

abbrev pub new_entry : ℕ → Option ListenerAccount → ℕ → Option String → ℤ → ListenerEntry
new_entry id account address user_agent now_ms = record {
  id = id;
  account = account;
  address = address;
  user_agent = user_agent;
  connected_at_ms = now_ms;
  activity = following;
  player = playing;
}

-- The handle is its number.
unfoldable pub register :
    ListenerRegistry → Option ListenerAccount → ℕ → Option String → ℤ → ListenerRegistry × ℕ
unfolding bump
register r account address user_agent now_ms =
    let id = r.next_id in
    let entry = new_entry id account address user_agent now_ms in
    (bump (record r { entries = insert r.entries id entry; next_id = r.next_id + 1 }), id)

unfoldable pub same_activity : ListenerActivity → ListenerActivity → Bool
same_activity following following = true
same_activity (playback from_ms) (playback other_ms) = from_ms ==ℤ other_ms
same_activity halted halted = true
same_activity _ _ = false

unfoldable pub same_player : PlayerState → PlayerState → Bool
same_player idle idle = true
same_player playing playing = true
same_player paused paused = true
same_player _ _ = false

abbrev pub differs : ListenerEntry → ListenerEntry → Bool
differs before after =
    not (same_activity before.activity after.activity && same_player before.player after.player)

unfoldable pub modify_entry :
    ListenerRegistry → ℕ → (ListenerEntry → ListenerEntry) → Option ListenerEntry → ListenerRegistry
unfolding bump same_activity same_player
modify_entry r id change none = r
modify_entry r id change (some entry) =
    let changed = record r { entries = insert r.entries id (change entry) } in
    if differs entry (change entry) then bump changed else changed

unfoldable pub modify : ListenerRegistry → ℕ → (ListenerEntry → ListenerEntry) → ListenerRegistry
modify r id change = modify_entry r id change (lookup r.entries id)

unfoldable pub set_activity : ListenerRegistry → ℕ → ListenerActivity → ListenerRegistry
set_activity r id activity = modify r id (λ entry. record entry { activity = activity })

unfoldable pub set_player : ListenerRegistry → ℕ → PlayerState → ListenerRegistry
set_player r id player = modify r id (λ entry. record entry { player = player })

unfoldable pub remove_entry : ListenerRegistry → ℕ → Option ListenerEntry → ListenerRegistry
remove_entry r id none = r
remove_entry r id (some entry) = bump (record r { entries = remove r.entries id })

-- `remove`, when the handle is dropped.
unfoldable pub drop_handle : ListenerRegistry → ℕ → ListenerRegistry
drop_handle r id = remove_entry r id (lookup r.entries id)

pub data Call : Type 0 where
  registers : Option ListenerAccount → ℕ → Option String → ℤ → Call
  sets_activity : ℕ → ListenerActivity → Call
  sets_player : ℕ → PlayerState → Call
  drops : ℕ → Call

unfoldable pub step : ListenerRegistry → Call → ListenerRegistry
step r (registers account address user_agent now_ms) =
    (register r account address user_agent now_ms).0
step r (sets_activity id activity) = set_activity r id activity
step r (sets_player id player) = set_player r id player
step r (drops id) = drop_handle r id
