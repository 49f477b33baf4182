-- ===== src/Services/Hub.antt =====
-- backend/src/services/broadcast_hub.rs: the live edge, the count and what was sent. The level
-- readings are f32 and are left out; nobody waits for a listener, so a send has no outcome here.
use on_air_record.Base.{ℕ, ◌+◌, Option, none, some, List, [], ◌∷◌, ◌++◌}
use on_air_record.Base.Int.{ℤ, pos, negsuc}
use on_air_record.Models.AudioFrame.{AudioFrame, end_timestamp_ms}
use Prim.Native.Nat.{zero, suc}

pub record BroadcastHub : Type 0 where
  pub live_edge : ℤ
  pub frames_published : ℕ
  pub sent : List AudioFrame

abbrev pub empty : BroadcastHub
empty = record { live_edge = pos 0; frames_published = 0; sent = [] }

unfoldable pub publish : BroadcastHub → AudioFrame → BroadcastHub
publish hub frame = record {
  live_edge = end_timestamp_ms frame;
  frames_published = hub.frames_published + 1;
  sent = hub.sent ++ frame ∷ [];
}

-- Zero stands for no frame yet.
abbrev pub edge_of : ℤ → Option ℤ
edge_of (pos zero) = none
edge_of (pos (suc n)) = some (pos (suc n))
edge_of (negsuc n) = some (negsuc n)

unfoldable pub live_edge_ms : BroadcastHub → Option ℤ
live_edge_ms hub = edge_of hub.live_edge
