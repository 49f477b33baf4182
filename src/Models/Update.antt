-- ===== src/Models/Update.antt =====
-- backend/src/models/update.rs: the order of versions and the channel to follow.
pub mod Order
use Prim.Native.Nat.{Ordering, compare}
use on_air_record.Base.{ℕ, Bool, true, false, Option, none, some, if◌then◌else◌}

pub data Channel : Type 0 where
  stable beta : Channel

pub record Version : Type 0 where
  pub major : ℕ
  pub minor : ℕ
  pub patch : ℕ
  pub pre : Option ℕ  -- beta

unfoldable pub has_beta : Option ℕ → Bool
has_beta none = false
has_beta (some number) = true

unfoldable pub is_beta : Version → Bool
unfolding has_beta
is_beta v = has_beta v.pre

-- `Ordering::then_with`.
abbrev pub then_with : Ordering → Ordering → Ordering
then_with Ordering.lt later = Ordering.lt
then_with Ordering.eq later = later
then_with Ordering.gt later = Ordering.gt

unfoldable pub cmp_beta : Option ℕ → Option ℕ → Ordering
cmp_beta none none = Ordering.eq
cmp_beta none (some right) = Ordering.gt
cmp_beta (some left) none = Ordering.lt
cmp_beta (some left) (some right) = compare left right

-- The order of triples is the order of their parts, one after the other.
unfoldable pub cmp : Version → Version → Ordering
unfolding cmp_beta
cmp v other =
    then_with
      (then_with (compare v.major other.major)
        (then_with (compare v.minor other.minor) (compare v.patch other.patch)))
      (cmp_beta v.pre other.pre)

unfoldable pub default_channel : Version → Channel
unfolding is_beta
default_channel current = if is_beta current then beta else stable
