-- ===== src/Models/Access.antt =====
-- backend/src/models/user.rs: accounts, and the one rule that says who may do what.
use Prim.Native.String.{String}
use on_air_record.Base.{Bool, true, false, Option, none, some}
use on_air_record.Base.{ℕ}
use on_air_record.Base.Int.{ℤ}
use on_air_record.Models.Activity.{Role, admin, listener}

pub data AuthMode : Type 0 where
  undecided kept_open accounts : AuthMode

unfoldable pub requires_login : AuthMode → Bool
requires_login accounts = true
requires_login kept_open = false
requires_login undecided = false

pub record User : Type 0 where
  pub id : ℕ
  pub email : String
  pub role : Role
  pub created_at_ms : ℤ
  pub two_factor : Bool

pub data Access : Type 0 where
  listen administer : Access

pub data Denied : Type 0 where
  sign_in_required not_allowed : Denied

-- `Ok(())` or the reason.
pub data Verdict : Type 0 where
  granted : Verdict
  denied : Denied → Verdict

unfoldable pub authorize_role : Access → Role → Verdict
authorize_role listen role = granted
authorize_role administer admin = granted
authorize_role administer listener = denied not_allowed

unfoldable pub authorize_user : Option User → Access → Verdict
unfolding authorize_role
authorize_user none needed = denied sign_in_required
authorize_user (some user) needed = authorize_role needed user.role

unfoldable pub authorize : AuthMode → Option User → Access → Verdict
unfolding authorize_user
authorize accounts user needed = authorize_user user needed
authorize kept_open user needed = granted
authorize undecided user needed = granted

unfoldable pub is_ok : Verdict → Bool
is_ok granted = true
is_ok (denied reason) = false
