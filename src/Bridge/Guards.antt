-- ===== src/Bridge/Guards.antt =====
-- The checks that the attributes of a method put before its body: `#[private]` and the deposit
-- test of near-sdk, `#[pause]` and `#[access_control_any]` of near-plugins.
use omni_bridge.Prelude.{String, Bool, false, not, ◌||◌, List, [], ◌∷◌, nat_beq}
use omni_bridge.Prelude.Equality.{◌==◌, string_eq}
use omni_bridge.Host.{Env, Role}
use omni_bridge.Exec.{require}
use omni_bridge.Bridge.State.{Action}

module _ (env : Env) where
  open env use {predecessor, current, attached_deposit, acl_has_role, is_paused}

  unfoldable pub has_any_role : List Role → Bool
  has_any_role [] = false
  has_any_role (r ∷ rs) = acl_has_role r predecessor || has_any_role rs

  -- `#[pause(except(roles(...)))]`; plain `#[pause]` excepts nobody.
  unfoldable pub pause_except : String → List Role → Action Unit
  pause_except method roles =
      require (not (is_paused method) || has_any_role roles) "Pausable: Method is paused"

  unfoldable pub access_control_any : List Role → Action Unit
  access_control_any roles = require (has_any_role roles) "Insufficient permissions for method"

  -- `#[private]`.
  unfoldable pub is_private : Action Unit
  is_private = require (predecessor == current) "Method is private"

  -- A method that changes the state and is not `#[payable]`.
  unfoldable pub deny_deposit : Action Unit
  deny_deposit = require (nat_beq attached_deposit 0) "Method doesn't accept deposit"
