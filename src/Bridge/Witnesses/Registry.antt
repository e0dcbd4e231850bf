-- ===== src/Bridge/Witnesses/Registry.antt =====
-- The registry of tokens on concrete data.
use omni_bridge.Prelude.{◌≡◌, refl, true, some}
use omni_bridge.Prelude.Equality.{string_eq}
use omni_bridge.Prelude.Maps.{insert}
use omni_bridge.Prelude.Result.{Result, ok}
use omni_bridge.Types.Chain.{ChainKind, chain_eq}
use omni_bridge.Types.Address.{OmniAddress, zeros, address_beq, address_eq}
use omni_bridge.Types.Transfer.{transfer_id_eq}
use omni_bridge.Host.{Env}
use omni_bridge.Exec.{◌>>=◌}
use omni_bridge.Bridge.State.{State, start, new, update, view}
use omni_bridge.Bridge.Guards.{has_any_role}
use omni_bridge.Bridge.Tokens.{add_token, get_bridged_token, bridged_near}
use omni_bridge.Bridge.Tokens.Registry.{
  IsRegistered, added, add_token-IsRegistered, get_bridged_token-inverse,
}
use omni_bridge.Prelude.Equality.{◌==◌}
use omni_bridge.Prelude.Maps.{remove, add, erase}
use omni_bridge.Bridge.Guards.{deny_deposit, access_control_any}
use omni_bridge.Bridge.Deploy.{migrate_deployed_token}
use omni_bridge.Bridge.Deploy.Migration.{migrate_deployed_token-IsRegistered}
use omni_bridge.Bridge.Witnesses.Sample.{
  eth_is_not_near, callback_env, token_decimals, empty, final,
}

-- A state with no token registered, and the state after one is.
abbrev bare_state : State
bare_state = start empty

abbrev one_token_state : State
one_token_state = start (added "token" (OmniAddress.eth (zeros 20)) 2 4 empty)

empty-IsRegistered : IsRegistered empty
unfolding new
empty-IsRegistered = record { back = λ chain token a h. cc; has_decimals = λ a token h. cc }

add_run : add_token "token" (OmniAddress.eth (zeros 20)) 2 4 bare_state ≡ ok (tt, one_token_state)
unfolding add_token ◌>>=◌ view update new
add_run = refl

add_token-IsRegistered_example :
    IsRegistered one_token_state.contract
    × (one_token_state.token_address_to_id (OmniAddress.eth (zeros 20)) ≡ some "token")
    × (one_token_state.token_id_to_address (ChainKind.eth, "token")
        ≡ some (OmniAddress.eth (zeros 20)))
    × (one_token_state.token_decimals (OmniAddress.eth (zeros 20)) ≡ some token_decimals)
add_token-IsRegistered_example =
    add_token-IsRegistered "token" (OmniAddress.eth (zeros 20)) 2 4 bare_state empty-IsRegistered
      add_run

one_token_state-IsRegistered : IsRegistered one_token_state.contract
one_token_state-IsRegistered =
    (add_token-IsRegistered "token" (OmniAddress.eth (zeros 20)) 2 4 bare_state empty-IsRegistered
      add_run).0

bridged_run :
    get_bridged_token one_token_state.contract (OmniAddress.near "token") ChainKind.eth
    ≡ some (OmniAddress.eth (zeros 20))
unfolding get_bridged_token bridged_near insert
bridged_run = refl

get_bridged_token-inverse_example :
    get_bridged_token one_token_state.contract (OmniAddress.eth (zeros 20)) ChainKind.near
    ≡ some (OmniAddress.near "token")
get_bridged_token-inverse_example =
    get_bridged_token-inverse one_token_state.contract "token" ChainKind.eth
      (OmniAddress.eth (zeros 20)) one_token_state-IsRegistered eth_is_not_near bridged_run

-- The registered token was deployed by the bridge, and the DAO moves it to a new account.
abbrev dao_env : Env
dao_env = record callback_env { attached_deposit = 0; acl_has_role = λ _ _. true }

abbrev deployed_state : State
deployed_state = record one_token_state {
  contract = record one_token_state.contract { deployed_tokens = λ t. t == "token" };
}

deployed-IsRegistered : IsRegistered deployed_state.contract
deployed-IsRegistered = record {
  back = one_token_state-IsRegistered.back;
  has_decimals = one_token_state-IsRegistered.has_decimals;
}

abbrev migrated : Result (Unit {0} × State)
migrated = migrate_deployed_token dao_env ChainKind.eth "token" "token.v2" deployed_state

migrate_run : migrated ≡ ok (tt, final migrated)
unfolding migrate_deployed_token deny_deposit access_control_any has_any_role insert remove add
    erase address_beq new ◌>>=◌ view update
migrate_run = refl

migrate_deployed_token-IsRegistered_example :
    IsRegistered (final migrated).contract
    × ((a : OmniAddress) × (deployed_state.token_id_to_address (ChainKind.eth, "token") ≡ some a)
        × ((final migrated).token_id_to_address (ChainKind.eth, "token.v2") ≡ some a)
        × ((final migrated).token_address_to_id a ≡ some "token.v2"))
migrate_deployed_token-IsRegistered_example =
    migrate_deployed_token-IsRegistered dao_env ChainKind.eth "token" "token.v2" deployed_state
      deployed-IsRegistered migrate_run
