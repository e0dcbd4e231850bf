-- ===== src/Bridge/Deploy.antt =====
-- Deploying a token, binding it to one on another chain, and replacing it:
-- near/omni-bridge/src/lib.rs.
pub mod Migration
use omni_bridge.Prelude.{ℕ, ◌+◌, String, not, Option, some, [], ◌∷◌, leb, is_none, unwrap_or}
use omni_bridge.Prelude.Equality.{string_eq, pair_eq}
use omni_bridge.Prelude.Maps.{insert, remove, add, erase}
use omni_bridge.Prelude.Words.{saturating_add, saturating_mul, saturating_sub}
use omni_bridge.Types.Chain.{ChainKind, chain_eq}
use omni_bridge.Types.Codecs.{AccountId}
use omni_bridge.Types.Address.{OmniAddress, get_chain, new_zero, get_token_prefix, address_eq}
use omni_bridge.Types.Messages.{
  ProofArgs, ProverResult, LogMetadataMessage, DeployTokenMessage, BasicMetadata, OmniBridgeEvent,
}
use omni_bridge.Host.{Env, Role, Promise, Call}
use omni_bridge.Exec.{pure, panic, expect, unwrap, require, ◌>>=◌, ◌>>◌}
use omni_bridge.Bridge.State.{Action, update, view, log_event}
use omni_bridge.Bridge.Guards.{pause_except, access_control_any, is_private, deny_deposit}
use omni_bridge.Bridge.Balances.{refund, nep141_deposit}
use omni_bridge.Bridge.Tokens.{add_token, token_bytes, verify_proof}
use omni_bridge.Bridge.Fin.{check_factory}
use Prim.Native.String.{◌++◌}

unfoldable pub log_metadata_proof : Option ProverResult → Action LogMetadataMessage
log_metadata_proof (some (ProverResult.log_metadata m)) = pure m
log_metadata_proof _ = panic "ERR_INVALID_PROOF"

unfoldable pub deploy_token_proof : Option ProverResult → Action DeployTokenMessage
deploy_token_proof (some (ProverResult.deploy_token m)) = pure m
deploy_token_proof _ = panic "ERROR: Invalid proof message"

module _ (env : Env) where
  open env use {
    predecessor, current, attached_deposit, codecs, storage_byte_cost, record_bytes, account_id_len,
  }

  unfoldable pub deploy_token : ProofArgs → Action Promise
  deploy_token args = do
    pause_except env "deploy_token" (Role.dao ∷ Role.unrestricted_relayer ∷ [])
    proof ← verify_proof env args.chain_kind args.prover_args
    pure (Promise.then proof (Promise.call current 0 (Call.deploy_token_callback attached_deposit)))

  unfoldable pub deploy_token_internal :
      ChainKind → OmniAddress → BasicMetadata → ℕ → Action Promise
  deploy_token_internal chain token_address metadata deposit = do
    found ← view (λ c. c.token_deployer_accounts chain)
    deployer ← expect found "ERR_DEPLOYER_NOT_SET"
    token_id ←
        expect
          (codecs.parse_account_id (get_token_prefix codecs token_address ++ ("." ++ deployer)))
          "ERR_PARSE_ACCOUNT"
    add_token token_id token_address metadata.decimals metadata.decimals
    deployed ← view (λ c. c.deployed_tokens token_id)
    require (not deployed) "ERR_TOKEN_EXIST"
    update (λ c. record c { deployed_tokens = add token_id c.deployed_tokens })
    let growth =
        token_bytes env token_id token_address + record_bytes (1 + account_id_len token_id) 0
    let required = saturating_add (saturating_mul storage_byte_cost growth) nep141_deposit
    require (leb required deposit) "ERROR: The deposit is not sufficient to cover the storage."
    log_event (OmniBridgeEvent.deploy_token_event token_id token_address metadata)
    pure (
        Promise.then
          (Promise.call deployer (saturating_sub deposit required)
            (Call.deploy_token token_id metadata))
          (Promise.call token_id nep141_deposit (Call.storage_deposit current)))

  unfoldable pub deploy_token_callback : ℕ → Option ProverResult → Action Promise
  deploy_token_callback deposit call_result = do
    is_private env
    deny_deposit env
    metadata ← log_metadata_proof call_result
    check_factory metadata.emitter_address "ERR_UNKNOWN_FACTORY"
    deploy_token_internal (get_chain metadata.emitter_address) metadata.token_address
        (record { name = metadata.name; symbol = metadata.symbol; decimals = metadata.decimals })
        deposit

  unfoldable pub deploy_native_token : ChainKind → String → String → ℕ → Action Promise
  deploy_native_token chain name symbol decimals = do
    access_control_any env (Role.dao ∷ [])
    address ← unwrap (new_zero codecs chain) "ERR_FAILED_TO_GET_ZERO_ADDRESS"
    deploy_token_internal chain address
        (record { name = name; symbol = symbol; decimals = decimals }) attached_deposit

  unfoldable pub bind_token : ProofArgs → Action Promise
  bind_token args = do
    pause_except env "bind_token" (Role.dao ∷ Role.unrestricted_relayer ∷ [])
    proof ← verify_proof env args.chain_kind args.prover_args
    pure (
        Promise.then
          (Promise.then proof (Promise.call current 0 (Call.bind_token_callback attached_deposit)))
          (Promise.call current attached_deposit (Call.bind_token_refund predecessor)))

  -- The result is the part of the deposit to give back.
  unfoldable pub bind_token_callback : ℕ → Option ProverResult → Action ℕ
  bind_token_callback deposit call_result = do
    is_private env
    deny_deposit env
    proof ← deploy_token_proof call_result
    check_factory proof.emitter_address "Unknown factory"
    add_token proof.token proof.token_address proof.decimals proof.origin_decimals
    let required =
        saturating_mul storage_byte_cost (token_bytes env proof.token proof.token_address)
    require (leb required deposit) "ERROR: The deposit is not sufficient to cover the storage."
    log_event (
        OmniBridgeEvent.bind_token_event proof.token proof.token_address proof.decimals
          proof.origin_decimals)
    pure (saturating_sub deposit required)

  unfoldable pub bind_token_refund : AccountId → Option ℕ → Action Unit
  bind_token_refund caller call_result = do
    is_private env
    refund caller (unwrap_or call_result attached_deposit)

  -- Each write answers what it replaced.
  unfoldable pub migrate_deployed_token : ChainKind → AccountId → AccountId → Action Unit
  migrate_deployed_token origin_chain old_token new_token = do
    deny_deposit env
    access_control_any env (Role.dao ∷ [])
    old_deployed ← view (λ c. c.deployed_tokens old_token)
    require old_deployed "ERR_OLD_TOKEN_NOT_DEPLOYED"
    update (λ c. record c { deployed_tokens = erase old_token c.deployed_tokens })
    new_deployed ← view (λ c. c.deployed_tokens new_token)
    require (not new_deployed) "ERR_TOKEN_EXIST"
    update (λ c. record c { deployed_tokens = add new_token c.deployed_tokens })
    let old_key : ChainKind × AccountId = (origin_chain, old_token)
    let new_key : ChainKind × AccountId = (origin_chain, new_token)
    found ← view (λ c. c.token_id_to_address old_key)
    origin_address ← expect found "ERR_FAILED_TO_GET_TOKEN_ADDRESS"
    update (λ c. record c { token_id_to_address = remove old_key c.token_id_to_address })
    occupied ← view (λ c. c.token_id_to_address new_key)
    require (is_none occupied) "ERR_TOKEN_EXIST"
    update (λ c. record c {
      token_id_to_address = insert new_key origin_address c.token_id_to_address;
    })
    known ← view (λ c. c.token_address_to_id origin_address)
    expect known "ERR_EXPECTED_TO_OVERWRITE_TOKEN_ADDRESS"
    update (λ c. record c {
      token_address_to_id = insert origin_address new_token c.token_address_to_id;
    })
    migrated ← view (λ c. c.migrated_tokens old_token)
    require (is_none migrated) "ERR_TOKEN_ALREADY_MIGRATED"
    update (λ c. record c { migrated_tokens = insert old_token new_token c.migrated_tokens })
