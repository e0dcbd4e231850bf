-- ===== src/Bridge/Admin.antt =====
-- The methods of the DAO, the swap of a migrated token, and the entry point `ft_on_transfer`:
-- near/omni-bridge/src/lib.rs.
use omni_bridge.Prelude.{ℕ, String, Option, none, some, List, [], ◌∷◌, leb, length}
use omni_bridge.Prelude.Equality.{string_eq}
use omni_bridge.Prelude.Maps.{insert, remove, add}
use omni_bridge.Prelude.Words.{saturating_mul}
use omni_bridge.Types.Chain.{ChainKind, chain_eq}
use omni_bridge.Types.Codecs.{Bytes, AccountId}
use omni_bridge.Types.Address.{OmniAddress, get_chain}
use omni_bridge.Types.Messages.{BridgeOnTransferMsg, AddDeployedTokenArgs}
use omni_bridge.Host.{Env, Role, Promise, Call, Returned, PromiseResult}
use omni_bridge.Exec.{pure, panic, expect, require, skip, ◌>>=◌, ◌>>◌}
use omni_bridge.Bridge.State.{Action, update, view, detach}
use omni_bridge.Bridge.Guards.{pause_except, access_control_any, is_private, deny_deposit}
use omni_bridge.Bridge.Balances.{nep141_deposit}
use omni_bridge.Bridge.Tokens.{one_yocto, add_token, get_token_id, get_decimals, promise_result}
use omni_bridge.Bridge.Init.{init_transfer}
use omni_bridge.Bridge.Fast.{fast_fin_transfer}
use omni_bridge.Bridge.Utxo.{utxo_fin_transfer}

module _ (env : Env) where
  open env use {
    predecessor, signer, current, attached_deposit, parse_bridge_msg, parse_init_transfer_msg,
  }

  unfoldable pub add_factory : OmniAddress → Action Unit
  add_factory address = do
    deny_deposit env
    access_control_any env (Role.dao ∷ [])
    update (λ c. record c { factories = insert (get_chain address) address c.factories })

  unfoldable pub add_token_deployer : ChainKind → AccountId → Action Unit
  add_token_deployer chain account = do
    deny_deposit env
    access_control_any env (Role.dao ∷ [])
    update
        (λ c. record c { token_deployer_accounts = insert chain account c.token_deployer_accounts })

  unfoldable pub add_prover : ChainKind → AccountId → Action Unit
  add_prover chain account = do
    deny_deposit env
    access_control_any env (Role.dao ∷ [])
    update (λ c. record c { provers = insert chain account c.provers })

  unfoldable pub remove_prover : ChainKind → Action Unit
  remove_prover chain = do
    deny_deposit env
    access_control_any env (Role.dao ∷ [])
    update (λ c. record c { provers = remove chain c.provers })

  unfoldable pub transfer_token_as_dao : AccountId → ℕ → AccountId → Option String → Action Promise
  transfer_token_as_dao token amount recipient msg = do
    deny_deposit env
    access_control_any env (Role.dao ∷ [])
    pure (
        Promise.call token one_yocto (elim msg [
          | none ↦ Call.ft_transfer recipient amount
          | some text ↦ Call.ft_transfer_call recipient amount text
        ]))

  unfoldable pub add_deployed : List AddDeployedTokenArgs → Action Unit
  add_deployed [] = skip
  add_deployed (t ∷ ts) = do
    update (λ c. record c { deployed_tokens = add t.token_id c.deployed_tokens })
    add_token t.token_id t.token_address t.decimals t.decimals
    detach (Promise.call t.token_id nep141_deposit (Call.storage_deposit current))
    add_deployed ts

  unfoldable pub add_deployed_tokens : List AddDeployedTokenArgs → Action Unit
  add_deployed_tokens tokens = do
    access_control_any env (Role.dao ∷ [])
    require (leb (saturating_mul nep141_deposit (length tokens)) attached_deposit)
        "ERR_NOT_ENOUGH_ATTACHED_DEPOSIT"
    add_deployed tokens

  unfoldable pub set_token_metadata :
      OmniAddress
      → Option String
      → Option String
      → Option String
      → Option String
      → Option Bytes
      → Action Promise
  set_token_metadata address name symbol icon reference reference_hash = do
    deny_deposit env
    access_control_any env (Role.dao ∷ Role.metadata_manager ∷ [])
    token ← get_token_id address
    deployed ← view (λ c. c.deployed_tokens token)
    require deployed "require! assertion failed"
    decimals ← get_decimals address
    pure (
        Promise.call token 0
          (Call.set_metadata name symbol reference reference_hash (some decimals.decimals) icon))

  unfoldable pub update_tokens_controller : AccountId → List AccountId → Action Unit
  update_tokens_controller factory tokens = do
    access_control_any env (Role.dao ∷ Role.token_controller_updater ∷ [])
    detach (Promise.call factory 0 (Call.set_controller_for_tokens tokens))

  unfoldable pub withdrawn : PromiseResult → AccountId → ℕ → Action Promise
  withdrawn (PromiseResult.successful _) recipient amount = pure (Promise.transfer recipient amount)
  withdrawn PromiseResult.failed recipient amount = panic "ERR_NEAR_WITHDRAW_FAILED"

  unfoldable pub near_withdraw_callback : AccountId → ℕ → Action Promise
  near_withdraw_callback recipient amount = do
    is_private env
    result ← promise_result env 0
    withdrawn result recipient amount

  unfoldable pub swap_migrated_token : AccountId → AccountId → ℕ → Action Promise
  swap_migrated_token sender_id old_token amount = do
    found ← view (λ c. c.migrated_tokens old_token)
    new_token ← expect found "ERR_TOKEN_NOT_MIGRATED"
    pure (
        Promise.and (Promise.call old_token 0 (Call.burn amount))
          (Promise.call new_token 0 (Call.mint sender_id amount none)))

  unfoldable pub parse_msg : Option BridgeOnTransferMsg → String → Option BridgeOnTransferMsg
  parse_msg (some m) text = some m
  parse_msg none text = elim (parse_init_transfer_msg text) [
    | none ↦ none
    | some m ↦ some (BridgeOnTransferMsg.init_transfer m)
  ]

  unfoldable pub dispatch : AccountId → AccountId → ℕ → BridgeOnTransferMsg → Action (Returned ℕ)
  dispatch sender_id token_id amount (BridgeOnTransferMsg.init_transfer m) =
      init_transfer env sender_id token_id amount m
  dispatch sender_id token_id amount (BridgeOnTransferMsg.fast_fin_transfer m) =
      fast_fin_transfer env token_id amount signer m
  dispatch sender_id token_id amount (BridgeOnTransferMsg.utxo_fin_transfer m) =
      utxo_fin_transfer env token_id amount signer sender_id m
  dispatch sender_id token_id amount BridgeOnTransferMsg.swap_migrated_token = do
    swap ← swap_migrated_token sender_id token_id amount
    detach swap
    pure (Returned.value 0)

  -- The token contract calls; the storage is paid by the signer, who cannot be spoofed.
  unfoldable pub ft_on_transfer : AccountId → ℕ → String → Action (Returned ℕ)
  ft_on_transfer sender_id amount msg = do
    deny_deposit env
    pause_except env "ft_on_transfer" (Role.dao ∷ Role.unrestricted_deposit ∷ [])
    parsed ← expect (parse_msg (parse_bridge_msg msg) msg) "ERR_PARSE_MSG"
    dispatch sender_id predecessor amount parsed
