-- ===== src/Bridge/Settle.antt =====
-- What a proved transfer to NEAR does: the two `process_fin_transfer_` functions of
-- near/omni-bridge/src/lib.rs.
use omni_bridge.Prelude.{
  ℕ, suc, String, Bool, false, not, ◌&&◌, Option, none, some, List, ltb, get_elem?, if◌then◌else◌,
}
use omni_bridge.Prelude.Equality.{◌==◌, string_eq, option_eq}
use omni_bridge.Prelude.Words.{saturating_add}
use omni_bridge.Types.Codecs.{AccountId}
use omni_bridge.Types.Address.{OmniAddress, get_chain, is_utxo_address, address_eq}
use omni_bridge.Types.Transfer.{
  TransferMessage, FastTransferId, FastTransferStatus, get_transfer_id, get_origin_chain,
  from_transfer,
}
use omni_bridge.Types.Messages.{StorageDepositAction, OmniBridgeEvent}
use omni_bridge.Host.{Env, Promise, Call}
use omni_bridge.Exec.{pure, expect, require, skip, ◌>>=◌, ◌>>◌}
use omni_bridge.Bridge.State.{Action, view, detach, log_event}
use omni_bridge.Bridge.Decimals.{sub_u128}
use omni_bridge.Bridge.Balances.{update_storage_balance}
use omni_bridge.Bridge.Records.{
  add_fin_transfer, fast_transfer_id, get_fast_transfer_status, remove_fast_transfer,
  mark_fast_transfer_as_finalised, add_transfer_message,
}
use omni_bridge.Bridge.Tokens.{
  one_yocto, get_token_id, get_native_token_id, get_utxo_chain_token, check_storage_balance_result,
  send_tokens,
}

-- `Only BTC can be transferred to the Bitcoin network.`
unfoldable pub check_utxo_token : OmniAddress → AccountId → Action Unit
check_utxo_token recipient token =
    if is_utxo_address recipient
    then (do
      btc_account_id ← get_utxo_chain_token (get_chain recipient)
      require (token == btc_account_id) "Only BTC can be transferred to the Bitcoin network.")
    else skip

-- Where the tokens and the fee go: recipient, message and fee recipient. A fast transfer has
-- paid the recipient already, so both go to its relayer.
pub record Payout : Type 0 where
  pub recipient : AccountId
  pub msg : String
  pub fee_recipient : AccountId

module _ (env : Env) where
  open env use {current, attached_deposit}

  -- One `check_storage_balance_result(i + 1) && actions[i]...` condition.
  unfoldable pub action_matches :
      List StorageDepositAction → ℕ → AccountId → AccountId → Action Bool
  action_matches actions i account token = do
    action ← expect (get_elem? actions i) "index out of bounds"
    pure (action.account_id == account && action.token_id == token)

  unfoldable pub storage_checked :
      List StorageDepositAction → ℕ → AccountId → AccountId → Action Bool
  storage_checked actions i account token =
      if check_storage_balance_result env (suc i)
      then action_matches actions i account token
      else pure false

  unfoldable pub choose_payout :
      AccountId
      → AccountId
      → TransferMessage
      → FastTransferId
      → Option FastTransferStatus
      → Action Payout
  choose_payout recipient caller m id none =
      pure (record { recipient = recipient; msg = m.msg; fee_recipient = caller })
  choose_payout recipient caller m id (some status) = do
    require (not status.finalised) "ERR_FAST_TRANSFER_ALREADY_FINALISED"
    remove_fast_transfer env id
    pure (record { recipient = status.relayer; msg = ""; fee_recipient = status.relayer })

  -- The costs of the transfers to the fee recipients, and the checks that these are registered.
  -- The index of the native fee's deposit depends on whether there is a token fee.
  unfoldable pub fee_checked :
      List StorageDepositAction → AccountId → AccountId → ℕ → ℕ → Action (ℕ × ℕ)
  fee_checked actions account token fee cost =
      if ltb 0 fee
      then (do
        good ← storage_checked actions 1 account token
        require good "STORAGE_ERR: The fee recipient is omitted"
        pure (2, saturating_add cost one_yocto))
      else pure (1, cost)

  unfoldable pub native_fee_checked :
      List StorageDepositAction → AccountId → TransferMessage → ℕ → Action Unit
  native_fee_checked actions account m i =
      if ltb 0 m.fee.native_fee
      then (do
        native_token ← get_native_token_id env (get_origin_chain m)
        good ← storage_checked actions i account native_token
        require good "STORAGE_ERR: The native fee recipient is omitted")
      else skip

  unfoldable pub process_fin_transfer_to_near :
      AccountId → AccountId → TransferMessage → List StorageDepositAction → Action Promise
  process_fin_transfer_to_near recipient caller m actions = do
    fin_cost ← add_fin_transfer env (get_transfer_id m)
    token ← get_token_id m.token
    let fast_id = fast_transfer_id env (from_transfer m token)
    status ← get_fast_transfer_status fast_id
    payout ← choose_payout recipient caller m fast_id status
    good ← storage_checked actions 0 payout.recipient token
    require good "STORAGE_ERR: The transfer recipient is omitted"
    (i, cost) ←
        fee_checked actions payout.fee_recipient token m.fee.fee (saturating_add fin_cost one_yocto)
    native_fee_checked actions payout.fee_recipient m i
    update_storage_balance caller cost attached_deposit
    amount ← sub_u128 m.amount m.fee.fee
    sent ← view (λ c. send_tokens env c token payout.recipient amount payout.msg)
    pure (
        Promise.then sent (
          Promise.call current 0 (
            Call.fin_transfer_send_tokens_callback m payout.fee_recipient (not (payout.msg == ""))
              caller)))

  -- The relayer of a fast transfer gets the tokens; otherwise the transfer goes on as a pending
  -- one. The result is the storage that it costs.
  unfoldable pub settle_or_forward :
      AccountId
      → TransferMessage
      → AccountId
      → FastTransferId
      → Option FastTransferStatus
      → ℕ
      → Action ℕ
  settle_or_forward caller m token fast_id none cost = do
    added ← add_transfer_message env m caller
    pure (saturating_add added cost)
  settle_or_forward caller m token fast_id (some status) cost = do
    require (not status.finalised) "ERR_FAST_TRANSFER_ALREADY_FINALISED"
    amount ← sub_u128 m.amount m.fee.fee
    sent ← view (λ c. send_tokens env c token status.relayer amount "")
    detach sent
    mark_fast_transfer_as_finalised fast_id
    pure cost

  unfoldable pub process_fin_transfer_to_other_chain : AccountId → TransferMessage → Action Unit
  process_fin_transfer_to_other_chain caller m = do
    fin_cost ← add_fin_transfer env (get_transfer_id m)
    token ← get_token_id m.token
    check_utxo_token m.recipient token
    let fast_id = fast_transfer_id env (from_transfer m token)
    status ← get_fast_transfer_status fast_id
    cost ← settle_or_forward caller m token fast_id status fin_cost
    update_storage_balance caller cost attached_deposit
    log_event (OmniBridgeEvent.fin_transfer_event m)
