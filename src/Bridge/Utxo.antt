-- ===== src/Bridge/Utxo.antt =====
-- Transfers from UTXO chains: the `utxo_fin_transfer` functions of near/omni-bridge/src/lib.rs.
use omni_bridge.Prelude.{ℕ, Bool, true, false, not, Option, none, some}
use omni_bridge.Prelude.Equality.{◌==◌, string_eq}
use omni_bridge.Types.Chain.{ChainKind, chain_eq}
use omni_bridge.Types.Codecs.{AccountId}
use omni_bridge.Types.Address.{OmniAddress, get_chain}
use omni_bridge.Types.Transfer.{TransferMessage, FastTransfer, FastTransferStatus, get_transfer_id}
use omni_bridge.Types.Messages.{
  UtxoFinTransferMsg, utxo_transfer_id, from_utxo_transfer, OmniBridgeEvent,
}
use omni_bridge.Host.{Env, Promise, Call, Returned}
use omni_bridge.Exec.{pure, expect, require, ◌>>=◌, ◌>>◌}
use omni_bridge.Bridge.State.{Action, view, detach, log_event}
use omni_bridge.Bridge.Guards.{is_private, deny_deposit}
use omni_bridge.Bridge.Decimals.{sub_u128}
use omni_bridge.Bridge.Balances.{update_storage_balance}
use omni_bridge.Bridge.Records.{
  add_fin_utxo_transfer, remove_fin_utxo_transfer, fast_transfer_id, get_fast_transfer_status,
  remove_fast_transfer, mark_fast_transfer_as_finalised, bump_origin_nonce,
  get_next_destination_nonce, add_transfer_message,
}
use omni_bridge.Bridge.Tokens.{
  get_utxo_chain_by_token, check_storage_balance_result, is_refund_required, send_tokens,
  check_or_pay_ft_storage,
}

module _ (env : Env) where
  open env use {
    predecessor, current, attached_deposit, parse_token_receiver_message, parse_max_gas_fee, codecs,
    storage_byte_cost,
  }

  -- To NEAR the relayer gets the whole amount; to another chain the fee is claimed later.
  unfoldable pub settled_amount : FastTransfer → Bool → Action ℕ
  settled_amount f true = do remove_fast_transfer env (fast_transfer_id env f); pure f.amount
  settled_amount f false = do
    mark_fast_transfer_as_finalised (fast_transfer_id env f)
    sub_u128 f.amount f.fee.fee

  unfoldable pub utxo_fin_transfer_fast :
      FastTransfer → FastTransferStatus → UtxoFinTransferMsg → Action (Returned ℕ)
  utxo_fin_transfer_fast f status msg = do
    require (not status.finalised) "ERR_FAST_TRANSFER_ALREADY_FINALISED"
    amount ← settled_amount f (get_chain f.recipient == ChainKind.near)
    sent ← view (λ c. send_tokens env c f.token_id status.relayer amount "")
    detach sent
    log_event (OmniBridgeEvent.utxo_transfer_event f.token_id amount msg none)
    pure (Returned.value 0)

  unfoldable pub utxo_fin_transfer_to_near :
      AccountId → AccountId → ℕ → UtxoFinTransferMsg → ChainKind → AccountId → Action Promise
  utxo_fin_transfer_to_near recipient token_id amount msg origin_chain storage_owner = do
    (checked, _) ←
        check_or_pay_ft_storage env
          (record { token_id = token_id; account_id = recipient; storage_deposit_amount = none }) 0
    pure (
        Promise.then checked (
          Promise.call current 0 (
            Call.utxo_fin_transfer_to_near_callback token_id recipient amount msg origin_chain
              storage_owner)))

  unfoldable pub utxo_fin_transfer_to_other_chain :
      AccountId → ℕ → UtxoFinTransferMsg → ChainKind → AccountId → Action (Returned ℕ)
  utxo_fin_transfer_to_other_chain token_id amount msg origin_chain storage_owner = do
    origin_nonce ← bump_origin_nonce
    destination_nonce ← get_next_destination_nonce (get_chain msg.recipient)
    let m : TransferMessage = record {
      origin_nonce = origin_nonce;
      token = OmniAddress.near token_id;
      amount = amount;
      recipient = msg.recipient;
      fee = record { fee = msg.relayer_fee; native_fee = 0 };
      sender = OmniAddress.near predecessor;
      msg = msg.msg;
      destination_nonce = destination_nonce;
      origin_transfer_id = some (utxo_transfer_id msg origin_chain);
    }
    cost ← add_transfer_message env m storage_owner
    update_storage_balance storage_owner cost 0
    log_event (OmniBridgeEvent.utxo_transfer_event token_id amount msg (some (get_transfer_id m)))
    pure (Returned.value 0)

  unfoldable pub forward_utxo :
      AccountId → ℕ → AccountId → UtxoFinTransferMsg → ChainKind → OmniAddress → Action (Returned ℕ)
  forward_utxo token_id amount signer_id msg origin_chain (OmniAddress.near recipient) = do
    p ← utxo_fin_transfer_to_near recipient token_id amount msg origin_chain signer_id
    pure (Returned.promise p)
  forward_utxo token_id amount signer_id msg origin_chain _ =
      utxo_fin_transfer_to_other_chain token_id amount msg origin_chain signer_id

  unfoldable pub finish_utxo :
      AccountId
      → ℕ
      → AccountId
      → UtxoFinTransferMsg
      → ChainKind
      → Option FastTransferStatus
      → Action (Returned ℕ)
  finish_utxo token_id amount signer_id msg origin_chain (some status) =
      utxo_fin_transfer_fast (from_utxo_transfer msg token_id amount origin_chain) status msg
  finish_utxo token_id amount signer_id msg origin_chain none = do
    cost ← add_fin_utxo_transfer env (utxo_transfer_id msg origin_chain)
    update_storage_balance signer_id cost 0
    forward_utxo token_id amount signer_id msg origin_chain msg.recipient

  unfoldable pub utxo_fin_transfer :
      AccountId → ℕ → AccountId → AccountId → UtxoFinTransferMsg → Action (Returned ℕ)
  utxo_fin_transfer token_id amount signer_id sender_id msg = do
    found ← view (λ c. get_utxo_chain_by_token env c token_id)
    origin_chain ← expect found "ERR_UTXO_CONFIG_MISSING"
    configured ← view (λ c. c.utxo_chain_connectors origin_chain)
    config ← expect configured "ERR_UTXO_CONFIG_MISSING"
    require (sender_id == config.connector) "ERR_SENDER_IS_NOT_CONNECTOR"
    let f = from_utxo_transfer msg token_id amount origin_chain
    status ← get_fast_transfer_status (fast_transfer_id env f)
    finish_utxo token_id amount signer_id msg origin_chain status

  unfoldable pub send_utxo :
      Bool
      → AccountId
      → AccountId
      → ℕ
      → UtxoFinTransferMsg
      → ChainKind
      → AccountId
      → Action (Returned ℕ)
  send_utxo false token_id recipient amount msg origin_chain storage_owner = do
    remove_fin_utxo_transfer env (utxo_transfer_id msg origin_chain) storage_owner
    pure (Returned.value amount)
  send_utxo true token_id recipient amount msg origin_chain storage_owner = do
    sent ← view (λ c. send_tokens env c token_id recipient amount msg.msg)
    pure (
        Returned.promise (
          Promise.then sent (
            Promise.call current 0
              (Call.resolve_utxo_fin_transfer token_id amount msg origin_chain storage_owner))))

  unfoldable pub utxo_fin_transfer_to_near_callback :
      AccountId → AccountId → ℕ → UtxoFinTransferMsg → ChainKind → AccountId → Action (Returned ℕ)
  utxo_fin_transfer_to_near_callback token_id recipient amount msg origin_chain storage_owner = do
    is_private env
    deny_deposit env
    send_utxo (check_storage_balance_result env 0) token_id recipient amount msg origin_chain
        storage_owner

  unfoldable pub resolve_utxo :
      Bool → AccountId → ℕ → UtxoFinTransferMsg → ChainKind → AccountId → Action ℕ
  resolve_utxo true token_id amount msg origin_chain storage_owner = do
    remove_fin_utxo_transfer env (utxo_transfer_id msg origin_chain) storage_owner
    pure amount
  resolve_utxo false token_id amount msg origin_chain storage_owner = do
    log_event (OmniBridgeEvent.utxo_transfer_event token_id amount msg none)
    pure 0

  unfoldable pub resolve_utxo_fin_transfer :
      AccountId → ℕ → UtxoFinTransferMsg → ChainKind → AccountId → Action ℕ
  resolve_utxo_fin_transfer token_id amount msg origin_chain storage_owner = do
    is_private env
    deny_deposit env
    refunded ← is_refund_required env (not (msg.msg == ""))
    resolve_utxo refunded token_id amount msg origin_chain storage_owner
