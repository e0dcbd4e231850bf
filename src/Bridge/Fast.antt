-- ===== src/Bridge/Fast.antt =====
-- Fast transfers, in which a relayer pays before the proof: near/omni-bridge/src/lib.rs.
use omni_bridge.Prelude.{
  ℕ, Bool, true, false, not, none, some, ltb, nat_beq, unwrap_or, if◌then◌else◌,
}
use omni_bridge.Prelude.Equality.{◌==◌, string_eq}
use omni_bridge.Prelude.Words.{saturating_add}
use omni_bridge.Types.Codecs.{AccountId}
use omni_bridge.Types.Address.{OmniAddress, get_chain}
use omni_bridge.Types.Transfer.{TransferMessage, FastTransfer, FastTransferId, get_transfer_id}
use omni_bridge.Types.Messages.{FastFinTransferMsg, OmniBridgeEvent}
use omni_bridge.Host.{Env, Promise, Call, Returned}
use omni_bridge.Exec.{pure, panic, expect, require, skip, ◌>>=◌, ◌>>◌}
use omni_bridge.Bridge.State.{Action, view, log_event}
use omni_bridge.Bridge.Guards.{is_private, deny_deposit}
use omni_bridge.Bridge.Decimals.{denormalize_amount, denormalize_fee, sub_u128, add_u128}
use omni_bridge.Bridge.Balances.{update_storage_balance}
use omni_bridge.Bridge.Records.{
  is_unified_transfer_finalised, add_fast_transfer, remove_fast_transfer, fast_transfer_id,
  get_next_destination_nonce, bump_origin_nonce, add_transfer_message,
}
use omni_bridge.Bridge.Tokens.{
  one_yocto, get_token_address, get_decimals, check_storage_balance_result, is_refund_required,
  burn_tokens_if_needed, send_tokens, check_or_pay_ft_storage,
}
use omni_bridge.Bridge.Settle.{check_utxo_token}

module _ (env : Env) where
  open env use {current}

  unfoldable pub fast_fin_transfer_to_other_chain :
      FastTransfer → AccountId → AccountId → Action Unit
  fast_fin_transfer_to_other_chain f storage_payer relayer = do
    check_utxo_token f.recipient f.token_id
    fast_cost ← add_fast_transfer env f relayer storage_payer
    destination_nonce ← get_next_destination_nonce (get_chain f.recipient)
    origin_nonce ← bump_origin_nonce
    let m : TransferMessage = record {
      origin_nonce = origin_nonce;
      token = OmniAddress.near f.token_id;
      amount = f.amount;
      recipient = f.recipient;
      fee = f.fee;
      sender = OmniAddress.near relayer;
      msg = f.msg;
      destination_nonce = destination_nonce;
      origin_transfer_id = some f.transfer_id;
    }
    cost ← add_transfer_message env m storage_payer
    log_event (OmniBridgeEvent.fast_transfer_event f (some (get_transfer_id m)))
    update_storage_balance storage_payer (saturating_add cost fast_cost) 0

  unfoldable pub take_storage : AccountId → ℕ → Action Unit
  take_storage payer amount = if ltb 0 amount then update_storage_balance payer amount 0 else skip

  unfoldable pub start_fast :
      AccountId
      → ℕ
      → AccountId
      → FastFinTransferMsg
      → FastTransfer
      → OmniAddress
      → Action (Returned ℕ)
  start_fast token_id amount storage_payer msg f (OmniAddress.near recipient) = do
    let storage_amount = unwrap_or msg.storage_deposit_amount 0
    take_storage storage_payer storage_amount
    (paid, _) ←
        check_or_pay_ft_storage env
          (record {
            token_id = token_id;
            account_id = recipient;
            storage_deposit_amount = msg.storage_deposit_amount;
          })
          storage_amount
    pure (
        Returned.promise (
          Promise.then paid (
            Promise.call current 0
              (Call.fast_fin_transfer_to_near_callback f storage_payer msg.relayer))))
  start_fast token_id amount storage_payer msg f _ = do
    fast_fin_transfer_to_other_chain f storage_payer msg.relayer
    burn_tokens_if_needed env token_id amount
    pure (Returned.value 0)

  unfoldable pub fast_fin_transfer :
      AccountId → ℕ → AccountId → FastFinTransferMsg → Action (Returned ℕ)
  fast_fin_transfer token_id amount storage_payer msg = do
    found ← view (λ c. get_token_address c msg.transfer_id.origin_chain token_id)
    origin_token ← expect found "ERR_TOKEN_NOT_FOUND"
    decimals ← get_decimals origin_token
    denormalized_amount ← denormalize_amount msg.amount decimals
    denormalized_fee ← denormalize_fee msg.fee decimals
    with_fee ← add_u128 amount denormalized_fee.fee
    require (nat_beq denormalized_amount with_fee) "ERR_INVALID_FAST_TRANSFER_AMOUNT"
    finalised ← view (λ c. is_unified_transfer_finalised c msg.transfer_id)
    require (not finalised) "ERR_TRANSFER_ALREADY_FINALISED"
    let f : FastTransfer = record {
      transfer_id = msg.transfer_id;
      token_id = token_id;
      amount = denormalized_amount;
      fee = denormalized_fee;
      recipient = msg.recipient;
      msg = msg.msg;
    }
    start_fast token_id amount storage_payer msg f msg.recipient

  unfoldable pub near_recipient : OmniAddress → Action AccountId
  near_recipient (OmniAddress.near recipient) = pure recipient
  near_recipient _ = panic "ERR_INVALID_STATE"

  unfoldable pub fast_fin_transfer_to_near_callback :
      FastTransfer → AccountId → AccountId → Action Promise
  fast_fin_transfer_to_near_callback f storage_payer relayer = do
    is_private env
    deny_deposit env
    require (check_storage_balance_result env 0) "STORAGE_ERR: The transfer recipient is omitted"
    recipient ← near_recipient f.recipient
    cost ← add_fast_transfer env f relayer storage_payer
    update_storage_balance storage_payer (saturating_add cost one_yocto) 0
    log_event (OmniBridgeEvent.fast_transfer_event f none)
    amount ← sub_u128 f.amount f.fee.fee
    sent ← view (λ c. send_tokens env c f.token_id recipient amount f.msg)
    pure (
        Promise.then sent (
          Promise.call current 0 (
            Call.resolve_fast_transfer f.token_id (fast_transfer_id env f) amount
              (not (f.msg == "")))))

  unfoldable pub give_back : Bool → FastTransferId → ℕ → Action ℕ
  give_back true id amount = do remove_fast_transfer env id; pure amount
  give_back false id amount = pure 0

  -- The relayer's tokens are burnt whether or not they are given back.
  unfoldable pub resolve_fast_transfer : AccountId → FastTransferId → ℕ → Bool → Action ℕ
  resolve_fast_transfer token_id id amount is_ft_transfer_call = do
    is_private env
    deny_deposit env
    burn_tokens_if_needed env token_id amount
    refunded ← is_refund_required env is_ft_transfer_call
    give_back refunded id amount
