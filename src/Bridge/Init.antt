-- ===== src/Bridge/Init.antt =====
-- Transfers that leave NEAR: `init_transfer`, its resumption, `finish_withdraw_v2` and the change
-- of a fee, of near/omni-bridge/src/lib.rs.
pub mod Fees
pub mod Outcome
pub mod Resume
use omni_bridge.Prelude.{
  ℕ, zero, suc, String, Bool, true, false, not, ◌&&◌, ◌||◌, Option, none, some, leb, ltb, nat_beq,
  unwrap_or, [], ◌∷◌, if◌then◌else◌,
}
use omni_bridge.Prelude.Equality.{◌==◌}
use omni_bridge.Prelude.Words.{saturating_add, checked_sub}
use omni_bridge.Prelude.Result.{Result, ok, err}
use omni_bridge.Types.Chain.{ChainKind, chain_eq}
use omni_bridge.Types.Codecs.{AccountId}
use omni_bridge.Types.Address.{OmniAddress, get_chain, address_eq}
use omni_bridge.Types.Transfer.{
  Fee, TransferId, TransferMessage, get_transfer_id, storage_account_from,
}
use omni_bridge.Types.Messages.{InitTransferMsg, UpdateFee, OmniBridgeEvent}
use omni_bridge.Types.Stored.{TransferMessageStorageValue}
use omni_bridge.Host.{Env, Role, Returned}
use omni_bridge.Exec.{pure, panic, expect, require, skip, ◌>>=◌, ◌>>◌}
use omni_bridge.Bridge.State.{Action, view, log_event}
use omni_bridge.Bridge.Guards.{pause_except, is_private, deny_deposit}
use omni_bridge.Bridge.Balances.{
  try_update_storage_balance, update_storage_balance, has_storage_balance,
  try_to_transfer_balance_from_message_account, required_balance_for_init_transfer_message,
  required_balance_for_init_transfer,
}
use omni_bridge.Bridge.Records.{
  get_next_destination_nonce, bump_origin_nonce, add_transfer_message, insert_raw_transfer,
  get_transfer_message_storage, add_promise, remove_promise,
}
use omni_bridge.Bridge.Tokens.{burn_tokens_if_needed}

module _ (env : Env) where
  open env use {
    predecessor, signer, current, attached_deposit, codecs, storage_account_borsh, acl_has_role,
    yield_id, parse_h160,
  }

  -- `TransferMessage::calculate_storage_account_id`.
  unfoldable pub calculate_storage_account_id : TransferMessage → Action AccountId
  calculate_storage_account_id m =
      expect
        (codecs.parse_account_id
          (codecs.hex_encode (codecs.sha256 (storage_account_borsh (storage_account_from m)))))
        "called `Result::unwrap()` on an `Err` value"

  unfoldable pub burn_and_log : TransferMessage → OmniAddress → Action ℕ
  burn_and_log m (OmniAddress.near token) = do
    burn_tokens_if_needed env token m.amount
    log_event (OmniBridgeEvent.init_transfer_event m)
    pure 0
  burn_and_log m _ = pure m.amount

  unfoldable pub finish_init : TransferMessage → Result (Unit {0}) → Action ℕ
  finish_init m (ok _) = burn_and_log m m.token
  finish_init m (err _) = pure m.amount

  -- The result is the amount to give back to the sender.
  unfoldable pub init_transfer_internal : TransferMessage → AccountId → Action ℕ
  init_transfer_internal m storage_owner = do
    cost ← add_transfer_message env m storage_owner
    paid ← try_update_storage_balance storage_owner (saturating_add cost m.fee.native_fee) 0
    finish_init m paid

  unfoldable pub yield_init : TransferMessage → AccountId → Action (Returned ℕ)
  yield_init m message_account = do
    cost ← add_promise env message_account yield_id
    update_storage_balance current cost 0
    pure (Returned.promise_index m message_account signer)

  unfoldable pub run_init : TransferMessage → Action (Returned ℕ)
  run_init m = do refund ← init_transfer_internal m signer; pure (Returned.value refund)

  -- The second half of the condition is read only if the message account did not pay.
  unfoldable pub storage_paid : Result (Unit {0}) → ℕ → ℕ → Action Bool
  storage_paid (ok _) required native_fee = pure true
  storage_paid (err _) required native_fee = do
    has_balance ← has_storage_balance signer (saturating_add required native_fee)
    pure (
        has_balance
        && (nat_beq native_fee 0 || not (acl_has_role Role.native_fee_restricted signer)))

  unfoldable pub init_transfer : AccountId → AccountId → ℕ → InitTransferMsg → Action (Returned ℕ)
  init_transfer sender_id token_id amount msg = do
    require (not (get_chain msg.recipient == ChainKind.near)) "ERR_INVALID_RECIPIENT_CHAIN"
    origin_nonce ← bump_origin_nonce
    destination_nonce ← get_next_destination_nonce (get_chain msg.recipient)
    let m : TransferMessage = record {
      origin_nonce = origin_nonce;
      token = OmniAddress.near token_id;
      amount = amount;
      recipient = msg.recipient;
      fee = record { fee = msg.fee; native_fee = msg.native_token_fee };
      sender = OmniAddress.near sender_id;
      msg = unwrap_or msg.msg "";
      destination_nonce = destination_nonce;
      origin_transfer_id = none;
    }
    require (ltb msg.fee amount) "ERR_INVALID_FEE"
    let required = required_balance_for_init_transfer_message env m
    message_account ← calculate_storage_account_id m
    transferred ←
        try_to_transfer_balance_from_message_account message_account msg.native_token_fee signer
          required
    paid ← storage_paid transferred required msg.native_token_fee
    if paid then run_init m else yield_init m message_account

  unfoldable pub resume_paid : TransferMessage → AccountId → Result (Unit {0}) → Action ℕ
  resume_paid m storage_owner (ok _) = init_transfer_internal m storage_owner
  resume_paid m storage_owner (err _) = pure m.amount

  -- A timeout of the yielded call changes only a log line.
  unfoldable pub init_transfer_resume : TransferMessage → AccountId → AccountId → Action ℕ
  init_transfer_resume m message_account storage_owner = do
    is_private env
    deny_deposit env
    remove_promise env message_account
    let required = required_balance_for_init_transfer env (some m.msg)
    transferred ←
        try_to_transfer_balance_from_message_account message_account m.fee.native_fee storage_owner
          required
    resume_paid m storage_owner transferred

  unfoldable pub finish_withdraw_v2 : AccountId → ℕ → String → Action Unit
  finish_withdraw_v2 sender_id amount recipient = do
    deny_deposit env
    let token_id = predecessor
    deployed ← view (λ c. c.deployed_tokens token_id)
    require deployed "require! assertion failed"
    origin_nonce ← bump_origin_nonce
    destination_nonce ← get_next_destination_nonce ChainKind.eth
    receiver ← expect (parse_h160 recipient) "Error on recipient parsing"
    let m : TransferMessage = record {
      origin_nonce = origin_nonce;
      token = OmniAddress.near token_id;
      amount = amount;
      recipient = OmniAddress.eth receiver;
      fee = record { fee = 0; native_fee = 0 };
      sender = OmniAddress.near sender_id;
      msg = "";
      destination_nonce = destination_nonce;
      origin_transfer_id = none;
    }
    cost ← add_transfer_message env m sender_id
    update_storage_balance current cost 0
    log_event (OmniBridgeEvent.init_transfer_event m)

  unfoldable pub set_fee : TransferMessageStorageValue → Fee → Action Unit
  set_fee transfer fee = do
    let m = transfer.message
    require (leb m.fee.fee fee.fee && ltb fee.fee m.amount) "ERR_INVALID_FEE"
    require (nat_beq fee.fee m.fee.fee || OmniAddress.near predecessor == m.sender)
        "Only sender can update token fee"
    diff_native_fee ← expect (checked_sub fee.native_fee m.fee.native_fee) "ERR_LOWER_FEE"
    require (nat_beq diff_native_fee attached_deposit) "ERR_INVALID_ATTACHED_DEPOSIT"
    let updated : TransferMessage = record m { fee = fee }
    insert_raw_transfer updated transfer.owner
    log_event (OmniBridgeEvent.update_fee_event updated)

  unfoldable pub update_transfer_fee : TransferId → UpdateFee → Action Unit
  update_transfer_fee id (UpdateFee.fee fee) = do
    pause_except env "update_transfer_fee" []
    transfer ← get_transfer_message_storage id
    set_fee transfer fee
  update_transfer_fee id (UpdateFee.proof _) = do
    pause_except env "update_transfer_fee" []
    panic "TODO"
