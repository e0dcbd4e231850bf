-- ===== src/Bridge/Fin.antt =====
-- Transfers that arrive from another chain: `fin_transfer` and its callbacks, of
-- near/omni-bridge/src/lib.rs.
pub mod Once
use omni_bridge.Prelude.{
  ℕ, zero, suc, ◌+◌, String, Bool, true, false, not, ◌&&◌, Option, none, some, List, [], ◌∷◌, leb,
  ltb, length, get_elem?, if◌then◌else◌,
}
use omni_bridge.Prelude.Equality.{◌==◌, string_eq, option_eq}
use omni_bridge.Prelude.Words.{saturating_add}
use omni_bridge.Types.Codecs.{AccountId}
use omni_bridge.Types.Address.{OmniAddress, get_chain, is_utxo_address, address_eq}
use omni_bridge.Types.Transfer.{
  Fee, TransferMessage, FastTransfer, FastTransferId, FastTransferStatus, get_transfer_id,
  get_origin_chain, from_transfer,
}
use omni_bridge.Types.Messages.{
  FinTransferArgs, StorageDepositAction, ProverResult, InitTransferMessage, OmniBridgeEvent,
}
use omni_bridge.Host.{Env, Role, Promise, Call, Returned}
use omni_bridge.Exec.{pure, panic, expect, require, skip, ◌>>=◌, ◌>>◌}
use omni_bridge.Bridge.State.{Action, view, detach, log_event}
use omni_bridge.Bridge.Guards.{pause_except, is_private, deny_deposit}
use omni_bridge.Bridge.Decimals.{denormalize_amount, denormalize_fee, sub_u128}
use omni_bridge.Bridge.Balances.{update_storage_balance}
use omni_bridge.Bridge.Records.{
  get_next_destination_nonce, add_fin_transfer, remove_fin_transfer, fast_transfer_id,
  get_fast_transfer_status, remove_fast_transfer, mark_fast_transfer_as_finalised,
  add_transfer_message,
}
use omni_bridge.Bridge.Tokens.{
  one_yocto, get_token_id, get_decimals, get_native_token_id, get_utxo_chain_token,
  decode_prover_result, check_storage_balance_result, is_refund_required, burn_tokens_if_needed,
  send_tokens, check_or_pay_ft_storage, verify_proof,
}
use omni_bridge.Bridge.Settle.{process_fin_transfer_to_near, process_fin_transfer_to_other_chain}

unfoldable pub check_factory : OmniAddress → String → Action Unit
check_factory emitter message = do
  factory ← view (λ c. c.factories (get_chain emitter))
  require (factory == some emitter) message

unfoldable pub init_transfer_proof : Option ProverResult → Action InitTransferMessage
init_transfer_proof (some (ProverResult.init_transfer m)) = pure m
init_transfer_proof _ = panic "Invalid proof message"

-- The message in NEAR's decimals.
unfoldable pub arrived : InitTransferMessage → Action TransferMessage
arrived proof = do
  decimals ← get_decimals proof.token
  destination_nonce ← get_next_destination_nonce (get_chain proof.recipient)
  amount ← denormalize_amount proof.amount decimals
  fee ← denormalize_fee proof.fee decimals
  pure (record {
    origin_nonce = proof.origin_nonce;
    token = proof.token;
    amount = amount;
    recipient = proof.recipient;
    fee = fee;
    sender = proof.sender;
    msg = proof.msg;
    destination_nonce = destination_nonce;
    origin_transfer_id = none;
  })

module _ (env : Env) where
  open env use {predecessor, current, attached_deposit}

  -- The loop over the storage deposits.
  unfoldable pub pay_storage : List StorageDepositAction → Promise → ℕ → Action (Promise × ℕ)
  pay_storage [] main deposit = pure (main, deposit)
  pay_storage (action ∷ actions) main deposit = do
    (paid, left) ← check_or_pay_ft_storage env action deposit
    pay_storage actions (Promise.and main paid) left

  unfoldable pub fin_transfer : FinTransferArgs → Action Promise
  fin_transfer args = do
    pause_except env "fin_transfer" (Role.dao ∷ Role.unrestricted_relayer ∷ [])
    require (leb (length args.storage_deposit_actions) 3)
        "Invalid len of accounts for storage deposit"
    proof ← verify_proof env args.chain_kind args.prover_args
    (main, deposit) ← pay_storage args.storage_deposit_actions proof attached_deposit
    pure (
        Promise.then main (
          Promise.call current deposit
            (Call.fin_transfer_callback args.storage_deposit_actions predecessor)))

  unfoldable pub deliver :
      AccountId → List StorageDepositAction → TransferMessage → OmniAddress → Action (Returned ℕ)
  deliver caller actions m (OmniAddress.near recipient) = do
    p ← process_fin_transfer_to_near env recipient caller m actions
    pure (Returned.promise p)
  deliver caller actions m _ = do
    process_fin_transfer_to_other_chain env caller m
    pure (Returned.value m.destination_nonce)

  unfoldable pub fin_transfer_callback : List StorageDepositAction → AccountId → Action (Returned ℕ)
  fin_transfer_callback actions caller = do
    is_private env
    result ← decode_prover_result env 0
    proof ← init_transfer_proof result
    check_factory proof.emitter_address "Unknown factory"
    m ← arrived proof
    deliver caller actions m m.recipient

  -- The fees of a finished transfer: minted, or taken from what the bridge holds.
  unfoldable pub pay_fee : AccountId → AccountId → ℕ → Action Unit
  pay_fee token fee_recipient fee =
      if ltb 0 fee
      then (do
        deployed ← view (λ c. c.deployed_tokens token)
        detach (
            if deployed
            then Promise.call token 0 (Call.mint fee_recipient fee none)
            else Promise.call token one_yocto (Call.ft_transfer fee_recipient fee)))
      else skip

  unfoldable pub pay_native_fee : TransferMessage → AccountId → Action Unit
  pay_native_fee m fee_recipient =
      if ltb 0 m.fee.native_fee
      then (do
        native_token ← get_native_token_id env (get_origin_chain m)
        detach (Promise.call native_token 0 (Call.mint fee_recipient m.fee.native_fee none)))
      else skip

  unfoldable pub resolve_fin :
      Bool → AccountId → TransferMessage → AccountId → AccountId → Action Unit
  resolve_fin true token m fee_recipient storage_owner = do
    amount ← sub_u128 m.amount m.fee.fee
    burn_tokens_if_needed env token amount
    remove_fin_transfer env (get_transfer_id m) storage_owner
    log_event (OmniBridgeEvent.failed_fin_transfer_event m)
  resolve_fin false token m fee_recipient storage_owner = do
    pay_fee token fee_recipient m.fee.fee
    pay_native_fee m fee_recipient
    log_event (OmniBridgeEvent.fin_transfer_event m)

  unfoldable pub fin_transfer_send_tokens_callback :
      TransferMessage → AccountId → Bool → AccountId → Action Unit
  fin_transfer_send_tokens_callback m fee_recipient is_ft_transfer_call storage_owner = do
    is_private env
    deny_deposit env
    token ← get_token_id m.token
    refunded ← is_refund_required env is_ft_transfer_call
    resolve_fin refunded token m fee_recipient storage_owner
