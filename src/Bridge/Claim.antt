-- ===== src/Bridge/Claim.antt =====
-- Claiming the fee of a transfer that was finished on another chain:
-- near/omni-bridge/src/lib.rs.
pub mod Conservation
pub mod Once
use omni_bridge.Prelude.{
  ℕ, String, Bool, true, false, not, Option, none, some, ltb, nat_beq, [], ◌∷◌, if◌then◌else◌,
}
use omni_bridge.Prelude.Equality.{◌==◌, string_eq}
use omni_bridge.Types.Chain.{ChainKind, chain_eq, is_utxo_chain}
use omni_bridge.Types.Codecs.{AccountId}
use omni_bridge.Types.Transfer.{
  Fee, TransferMessage, FastTransfer, FastTransferId, FastTransferStatus, UnifiedTransferId,
  get_origin_chain, get_destination_chain, from_transfer,
}
use omni_bridge.Types.Messages.{ProofArgs, ProverResult, FinTransferMessage, OmniBridgeEvent}
use omni_bridge.Host.{Env, Role, Promise, Call, Returned}
use omni_bridge.Exec.{pure, panic, expect, require, skip, ◌>>=◌, ◌>>◌}
use omni_bridge.Bridge.State.{Action, view, detach, log_event}
use omni_bridge.Bridge.Guards.{pause_except, is_private}
use omni_bridge.Bridge.Decimals.{denormalize_amount, sub_u128}
use omni_bridge.Bridge.Records.{
  remove_transfer_message, fast_transfer_id, get_fast_transfer_status, remove_fast_transfer,
}
use omni_bridge.Bridge.Tokens.{
  one_yocto, get_token_address, get_token_id, get_decimals, get_native_token_id, verify_proof,
}
use omni_bridge.Bridge.Fin.{check_factory}

-- The chain on which a transfer began, which for one made by a fast transfer is that of the
-- original.
unfoldable pub fee_origin_chain : TransferMessage → ChainKind
fee_origin_chain m = elim m.origin_transfer_id [
  | none ↦ get_origin_chain m
  | some id ↦ id.origin_chain
]

module _ (env : Env) where
  open env use {predecessor, current, attached_deposit}

  unfoldable pub send_native_fee : TransferMessage → AccountId → Action Unit
  send_native_fee m fee_recipient =
      let chain = fee_origin_chain m in
      if nat_beq m.fee.native_fee 0
      then skip
      else if is_utxo_chain chain
      then panic "Can't have native fee for transfers from UTXO chains"
      else if chain == ChainKind.near
      then detach (Promise.transfer fee_recipient m.fee.native_fee)
      else (do
        native_token ← get_native_token_id env chain
        detach (Promise.call native_token 0 (Call.mint fee_recipient m.fee.native_fee none)))

  unfoldable pub token_fee_promise : Bool → AccountId → AccountId → ℕ → Promise
  token_fee_promise true token fee_recipient fee =
      Promise.call token 0 (Call.mint fee_recipient fee none)
  token_fee_promise false token fee_recipient fee =
      Promise.call token one_yocto (Call.ft_transfer fee_recipient fee)

  unfoldable pub send_fee_internal : TransferMessage → AccountId → ℕ → Action (Returned Unit)
  send_fee_internal m fee_recipient token_fee = do
    send_native_fee m fee_recipient
    token ← get_token_id m.token
    log_event (OmniBridgeEvent.claim_fee_event m)
    deployed ← view (λ c. c.deployed_tokens token)
    pure (
        if ltb 0 token_fee
        then Returned.promise (token_fee_promise deployed token fee_recipient token_fee)
        else Returned.value tt)

  unfoldable pub claim_fee : ProofArgs → Action Promise
  claim_fee args = do
    pause_except env "claim_fee" (Role.dao ∷ Role.unrestricted_relayer ∷ [])
    proof ← verify_proof env args.chain_kind args.prover_args
    pure (
        Promise.then proof
          (Promise.call current attached_deposit (Call.claim_fee_callback predecessor)))

  unfoldable pub fin_transfer_proof : Option ProverResult → Action FinTransferMessage
  fin_transfer_proof (some (ProverResult.fin_transfer m)) = pure m
  fin_transfer_proof _ = panic "Invalid proof message"

  unfoldable pub drop_finalised : FastTransferId → Option FastTransferStatus → Action Unit
  drop_finalised id none = skip
  drop_finalised id (some status) = do
    require status.finalised "ERR_FAST_TRANSFER_NOT_FINALISED"
    remove_fast_transfer env id

  -- The fee of a fast transfer is due only once its first leg is finalised.
  unfoldable pub close_fast_transfer : TransferMessage → Option UnifiedTransferId → Action Unit
  close_fast_transfer m none = skip
  close_fast_transfer m (some origin_id) = do
    token ← get_token_id m.token
    let f : FastTransfer = record {
      transfer_id = origin_id;
      token_id = token;
      amount = m.amount;
      fee = m.fee;
      recipient = m.recipient;
      msg = m.msg;
    }
    status ← get_fast_transfer_status (fast_transfer_id env f)
    drop_finalised (fast_transfer_id env f) status

  -- What is left of the amount after what was paid out on the destination chain.
  unfoldable pub fee_left : TransferMessage → ℕ → Action ℕ
  fee_left m finished_amount = do
    token ← get_token_id m.token
    found ← view (λ c. get_token_address c (get_destination_chain m) token)
    token_address ← expect found "ERR_FAILED_TO_GET_TOKEN_ADDRESS"
    decimals ← get_decimals token_address
    denormalized_amount ← denormalize_amount finished_amount decimals
    sub_u128 m.amount denormalized_amount

  unfoldable pub claim_fee_callback : AccountId → Option ProverResult → Action (Returned Unit)
  claim_fee_callback caller call_result = do
    is_private env
    proof ← fin_transfer_proof call_result
    fee_recipient ← expect proof.fee_recipient "ERR_FEE_RECIPIENT_NOT_SET_OR_EMPTY"
    require (fee_recipient == caller) "ERR_ONLY_FEE_RECIPIENT_CAN_CLAIM"
    check_factory proof.emitter_address "ERR_UNKNOWN_FACTORY"
    m ← remove_transfer_message env proof.transfer_id
    close_fast_transfer m m.origin_transfer_id
    fee ← fee_left m proof.amount
    send_fee_internal m fee_recipient fee
