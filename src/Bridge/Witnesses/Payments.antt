-- ===== src/Bridge/Witnesses/Payments.antt =====
-- Signing, fees and their claims on concrete data.
use omni_bridge.Prelude.{ℕ, ◌≡◌, refl, none, some, [], ◌∷◌, ◌≤◌, ◌<◌, ◌+◌, ◌*◌, arith}
use omni_bridge.Prelude.Equality.{string_eq}
use omni_bridge.Prelude.Maps.{insert}
use omni_bridge.Prelude.Result.{Result, ok}
use omni_bridge.Types.Chain.{ChainKind, chain_eq}
use omni_bridge.Types.Address.{OmniAddress, zeros, address_beq, address_eq}
use omni_bridge.Types.Transfer.{Fee, TransferMessage, transfer_id_eq, get_transfer_id}
use omni_bridge.Types.Messages.{
  FinTransferMessage, ProverResult, UpdateFee, TransferMessagePayload, PayloadType, OmniBridgeEvent,
}
use omni_bridge.Types.Stored.{
  Decimals, into_main, TransferMessageStorage, TransferMessageStorageValue,
}
use omni_bridge.Host.{Returned}
use omni_bridge.Exec.{◌>>=◌}
use omni_bridge.Bridge.State.{State, new, update, view, detach, log_event}
use omni_bridge.Bridge.Guards.{is_private, pause_except, has_any_role}
use omni_bridge.Bridge.Decimals.{scale, normalize_amount, denormalize_amount}
use omni_bridge.Bridge.Decimals.Conversion.{IsScale}
use omni_bridge.Bridge.Balances.{set_balance}
use omni_bridge.Bridge.Records.{get_transfer_message_storage, insert_raw_transfer}
use omni_bridge.Bridge.Tokens.{get_token_id, get_decimals}
use omni_bridge.Bridge.Sign.{transfer_payload}
use omni_bridge.Bridge.Claim.{fee_left}
use omni_bridge.Bridge.Claim.Conservation.{SameRegistry-refl, fee_left-transfer_payload}
use omni_bridge.Bridge.Init.{update_transfer_fee, set_fee}
use omni_bridge.Bridge.Init.Fees.{IsFeeChange, update_transfer_fee-ok}
use omni_bridge.Bridge.Balances.{credit}
use omni_bridge.Bridge.Records.{remove_transfer_message, transfer_cost, record_cost}
use omni_bridge.Bridge.Fin.{check_factory}
use omni_bridge.Bridge.Claim.{
  fin_transfer_proof, close_fast_transfer, send_fee_internal, send_native_fee, fee_origin_chain,
  token_fee_promise, claim_fee_callback,
}
use omni_bridge.Bridge.Claim.Once.{claim_fee_callback-once}
use omni_bridge.Bridge.Witnesses.Sample.{
  callback_env, alice_env, token_decimals, message, contract, state, returned, final,
}

-- The transfer of 12 345 with a fee of 45 is signed for 123 units of the destination.
abbrev payload : TransferMessagePayload
payload = record {
  prefix = PayloadType.transfer_message;
  destination_nonce = 1;
  transfer_id = get_transfer_id message;
  token_address = OmniAddress.eth (zeros 20);
  amount = 123;
  recipient = OmniAddress.eth (zeros 20);
  fee_recipient = some "relayer";
}

payload_run :
    transfer_payload callback_env (get_transfer_id message) message (some "relayer") state
    ≡ ok (payload, state)
unfolding transfer_payload get_token_id get_decimals normalize_amount scale ◌>>=◌ view
payload_run = refl

fee_left-transfer_payload_example :
    (d : Decimals) × (factor : ℕ) × (left : ℕ) × (some token_decimals ≡ some d)
    × IsScale d factor
    × (fee_left callback_env message 123 state ≡ ok (left, state))
    × (123 * factor + left ≡ 12_345)
    × (45 ≤ left)
    × (left < 45 + factor)
fee_left-transfer_payload_example =
    fee_left-transfer_payload callback_env (get_transfer_id message) message (some "relayer") state
      state (omega arith) (SameRegistry-refl state) payload_run

-- `alice` raises both fees of her transfer, and pays one yocto for the native one.
abbrev new_fee : Fee
new_fee = record { fee = 50; native_fee = 11 }

abbrev updated_message : TransferMessage
updated_message = record message { fee = new_fee }

abbrev fee_state : State
fee_state = record state {
  contract = record contract {
    pending_transfers =
        insert (get_transfer_id message)
          (TransferMessageStorage.v2 (record { message = updated_message; owner = "alice" }))
          contract.pending_transfers;
  };
  events = OmniBridgeEvent.update_fee_event updated_message ∷ [];
}

fee_run :
    update_transfer_fee alice_env (get_transfer_id message) (UpdateFee.fee new_fee) state
    ≡ ok (tt, fee_state)
unfolding update_transfer_fee set_fee pause_except has_any_role get_transfer_message_storage
    into_main insert_raw_transfer address_beq ◌>>=◌ view update log_event
fee_run = refl

update_transfer_fee-ok_example :
    (stored : TransferMessageStorage) × (v : TransferMessageStorageValue) × (state.pending_transfers
        (get_transfer_id message)
      ≡ some stored)
    × (into_main stored ≡ v)
    × IsFeeChange alice_env v.message new_fee
    × (fee_state.pending_transfers (get_transfer_id v.message)
        ≡ some (
            TransferMessageStorage.v2
              (record { message = record v.message { fee = new_fee }; owner = v.owner })))
update_transfer_fee-ok_example =
    update_transfer_fee-ok alice_env (get_transfer_id message) new_fee state fee_run

abbrev claim_proof : FinTransferMessage
claim_proof = record {
  transfer_id = get_transfer_id message;
  fee_recipient = some "relayer";
  amount = 123;
  emitter_address = OmniAddress.eth (zeros 20);
}

abbrev claimed : Result (Returned Unit × State)
claimed =
    claim_fee_callback callback_env "relayer" (some (ProverResult.fin_transfer claim_proof)) state

claim_run : claimed ≡ ok (returned (Returned.value tt) claimed, final claimed)
unfolding claim_fee_callback fin_transfer_proof is_private check_factory remove_transfer_message
    credit set_balance transfer_cost record_cost into_main close_fast_transfer fee_left
    send_fee_internal send_native_fee fee_origin_chain token_fee_promise get_token_id get_decimals
    denormalize_amount scale address_beq new ◌>>=◌ view update log_event detach
claim_run = refl

claim_fee_callback-once_example :
    (claim_proof.fee_recipient ≡ some "relayer")
    × (state.factories ChainKind.eth ≡ some (OmniAddress.eth (zeros 20)))
    × ((v : TransferMessageStorage) × (state.pending_transfers (get_transfer_id message) ≡ some v))
    × ((final claimed).pending_transfers (get_transfer_id message) ≡ none)
claim_fee_callback-once_example =
    claim_fee_callback-once callback_env "relayer" claim_proof state claim_run
