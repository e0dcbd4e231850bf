-- ===== src/Bridge/Sign.antt =====
-- Signing by the MPC service, of transfers that leave NEAR and of token metadata:
-- near/omni-bridge/src/lib.rs.
use omni_bridge.Prelude.{Bool, true, false, not, ◌&&◌, Option, none, some, ltb, [], ◌∷◌}
use omni_bridge.Prelude.Equality.{◌==◌, string_eq}
use omni_bridge.Types.Codecs.{Bytes, AccountId}
use omni_bridge.Types.Transfer.{
  Fee, TransferId, TransferMessage, get_destination_chain, fee_eq, is_zero_fee,
}
use omni_bridge.Types.Messages.{
  TransferMessagePayload, MetadataPayload, PayloadType, SignatureResponse, BasicMetadata,
  OmniBridgeEvent,
}
use omni_bridge.Host.{Env, Role, Promise, Call}
use omni_bridge.Exec.{pure, expect, require, skip, on_option, ◌>>=◌, ◌>>◌}
use omni_bridge.Bridge.State.{Action, view, log_event}
use omni_bridge.Bridge.Guards.{pause_except, is_private, deny_deposit}
use omni_bridge.Bridge.Decimals.{normalize_amount, sub_u128}
use omni_bridge.Bridge.Records.{get_transfer_message, remove_transfer_message}
use omni_bridge.Bridge.Tokens.{get_token_address, get_token_id, get_decimals}

-- `if let Some(fee) = &fee { require!(&transfer_message.fee == fee, ...) }`.
unfoldable pub check_fee : Option Fee → Fee → Action Unit
check_fee none actual = skip
check_fee (some fee) actual = require (actual == fee) "Invalid fee"

-- What the signer returned, or nothing for `Err(PromiseError)`.
abbrev pub Signed : Type 0
Signed = Option SignatureResponse

module _ (env : Env) where
  open env use {attached_deposit, current, codecs, transfer_payload_borsh, metadata_payload_borsh}

  unfoldable pub sign_request : AccountId → Bytes → Promise
  sign_request mpc_signer encoded = Promise.call mpc_signer attached_deposit (
      Call.sign (record { payload = codecs.keccak256 encoded; path = "bridge-1"; key_version = 0 }))

  -- The payload of a transfer: the amount less the fee, in the decimals of the destination.
  unfoldable pub transfer_payload :
      TransferId → TransferMessage → Option AccountId → Action TransferMessagePayload
  transfer_payload id m fee_recipient = do
    token ← get_token_id m.token
    found ← view (λ c. get_token_address c (get_destination_chain m) token)
    token_address ← expect found "ERR_FAILED_TO_GET_TOKEN_ADDRESS"
    decimals ← get_decimals token_address
    net_amount ← sub_u128 m.amount m.fee.fee
    amount_to_transfer ← normalize_amount net_amount decimals
    require (ltb 0 amount_to_transfer) "Invalid amount to transfer"
    pure (record {
      prefix = PayloadType.transfer_message;
      destination_nonce = m.destination_nonce;
      transfer_id = id;
      token_address = token_address;
      amount = amount_to_transfer;
      recipient = m.recipient;
      fee_recipient = fee_recipient;
    })

  unfoldable pub sign_transfer : TransferId → Option AccountId → Option Fee → Action Promise
  sign_transfer id fee_recipient fee = do
    pause_except env "sign_transfer" (Role.dao ∷ Role.unrestricted_relayer ∷ [])
    m ← get_transfer_message id
    check_fee fee m.fee
    payload ← transfer_payload id m fee_recipient
    mpc_signer ← view (λ c. c.mpc_signer)
    pure (
        Promise.then (sign_request mpc_signer (transfer_payload_borsh payload))
          (Promise.call current 0 (Call.sign_transfer_callback payload m.fee)))

  -- A transfer without a fee is over when it is signed; any other waits for `claim_fee`.
  unfoldable pub close_free : Bool → TransferId → Action Unit
  close_free true id = do remove_transfer_message env id; skip
  close_free false id = skip

  unfoldable pub signed : Signed → TransferMessagePayload → Fee → Action Unit
  signed none payload fee = skip
  signed (some signature) payload fee = do
    close_free (is_zero_fee fee) payload.transfer_id
    log_event (OmniBridgeEvent.sign_transfer_event signature payload)

  unfoldable pub sign_transfer_callback : Signed → TransferMessagePayload → Fee → Action Unit
  sign_transfer_callback call_result payload fee = do
    is_private env
    deny_deposit env
    signed call_result payload fee

  unfoldable pub log_metadata : AccountId → Action Promise
  log_metadata token_id = do
    pause_except env "log_metadata" (Role.dao ∷ Role.unrestricted_relayer ∷ [])
    pure (
        Promise.then (Promise.call token_id 0 Call.ft_metadata)
          (Promise.call current attached_deposit (Call.log_metadata_callback token_id)))

  unfoldable pub log_metadata_callback : BasicMetadata → AccountId → Action Promise
  log_metadata_callback metadata token_id = do
    is_private env
    require (not (metadata.name == "") && not (metadata.symbol == "")) "ERR_INVALID_METADATA"
    let payload : MetadataPayload = record {
      prefix = PayloadType.metadata;
      token = token_id;
      name = metadata.name;
      symbol = metadata.symbol;
      decimals = metadata.decimals;
    }
    mpc_signer ← view (λ c. c.mpc_signer)
    pure (
        Promise.then (sign_request mpc_signer (metadata_payload_borsh payload))
          (Promise.call current 0 (Call.sign_log_metadata_callback payload)))

  unfoldable pub sign_log_metadata_callback : Signed → MetadataPayload → Action Unit
  sign_log_metadata_callback call_result payload = do
    is_private env
    on_option call_result skip
        λ signature. log_event (OmniBridgeEvent.log_metadata_event signature payload)
