-- ===== src/Bridge/Connector.antt =====
-- Transfers to UTXO chains, handed to the chain's connector: near/omni-bridge/src/btc.rs.
use omni_bridge.Prelude.{
  ℕ, String, Bool, true, false, Option, none, some, List, [], ◌∷◌, leb, ltb, nat_beq, unwrap_or,
  if◌then◌else◌,
}
use omni_bridge.Prelude.Equality.{◌==◌, string_eq}
use omni_bridge.Prelude.Maps.{insert}
use omni_bridge.Prelude.Words.{saturating_add, saturating_mul}
use omni_bridge.Types.Chain.{ChainKind, chain_eq}
use omni_bridge.Types.Codecs.{AccountId}
use omni_bridge.Types.Address.{get_utxo_address, new_zero}
use omni_bridge.Types.Transfer.{Fee, TransferId, TransferMessage, get_destination_chain}
use omni_bridge.Types.Messages.{TokenReceiverMessage, TxOut}
use omni_bridge.Host.{Env, Role, Promise, Call, Returned}
use omni_bridge.Exec.{pure, panic, expect, unwrap, require, skip, ◌>>=◌, ◌>>◌}
use omni_bridge.Bridge.State.{Action, update, detach}
use omni_bridge.Bridge.Guards.{pause_except, access_control_any, is_private, deny_deposit}
use omni_bridge.Bridge.Decimals.{sub_u128}
use omni_bridge.Bridge.Balances.{nep141_deposit}
use omni_bridge.Bridge.Records.{
  remove_transfer_message, insert_raw_transfer, get_transfer_message_storage,
}
use omni_bridge.Bridge.Tokens.{
  one_yocto, get_token_id, get_utxo_chain_token, get_utxo_chain_connector, add_token, token_bytes,
}
use omni_bridge.Bridge.Sign.{check_fee}
use omni_bridge.Bridge.Claim.{send_fee_internal}

module _ (env : Env) where
  open env use {
    predecessor, current, attached_deposit, parse_token_receiver_message, parse_max_gas_fee, codecs,
    storage_byte_cost,
  }

  -- The message of a transfer to a UTXO chain may name the gas fee that the user allows.
  unfoldable pub check_gas_fee : String → Option ℕ → Action Unit
  check_gas_fee msg max_gas_fee = if msg == "" then skip else (do
    allowed ← expect (parse_max_gas_fee msg) "Invalid Transfer MSG for UTXO chain"
    given ← expect max_gas_fee "max_gas_fee is missing"
    require (nat_beq given allowed) "Invalid max gas fee")

  unfoldable pub check_withdraw : TransferMessage → String → TokenReceiverMessage → Action Unit
  check_withdraw m utxo_address (TokenReceiverMessage.withdraw target _ _ max_gas_fee) = do
    require (utxo_address == target) "Incorrect target address"
    check_gas_fee m.msg max_gas_fee
  check_withdraw m utxo_address TokenReceiverMessage.deposit_protocol_fee =
      panic "Invalid message type"

  unfoldable pub submit_transfer_to_utxo_chain_connector :
      TransferId → String → Option AccountId → Option Fee → Action Promise
  submit_transfer_to_utxo_chain_connector id msg fee_recipient fee = do
    pause_except env "submit_transfer_to_utxo_chain_connector"
        (Role.dao ∷ Role.unrestricted_relayer ∷ [])
    transfer ← get_transfer_message_storage id
    let m = transfer.message
    message ← expect (parse_token_receiver_message msg) "INVALID MSG"
    amount ← sub_u128 m.amount m.fee.fee
    utxo_address ← expect (get_utxo_address m.recipient) "Invalid destination chain"
    check_withdraw m utxo_address message
    check_fee fee m.fee
    let chain = get_destination_chain m
    btc_account_id ← get_utxo_chain_token chain
    token ← get_token_id m.token
    require (token == btc_account_id) "Only the native token of this UTXO chain can be transferred."
    remove_transfer_message env id
    connector ← get_utxo_chain_connector chain
    pure (
        Promise.then
          (Promise.call btc_account_id one_yocto (Call.ft_transfer_call connector amount msg))
          (Promise.call current 0 (
            Call.submit_transfer_to_btc_connector_callback m transfer.owner
              (unwrap_or fee_recipient predecessor))))

  -- The amount that the connector used, or nothing for `Err(PromiseError)`.
  unfoldable pub some_used : Option ℕ → Bool
  some_used none = false
  some_used (some used) = ltb 0 used

  unfoldable pub conclude : Bool → TransferMessage → AccountId → AccountId → Action (Returned Unit)
  conclude true m owner fee_recipient = send_fee_internal env m fee_recipient m.fee.fee
  conclude false m owner fee_recipient = do insert_raw_transfer m owner; pure (Returned.value tt)

  unfoldable pub submit_transfer_to_btc_connector_callback :
      TransferMessage → AccountId → AccountId → Option ℕ → Action (Returned Unit)
  submit_transfer_to_btc_connector_callback m owner fee_recipient call_result = do
    is_private env
    deny_deposit env
    conclude (some_used call_result) m owner fee_recipient

  unfoldable pub add_utxo_chain_connector : ChainKind → AccountId → AccountId → ℕ → Action Unit
  add_utxo_chain_connector chain connector token_id decimals = do
    access_control_any env (Role.dao ∷ [])
    address ← unwrap (new_zero codecs chain) "ERR_FAILED_TO_GET_ZERO_ADDRESS"
    add_token token_id address decimals decimals
    update (λ c. record c {
      utxo_chain_connectors =
          insert chain (record { connector = connector; token_id = token_id })
            c.utxo_chain_connectors;
    })
    let required =
        saturating_add nep141_deposit
          (saturating_mul storage_byte_cost (token_bytes env token_id address))
    require (leb required attached_deposit)
        "ERROR: The deposit is not sufficient to cover the storage."
    detach (Promise.call token_id nep141_deposit (Call.storage_deposit current))

  unfoldable pub rbf_increase_gas_fee : ChainKind → String → List TxOut → Action Promise
  rbf_increase_gas_fee chain original_btc_pending_verify_id output = do
    access_control_any env (Role.dao ∷ Role.rbf_operator ∷ [])
    connector ← get_utxo_chain_connector chain
    pure (Promise.call connector 0 (Call.withdraw_rbf original_btc_pending_verify_id output))
