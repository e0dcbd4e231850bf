-- ===== src/Relayer/Workers/Utxo.antt =====
-- Events of the UTXO chains: omni-relayer/src/workers/utxo.rs.
use omni_bridge.Prelude.{ℕ, String, some, List, [], ◌∷◌, ltb, if◌then◌else◌}
use omni_bridge.Types.Codecs.{AccountId}
use omni_bridge.Relayer.Events.{
  EventAction, retry, remove, Transfer, UtxoToNearTransfer, SignUtxoTransaction, ConfirmedTxHash,
}
use omni_bridge.Relayer.Services.{Services, SdkError, Finalisation}
use omni_bridge.Relayer.Task.{
  Job, pure, bail, ask, lift_sdk, or_return, or_bail, ◌>>=◌, reserve_near_nonce,
}
use omni_bridge.Relayer.Workers.Common.{is_transient, included, finalised, retry_or_bail, on_answer}
use omni_bridge.Relayer.Workers.Near.{follow_up, on_near_error}
use omni_bridge.Relayer.Workers.Fast.{catch_retry}

abbrev pub withdraw_errors : List String
withdraw_errors = "Not enough blocks confirmed" ∷ []

module _ (services : Services) where
  open services use {omni_connector, json}

  -- A failure to get a nonce is no error here: the event stays.
  with_nonce : (ℕ → Job services EventAction) → Job services EventAction
  with_nonce k = catch_retry services (reserve_near_nonce services) k

  on_sync_error : SdkError → String → Job services EventAction
  on_sync_error (SdkError.near_rpc e) message = retry_or_bail (is_transient e) message
  on_sync_error (SdkError.light_client_not_synced _) message = pure retry
  on_sync_error _ message = bail message

  unfoldable pub process_near_to_utxo_init_transfer_event : Transfer → Job services EventAction
  unfolding with_nonce
  process_near_to_utxo_init_transfer_event (Transfer.near_to_utxo t) = with_nonce λ nonce. do
    sent ← ask services (
        omni_connector.near_sign_btc_transaction t.chain t.btc_pending_id t.sign_index
          (included nonce))
    on_answer sent (λ _. pure remove) (λ e. on_near_error services e "Failed to sign transaction")
  process_near_to_utxo_init_transfer_event _ = bail "Expected NearToUtxoTransfer"

  finalise_deposit : UtxoToNearTransfer → ℕ → Job services EventAction
  finalise_deposit t nonce = do
    sent ← ask services (
        omni_connector.fin_transfer
          (Finalisation.near_btc t.chain t.btc_tx_hash t.vout t.deposit_msg (included nonce)))
    on_answer sent (λ _. pure remove) (λ e. on_sync_error e "Failed to finalize transaction")

  -- The storage of the recipient is paid for first where the token wants it.
  pay_deposit : UtxoToNearTransfer → ℕ → ℕ → Job services EventAction
  pay_deposit t nonce amount =
      if ltb 0 amount
      then (do
        token ← lift_sdk (omni_connector.utxo_chain_token t.chain)
        deposited ← ask services (
            omni_connector.near_storage_deposit_for_token token amount t.deposit_msg.recipient_id
              (finalised nonce))
        or_return deposited retry λ _. with_nonce (finalise_deposit t))
      else finalise_deposit t nonce

  start_deposit : UtxoToNearTransfer → Job services EventAction
  start_deposit t = with_nonce λ nonce. do
    token ← lift_sdk (omni_connector.utxo_chain_token t.chain)
    required ←
        ask services
          (omni_connector.near_get_required_storage_deposit token t.deposit_msg.recipient_id)
    or_return required retry (pay_deposit t nonce)

  unfoldable pub process_utxo_to_near_init_transfer_event : Transfer → Job services EventAction
  unfolding with_nonce on_sync_error finalise_deposit pay_deposit start_deposit
  process_utxo_to_near_init_transfer_event (Transfer.utxo_to_near t) =
      if omni_connector.near_client_configured
      then start_deposit t
      else bail "Near bridge client is not configured"
  process_utxo_to_near_init_transfer_event _ =
      if omni_connector.near_client_configured
      then bail "Expected UtxoToNearTransfer"
      else bail "Near bridge client is not configured"

  on_broadcast_error : SdkError → Job services EventAction
  on_broadcast_error (SdkError.near_rpc e) =
      retry_or_bail (is_transient e) "Failed to finalize transaction"
  on_broadcast_error (SdkError.utxo_rpc _) = pure retry
  on_broadcast_error _ = bail "Failed to finalize transaction"

  unfoldable pub process_sign_transaction_event : SignUtxoTransaction → Job services EventAction
  unfolding on_broadcast_error
  process_sign_transaction_event event = do
    near_tx_hash ← or_bail (services.parse_hash event.near_tx_hash) "Invalid near tx hash"
    sent ←
        ask services (omni_connector.btc_fin_transfer event.chain near_tx_hash (some event.relayer))
    on_answer sent (λ _. pure remove) on_broadcast_error

  unfoldable pub process_confirmed_tx_hash :
      String → AccountId → ConfirmedTxHash → Job services EventAction
  unfolding with_nonce on_sync_error
  process_confirmed_tx_hash key signer confirmed = with_nonce λ nonce. do
    sent ← ask services (
        omni_connector.near_btc_verify_withdraw confirmed.chain confirmed.btc_tx_hash
          (included nonce))
    on_answer sent
        (λ tx_hash.
          follow_up services tx_hash signer withdraw_errors key (json.confirmed_value confirmed))
        (λ e. on_sync_error e "Failed to verify withdraw")
