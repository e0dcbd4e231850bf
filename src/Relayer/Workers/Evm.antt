-- ===== src/Relayer/Workers/Evm.antt =====
-- Events of the EVM chains: omni-relayer/src/workers/evm.rs.
use omni_bridge.Prelude.{ℕ, String, ◌+◌, Option, none, some, List, ltb, if◌then◌else◌}
use omni_bridge.Prelude.Equality.{◌==◌}
use omni_bridge.Types.Chain.{ChainKind, chain_eq}
use omni_bridge.Types.Codecs.{Bytes, AccountId}
use omni_bridge.Types.Address.{OmniAddress, get_chain}
use omni_bridge.Types.Transfer.{TransferId, Fee, FastTransfer, FastTransferStatus, to_unified}
use omni_bridge.Types.Messages.{StorageDepositAction, ProofArgs}
use omni_bridge.Provers.Evm.{ProofKind}
use omni_bridge.Relayer.Events.{
  EventAction, retry, remove, Transfer, EvmTransfer, InitTransferLog, FinTransfer, DeployToken,
  EvmTransaction,
}
use omni_bridge.Relayer.Services.{Services, SdkError, Finalisation, TransactionOptions}
use omni_bridge.Relayer.Task.{
  Job, pure, bail, ask, lift, lift_sdk, or_return, ◌>>=◌, timestamp, reserve_near_nonce,
}
use omni_bridge.Relayer.Workers.Common.{
  is_transient, included, retry_or_bail, unless_finalised, on_answer,
}
use omni_bridge.Relayer.Workers.Near.{with_fee}
use omni_bridge.Relayer.Workers.Storage.{
  string_to_evm_omniaddress, get_token_id, get_storage_deposit_actions, construct_prover_args,
}
use omni_bridge.Relayer.Workers.Fast.{catch_retry}

module _ (services : Services) where
  open services use {Net, omni_connector, config, print_address}

  -- Before the chain is expected to be final the event waits.
  after_finality : ℕ → ℕ → Job services EventAction → Job services EventAction
  after_finality creation_timestamp expected rest = do
    current_timestamp ← timestamp services
    if ltb current_timestamp (creation_timestamp + expected) then pure retry else rest

  -- The VAA of a transaction; Ethereum is proved by its light client instead.
  with_vaa :
      ChainKind → Bytes → (Option String → Job services EventAction) → Job services EventAction
  with_vaa chain_kind tx_hash k = if chain_kind == ChainKind.eth then k none else (do
    found ← ask services (omni_connector.wormhole_get_vaa_by_tx_hash (services.print_hash tx_hash))
    or_return found retry λ vaa. k (some vaa))

  unfoldable pub on_finalise_error : SdkError → String → Job services EventAction
  on_finalise_error (SdkError.near_rpc e) message = retry_or_bail (is_transient e) message
  on_finalise_error (SdkError.light_client_not_synced _) message = pure retry
  on_finalise_error (SdkError.eth_client _) message = pure retry
  on_finalise_error _ message = bail message

  -- The errors of the two handlers below.
  unfoldable pub on_claim_error : SdkError → String → Job services EventAction
  on_claim_error (SdkError.near_rpc e) message = retry_or_bail (is_transient e) message
  on_claim_error (SdkError.light_client_not_synced _) message = pure retry
  on_claim_error _ message = bail message

  abbrev pub provided_fee : InitTransferLog → Fee
  provided_fee log = record { fee = log.fee; native_fee = log.native_fee }

  abbrev pub log_id : EvmTransfer → TransferId
  log_id t = record { origin_chain = t.chain_kind; origin_nonce = t.log.origin_nonce }

  fee_of_log_checked : EvmTransfer → Job services EventAction → Job services EventAction
  fee_of_log_checked t rest = elim config.api_url [
    | none ↦ rest
    | some _ ↦ do
      sender ← lift (string_to_evm_omniaddress services t.chain_kind (print_address t.log.sender))
      token ←
          lift (string_to_evm_omniaddress services t.chain_kind (print_address t.log.token_address))
      with_fee services sender t.log.recipient token (log_id t) (provided_fee t.log) rest
  ]

  -- A relayer that paid a fast transfer is the recipient, of the fee too.
  receivers : OmniAddress → AccountId → Option FastTransferStatus → OmniAddress × AccountId
  receivers recipient relayer none = (recipient, relayer)
  receivers recipient relayer (some status) = (OmniAddress.near status.relayer, status.relayer)

  finalisation :
      EvmTransfer
      → ChainKind
      → Option String
      → List StorageDepositAction
      → TransactionOptions
      → Finalisation
  finalisation t destination (some vaa) actions options =
      Finalisation.near_with_vaa t.chain_kind destination actions vaa options
  finalisation t destination none actions options =
      Finalisation.near_with_evm_proof t.chain_kind destination t.tx_hash actions options

  finalise_log : EvmTransfer → Option String → OmniAddress → AccountId → Job services EventAction
  finalise_log t vaa recipient fee_recipient =
      catch_retry services
        (get_storage_deposit_actions services omni_connector t.chain_kind recipient fee_recipient
          (print_address t.log.token_address) t.log.fee t.log.native_fee)
        λ actions. do
          nonce ← reserve_near_nonce services
          sent ← ask services (
              omni_connector.fin_transfer
                (finalisation t (get_chain recipient) vaa actions (included nonce)))
          on_answer sent (λ _. pure remove) (λ e. on_finalise_error e "Failed to finalize transfer")

  abbrev pub fast_transfer_of : EvmTransfer → AccountId → FastTransfer
  fast_transfer_of t token_id = record {
    transfer_id = to_unified (log_id t);
    token_id = token_id;
    amount = t.log.amount;
    fee = provided_fee t.log;
    recipient = t.log.recipient;
    msg = t.log.message;
  }

  deliver_log : EvmTransfer → Option String → Job services EventAction
  deliver_log t vaa = do
    relayer ← lift_sdk omni_connector.near_account_id
    catch_retry services
        (get_token_id services omni_connector t.chain_kind (print_address t.log.token_address))
        λ token_id. do
          found ← ask services (
              omni_connector.near_get_fast_transfer_status
                (services.fast_transfer_id (fast_transfer_of t token_id)))
          or_return found retry λ status.
              let (recipient, fee_recipient) = receivers t.log.recipient relayer status in
              finalise_log t vaa recipient fee_recipient

  start_log : EvmTransfer → Job services EventAction
  start_log t = after_finality t.creation_timestamp t.expected_finalization_time do
    found ←
        ask services (
          omni_connector.is_transfer_finalised (some t.chain_kind) ChainKind.near
            t.log.origin_nonce)
    unless_finalised found "Transfer is already finalised"
        (fee_of_log_checked t (with_vaa t.chain_kind t.tx_hash (deliver_log t)))

  unfoldable pub process_init_transfer_event : Transfer → Job services EventAction
  unfolding after_finality with_vaa fee_of_log_checked receivers finalisation finalise_log
      deliver_log start_log
  process_init_transfer_event (Transfer.evm t) = start_log t
  process_init_transfer_event _ = bail "Expected EvmInitTransferWithTimestamp"

  -- With the arguments of the prover for a transaction.
  with_prover_args :
      EvmTransaction → ProofKind → (ProofArgs → Job services EventAction) → Job services EventAction
  with_prover_args t kind k = after_finality t.creation_timestamp t.expected_finalization_time (
      with_vaa t.chain_kind t.tx_hash λ vaa. do
        found ← construct_prover_args services vaa t.tx_hash kind
        elim found [
          | none ↦ pure retry
          | some args ↦ k (record { chain_kind = t.chain_kind; prover_args = args })
        ])

  unfoldable pub process_evm_transfer_event : FinTransfer → Job services EventAction
  unfolding after_finality with_vaa with_prover_args
  process_evm_transfer_event (FinTransfer.evm t) = with_prover_args t ProofKind.fin_transfer λ args.
      do
        nonce ← reserve_near_nonce services
        sent ← ask services (omni_connector.near_claim_fee args (included nonce))
        on_answer sent (λ _. pure remove) (λ e. on_claim_error e "Failed to claim fee")
  process_evm_transfer_event (FinTransfer.solana _ _) = bail "Expected Evm FinTransfer"

  unfoldable pub process_deploy_token_event : DeployToken → Job services EventAction
  unfolding after_finality with_vaa with_prover_args
  process_deploy_token_event (DeployToken.evm t) = with_prover_args t ProofKind.deploy_token λ args.
      do
        nonce ← reserve_near_nonce services
        sent ← ask services (omni_connector.bind_token args (included nonce))
        on_answer sent (λ _. pure remove) (λ e. on_claim_error e "Failed to bind token")
  process_deploy_token_event (DeployToken.solana _ _) = bail "Expected Evm DeployToken"
