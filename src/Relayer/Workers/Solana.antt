-- ===== src/Relayer/Workers/Solana.antt =====
-- Events of Solana: omni-relayer/src/workers/solana.rs.
use omni_bridge.Prelude.{ℕ, String, none, some, List}
use omni_bridge.Prelude.Result.{Result, ok, err}
use omni_bridge.Types.Chain.{ChainKind}
use omni_bridge.Types.Address.{get_chain, new_from_slice}
use omni_bridge.Types.Messages.{StorageDepositAction, ProofArgs}
use omni_bridge.Provers.Evm.{ProofKind}
use omni_bridge.Relayer.Events.{
  EventAction, retry, remove, Transfer, SolanaTransfer, FinTransfer, DeployToken,
}
use omni_bridge.Relayer.Services.{Services, Finalisation}
use omni_bridge.Relayer.Task.{
  Job, pure, bail, ask, lift, lift_sdk, or_return, or_bail, ◌>>=◌, ◌>>◌, reserve_near_nonce,
}
use omni_bridge.Relayer.Redis.{stuck_events_key}
use omni_bridge.Relayer.Workers.Common.{included, unless_finalised, on_answer, add_new}
use omni_bridge.Relayer.Workers.Near.{with_fee, on_near_error}
use omni_bridge.Relayer.Workers.Storage.{get_storage_deposit_actions}
use omni_bridge.Relayer.Workers.Fast.{catch_retry}

module _ (services : Services) where
  open services use {Value, omni_connector, json, config, codecs, print_key}

  fee_checked : SolanaTransfer → Job services EventAction → Job services EventAction
  fee_checked t rest = elim config.api_url [
    | none ↦ rest
    | some _ ↦ do
      token ← lift (new_from_slice codecs ChainKind.sol t.token)
      with_fee services t.sender t.recipient token
          (record { origin_chain = get_chain t.sender; origin_nonce = t.sequence })
          (record { fee = t.fee; native_fee = t.native_fee }) rest
  ]

  -- The answer of the storage look-ups: a transfer whose deposits cannot be found is put aside.
  with_actions :
      String
      → SolanaTransfer
      → Result (List StorageDepositAction)
      → (List StorageDepositAction → Job services EventAction)
      → Job services EventAction
  with_actions key t (ok actions) k = k actions
  with_actions key t (err _) k = do
    add_new services stuck_events_key key (json.transfer_value (Transfer.solana t))
    bail "Failed to get storage deposit actions"

  -- A task whose error is a value.
  attempt : {A : Type 0} → Job services A → Job services (Result A)
  attempt job s = let (result, after) = job s in (ok result, after)

  finalise : SolanaTransfer → String → List StorageDepositAction → Job services EventAction
  finalise t vaa actions = do
    nonce ← reserve_near_nonce services
    sent ← ask services (
        omni_connector.fin_transfer (
          Finalisation.near_with_vaa ChainKind.sol (get_chain t.recipient) actions vaa
            (included nonce)))
    on_answer sent (λ _. pure remove) (λ e. on_near_error services e "Failed to finalize transfer")

  with_vaa : String → ℕ → (String → Job services EventAction) → Job services EventAction
  with_vaa emitter sequence k = do
    found ← ask services (omni_connector.wormhole_get_vaa config.solana_chain_id emitter sequence)
    or_return found retry k

  start : String → SolanaTransfer → Job services EventAction
  start key t = do
    found ←
        ask services (
          omni_connector.is_transfer_finalised (some (get_chain t.sender)) ChainKind.near
            t.sequence)
    unless_finalised found "Transfer is already finalised" (
        fee_checked t (
          with_vaa (print_key t.emitter) t.sequence λ vaa. do
            fee_recipient ← lift_sdk omni_connector.near_account_id
            actions ← attempt (
                get_storage_deposit_actions services omni_connector ChainKind.sol t.recipient
                  fee_recipient (print_key t.token) t.fee t.native_fee)
            with_actions key t actions (finalise t vaa)))

  unfoldable pub process_init_transfer_event : String → Transfer → Job services EventAction
  unfolding fee_checked with_actions attempt finalise with_vaa start
  process_init_transfer_event key (Transfer.solana t) = start key t
  process_init_transfer_event key _ = bail "Expected SolanaInitTransferWithTimestamp"

  with_prover_args :
      ProofKind → String → ℕ → (ProofArgs → Job services EventAction) → Job services EventAction
  with_prover_args kind emitter sequence k = with_vaa emitter sequence λ vaa. do
    args ← or_bail (services.wormhole_args kind vaa) "Failed to serialize prover args"
    k (record { chain_kind = ChainKind.sol; prover_args = args })

  unfoldable pub process_fin_transfer_event : FinTransfer → Job services EventAction
  unfolding with_vaa with_prover_args
  process_fin_transfer_event (FinTransfer.solana emitter sequence) =
      with_prover_args ProofKind.fin_transfer emitter sequence λ args. do
        nonce ← reserve_near_nonce services
        sent ← ask services (omni_connector.near_claim_fee args (included nonce))
        on_answer sent (λ _. pure remove) (λ e. on_near_error services e "Failed to claim fee")
  process_fin_transfer_event (FinTransfer.evm _) = bail "Expected Solana FinTransfer"

  -- Here a failure to get a nonce is no error.
  unfoldable pub process_deploy_token_event : DeployToken → Job services EventAction
  unfolding with_vaa with_prover_args
  process_deploy_token_event (DeployToken.solana emitter sequence) =
      with_prover_args ProofKind.deploy_token emitter sequence λ args.
        catch_retry services (reserve_near_nonce services) λ nonce. do
          sent ← ask services (omni_connector.bind_token args (included nonce))
          on_answer sent (λ _. pure remove) (λ e. on_near_error services e "Failed to bind token")
  process_deploy_token_event (DeployToken.evm _) = bail "Expected Solana DeployToken"
