-- ===== src/Relayer/Workers/Deliver.antt =====
-- Signed transfers are delivered to the other chain: `process_sign_transfer_event` of
-- omni-relayer/src/workers/near.rs, which keeps a transaction on an EVM chain for fee bumping
-- (utils/pending_transactions.rs).
use Prim.Native.String.{◌++◌}
use omni_bridge.Prelude.{
  ℕ, String, Bool, false, not, Option, none, some, List, [], ◌∷◌, ◌||◌, if◌then◌else◌, nat_beq,
  is_none,
}
use omni_bridge.Prelude.Equality.{◌==◌, string_eq, option_eq}
use omni_bridge.Types.Chain.{ChainKind, is_evm_chain}
use omni_bridge.Types.Codecs.{AccountId}
use omni_bridge.Types.Address.{OmniAddress, get_chain}
use omni_bridge.Types.Transfer.{get_transfer_id}
use omni_bridge.Types.Messages.{OmniBridgeEvent, TransferMessagePayload}
use omni_bridge.Relayer.Events.{EventAction, retry, remove, PendingTransaction, Timestamp}
use omni_bridge.Relayer.Services.{Services, SdkError, Finalisation, Evm}
use omni_bridge.Relayer.Task.{Job, pure, bail, ask, ◌>>=◌, ◌>>◌, timestamp, reserve_evm_nonce}
use omni_bridge.Relayer.Redis.{zadd}
use omni_bridge.Relayer.Workers.Common.{on_answer, unless_finalised, retry_or_bail}
use omni_bridge.Relayer.Workers.Near.{with_fee}

-- `PAUSED_ERROR`, a code of the program on Solana.
abbrev pub paused_error : ℕ
paused_error = 6008

-- The debug name of a chain in lower case.
abbrev pub chain_name : ChainKind → String
chain_name ChainKind.eth = "eth"
chain_name ChainKind.near = "near"
chain_name ChainKind.sol = "sol"
chain_name ChainKind.arb = "arb"
chain_name ChainKind.base = "base"
chain_name ChainKind.bnb = "bnb"
chain_name ChainKind.btc = "btc"
chain_name ChainKind.zcash = "zcash"
chain_name ChainKind.pol = "pol"

unfoldable pub get_pending_tx_key : ChainKind → String
get_pending_tx_key chain_kind = "pending_evm_transactions" ++ (":" ++ chain_name chain_kind)

unfoldable pub new_pending :
    String → ℕ → ChainKind → String → OmniBridgeEvent → Timestamp → PendingTransaction
new_pending tx_hash nonce chain_kind source_event_id source_event now = record {
  tx_hash = tx_hash;
  nonce = nonce;
  sent_timestamp = now;
  last_bump_timestamp = none;
  chain_kind = chain_kind;
  source_event_id = source_event_id;
  source_event = source_event;
}

module _ (services : Services) where
  open services use {omni_connector, json, config, contains, print_sdk_error}

  is_fee_bumping_enabled : ChainKind → Bool
  is_fee_bumping_enabled ChainKind.eth = elim (config.evm ChainKind.eth) [
    | none ↦ false
    | some evm ↦ not (is_none evm.fee_bumping)
  ]
  is_fee_bumping_enabled _ = false

  unfoldable pub store_pending_transaction :
      ChainKind → String → ℕ → String → OmniBridgeEvent → Job services Unit
  store_pending_transaction chain_kind tx_hash nonce source_event_id event = do
    now ← timestamp services
    zadd services (get_pending_tx_key chain_kind) nonce
        (json.write_pending (new_pending tx_hash nonce chain_kind source_event_id event now))

  -- The fee is checked again where there is an API for it.
  recheck_fee : TransferMessagePayload → Job services EventAction → Job services EventAction
  recheck_fee payload rest = elim config.api_url [
    | none ↦ rest
    | some _ ↦ do
      found ← ask services (omni_connector.near_get_transfer_message payload.transfer_id)
      on_answer found
          (λ m. with_fee services m.sender m.recipient m.token (get_transfer_id m) m.fee rest)
          (λ e.
            retry_or_bail (not (contains (print_sdk_error e) "The transfer does not exist"))
              "Transfer does not exist")
  ]

  selected : List String → String → Bool
  selected [] e = false
  selected (x ∷ xs) e = contains e x || selected xs e

  -- A failed estimate of gas: some errors are final, by the configuration.
  on_gas_error : Option Evm → String → Job services EventAction
  on_gas_error none e = bail "Failed to finalize deposit"
  on_gas_error (some evm) e =
      retry_or_bail (not (selected evm.error_selectors_to_remove e)) "Failed to finalize deposit"

  -- The configuration of a chain, if it is an EVM chain.
  evm_config : ChainKind → Option Evm
  evm_config chain_kind = if is_evm_chain chain_kind then config.evm chain_kind else none

  on_finalise_error : ChainKind → SdkError → Job services EventAction
  on_finalise_error chain_kind (SdkError.evm_gas_estimate e) =
      on_gas_error (evm_config chain_kind) e
  on_finalise_error chain_kind (SdkError.solana_rpc (some code)) =
      retry_or_bail (nat_beq code paused_error) "Failed to finalize deposit"
  on_finalise_error chain_kind _ = pure retry

  -- The transaction is sent, and remembered with its nonce if its fee may have to be raised.
  remember :
      ChainKind
      → String
      → Option ℕ
      → TransferMessagePayload
      → OmniBridgeEvent
      → Job services EventAction
  remember chain_kind tx_hash none payload event = pure remove
  remember chain_kind tx_hash (some nonce) payload event =
      if is_fee_bumping_enabled chain_kind
      then (do
        store_pending_transaction chain_kind tx_hash nonce
            (services.print_nonce payload.transfer_id.origin_nonce) event
        pure remove)
      else pure remove

  finalise :
      ChainKind
      → Finalisation
      → Option ℕ
      → TransferMessagePayload
      → OmniBridgeEvent
      → Job services EventAction
  finalise chain_kind args evm_nonce payload event = do
    sent ← ask services (omni_connector.fin_transfer args)
    on_answer sent (λ tx_hash. remember chain_kind tx_hash evm_nonce payload event)
        (on_finalise_error chain_kind)

  deliver_evm : ChainKind → TransferMessagePayload → OmniBridgeEvent → Job services EventAction
  deliver_evm chain_kind payload event = do
    nonce ← reserve_evm_nonce services chain_kind
    finalise chain_kind (Finalisation.evm chain_kind event (some nonce)) (some nonce) payload event

  deliver_sol : OmniAddress → TransferMessagePayload → OmniBridgeEvent → Job services EventAction
  deliver_sol (OmniAddress.sol token) payload event =
      finalise ChainKind.sol (Finalisation.solana event token) none payload event
  deliver_sol _ payload event = bail "Expected Sol token address"

  deliver : ChainKind → TransferMessagePayload → OmniBridgeEvent → Job services EventAction
  deliver ChainKind.near payload event = bail "Near to Near transfers are not supported yet"
  deliver ChainKind.sol payload event = deliver_sol payload.token_address payload event
  deliver ChainKind.btc payload event = bail "Finishing BTC/ZEC transfers is not supported"
  deliver ChainKind.zcash payload event = bail "Finishing BTC/ZEC transfers is not supported"
  deliver chain_kind payload event = deliver_evm chain_kind payload event

  unfoldable pub process_sign_transfer_event :
      AccountId → OmniBridgeEvent → Job services EventAction
  unfolding is_fee_bumping_enabled recheck_fee selected on_gas_error evm_config on_finalise_error
      remember finalise deliver_evm deliver_sol deliver
  process_sign_transfer_event signer (OmniBridgeEvent.sign_transfer_event signature payload) =
      if payload.fee_recipient == some signer
      then (do
        finalised ← ask services (
            omni_connector.is_transfer_finalised none (get_chain payload.recipient)
              payload.destination_nonce)
        unless_finalised finalised "Transfer is already finalised" (
            recheck_fee payload (
              deliver (get_chain payload.recipient) payload
                (OmniBridgeEvent.sign_transfer_event signature payload))))
      else bail "Fee recipient mismatch"
  process_sign_transfer_event signer _ = bail "Expected SignTransferEvent"
