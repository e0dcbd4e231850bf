-- ===== src/Relayer/Workers/Dispatch.antt =====
-- The round of the workers over the stored events: `process_events` of
-- omni-relayer/src/workers/mod.rs. The handlers of a round are tasks that run side by side; here
-- each runs as a whole, in some order.
use omni_bridge.Prelude.{
  ℕ, String, ◌+◌, ◌*◌, Option, none, some, List, [], ◌∷◌, ◌++◌, ltb, leb, if◌then◌else◌, unwrap_or,
}
use omni_bridge.Prelude.Words.{u64_max}
use omni_bridge.Prelude.Result.{Result, ok, err}
use omni_bridge.Types.Chain.{ChainKind}
use omni_bridge.Types.Codecs.{AccountId}
use omni_bridge.Types.Address.{OmniAddress, is_utxo_address}
use omni_bridge.Types.Transfer.{TransferId, UnifiedTransferId, get_transfer_id, to_unified}
use omni_bridge.Types.Messages.{OmniBridgeEvent}
use omni_bridge.Relayer.Events.{
  EventAction, RetryableEvent, Timestamp, Transfer, FinTransfer, DeployToken,
}
use omni_bridge.Relayer.Services.{Services, Config}
use omni_bridge.Relayer.Task.{Job, pure, bail, ◌>>=◌, ◌>>◌, timestamp}
use omni_bridge.Relayer.Redis.{add_event, remove_event, get_events, events_key, fee_mapping_key}
use omni_bridge.Relayer.Workers.Near.{
  process_transfer_event, process_transfer_to_utxo_event, process_unverified_transfer_event,
}
use omni_bridge.Relayer.Workers.Deliver.{process_sign_transfer_event}
use omni_bridge.Relayer.Workers.Fast.{initiate_fast_transfer}
use omni_bridge.Relayer.Workers.Utxo.{
  process_near_to_utxo_init_transfer_event, process_utxo_to_near_init_transfer_event,
  process_sign_transaction_event, process_confirmed_tx_hash,
}
use omni_bridge.Relayer.Workers.Evm as EvmEvents
use omni_bridge.Relayer.Workers.Solana as SolanaEvents
use omni_bridge.Relayer.Workers.Evm.{log_id}

abbrev i64_max : ℕ
i64_max = 9223372036854775807

abbrev min : ℕ → ℕ → ℕ
min a b = if leb a b then a else b

-- The pause for a factor, which is the power of the base, if a `u64`.
unfoldable pub delay_by : Config → Option ℕ → ℕ
delay_by config factor =
    let delay =
      min (config.sleep_time_after_events_process_secs * unwrap_or factor u64_max) u64_max in
    min (if leb delay i64_max then delay else i64_max) config.fee_retry_max_sleep_secs

unfoldable pub delay_of : (config : Config) → Option config.Decimal → Option ℕ
delay_of config none = none
delay_of config (some power) = some (delay_by config (config.to_u64 power))

-- The pause before an event is tried again, after so many tries; `none` when the power panics.
unfoldable pub retry_delay : Config → ℕ → Option ℕ
retry_delay config retries = delay_of config (config.powu config.fee_retry_base_secs retries)

module _ (services : Services) where
  open services use {Value, json, config}

  -- What is done with a stored event of the round: it is dropped, left for later, or tried; or the
  -- pause of it cannot be computed.
  pub data Choice : Type 0 where
    overflow : Choice
    drop : Choice
    later : Choice
    attempt : RetryableEvent Value → Choice

  -- An event that is recent enough, by its pause.
  unfoldable pub rest_or_try : Timestamp → RetryableEvent Value → Option ℕ → Choice
  rest_or_try now e none = overflow
  rest_or_try now e (some delay) =
      if ltb now (e.last_updated_timestamp + delay)
      then later
      else attempt (record e { retries = e.retries + 1; last_updated_timestamp = now })

  unfoldable pub choose : Timestamp → Option (RetryableEvent Value) → Choice
  choose now none = drop
  choose now (some e) =
      if ltb (e.creation_timestamp + config.keep_transfers_for_secs) now
      then drop
      else rest_or_try now e (retry_delay config e.retries)

  -- What the first loop of a round does with an event: the events to handle. The panic of `powu`
  -- ends the task, before any event is handled.
  unfoldable pub screen : String → Choice → Job services (List (String × Value))
  screen key overflow = bail "Pow overflowed"
  screen key drop = do remove_event services events_key key; pure []
  screen key later = pure []
  screen key (attempt e) = do
    add_event services events_key key (json.write_retryable e)
    pure ((key, e.event) ∷ [])

  unfoldable pub screen_events :
      Timestamp → List (String × String) → Job services (List (String × Value))
  unfolding screen
  screen_events now [] = pure []
  screen_events now ((key, payload) ∷ others) = do
    first ← screen key (choose now (json.read_retryable payload))
    rest ← screen_events now others
    pure (first ++ rest)

  -- `to_string(..).unwrap_or_default()`.
  abbrev pub id_text : TransferId → Option String
  id_text id = some (unwrap_or (json.write_transfer_id id) "")

  remove_fee : Option String → Job services Unit
  remove_fee none = pure tt
  remove_fee (some id) = remove_event services fee_mapping_key id

  -- The match on the result of a handler: the event is removed unless it is to be tried again, and
  -- an entry of the fees is removed, if one is named for success or for failure.
  unfoldable pub settle :
      String → Option String → Option String → Result EventAction → Job services Unit
  unfolding remove_fee
  settle key on_remove on_error (ok EventAction.retry) = pure tt
  settle key on_remove on_error (ok EventAction.remove) = do
    remove_event services events_key key
    remove_fee on_remove
  settle key on_remove on_error (err _) = do
    remove_event services events_key key
    remove_fee on_error

  -- A handler and what follows its result.
  unfoldable pub run :
      String → Option String → Option String → Job services EventAction → Job services Unit
  run key on_remove on_error handler s =
      let (result, after) = handler s in settle key on_remove on_error result after

  -- By the chain of the recipient.
  unfoldable pub handle_near :
      String → AccountId → Transfer → OmniAddress → UnifiedTransferId → Job services Unit
  handle_near key signer transfer recipient id =
      run key none (some (unwrap_or (json.write_unified_id id) "")) (
        if is_utxo_address recipient
        then process_transfer_to_utxo_event services key signer transfer
        else process_transfer_event services key signer transfer)

  unfoldable pub handle_transfer : String → AccountId → Transfer → Job services Unit
  handle_transfer key signer (Transfer.near m) =
      handle_near key signer (Transfer.near m) m.recipient (to_unified (get_transfer_id m))
  handle_transfer key signer (Transfer.utxo m new_id) =
      handle_near key signer (Transfer.utxo m new_id) m.recipient new_id
  handle_transfer key signer (Transfer.evm t) =
      run key (id_text (log_id services t)) (id_text (log_id services t))
        (EvmEvents.process_init_transfer_event services (Transfer.evm t))
  handle_transfer key signer (Transfer.solana t) =
      let id : TransferId = record { origin_chain = ChainKind.sol; origin_nonce = t.sequence } in
      run key (id_text id) (id_text id)
        (SolanaEvents.process_init_transfer_event services key (Transfer.solana t))
  handle_transfer key signer (Transfer.near_to_utxo t) =
      run key none none
        (process_near_to_utxo_init_transfer_event services (Transfer.near_to_utxo t))
  handle_transfer key signer (Transfer.utxo_to_near t) =
      run key none none
        (process_utxo_to_near_init_transfer_event services (Transfer.utxo_to_near t))
  handle_transfer key signer (Transfer.fast t) =
      run key none none (initiate_fast_transfer services (Transfer.fast t))

  -- Of the events of the bridge the workers handle only the signed transfers.
  unfoldable pub handle_bridge_event : String → AccountId → OmniBridgeEvent → Job services Unit
  handle_bridge_event key signer (OmniBridgeEvent.sign_transfer_event signature payload) =
      run key (id_text payload.transfer_id) (id_text payload.transfer_id) (
        process_sign_transfer_event services signer
          (OmniBridgeEvent.sign_transfer_event signature payload))
  handle_bridge_event key signer _ = pure tt

  unfoldable pub handle_fin_transfer : String → FinTransfer → Job services Unit
  handle_fin_transfer key (FinTransfer.evm t) =
      run key none none (EvmEvents.process_evm_transfer_event services (FinTransfer.evm t))
  handle_fin_transfer key (FinTransfer.solana emitter sequence) =
      run key none none
        (SolanaEvents.process_fin_transfer_event services (FinTransfer.solana emitter sequence))

  unfoldable pub handle_deploy_token : String → DeployToken → Job services Unit
  handle_deploy_token key (DeployToken.evm t) =
      run key none none (EvmEvents.process_deploy_token_event services (DeployToken.evm t))
  handle_deploy_token key (DeployToken.solana emitter sequence) =
      run key none none
        (SolanaEvents.process_deploy_token_event services (DeployToken.solana emitter sequence))

  -- An event is read as the first kind that fits.
  unfoldable pub handle : AccountId → String → Value → Job services Unit
  handle signer key event = elim (json.as_transfer event) [
    | some t ↦ handle_transfer key signer t
    | none ↦ elim (json.as_bridge_event event) [
      | some e ↦ handle_bridge_event key signer e
      | none ↦ elim (json.as_fin_transfer event) [
        | some t ↦ handle_fin_transfer key t
        | none ↦ elim (json.as_deploy_token event) [
          | some t ↦ handle_deploy_token key t
          | none ↦ elim (json.as_sign_utxo event) [
            | some e ↦ run key none none (process_sign_transaction_event services e)
            | none ↦ elim (json.as_confirmed event) [
              | some e ↦ run key none none (process_confirmed_tx_hash services key signer e)
              | none ↦ elim (json.as_unverified event) [
                | some u ↦ process_unverified_transfer_event services u
                | none ↦ pure tt
              ]
            ]
          ]
        ]
      ]
    ]
  ]

  unfoldable pub handle_all : AccountId → List (String × Value) → Job services Unit
  handle_all signer [] = pure tt
  handle_all signer ((key, event) ∷ others) = do handle signer key event; handle_all signer others

  -- A round, after the nonces are taken from the chains again.
  unfoldable pub process_round : AccountId → Job services Unit
  process_round signer = do
    found ← get_events services events_key
    elim found [
      | none ↦ pure tt
      | some stored ↦ do
        now ← timestamp services
        events ← screen_events now stored
        handle_all signer events
    ]
