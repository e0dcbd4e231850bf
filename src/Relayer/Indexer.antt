-- ===== src/Relayer/Indexer.antt =====
-- The events of the bridge contract on NEAR become stored events: `handle_streamer_message` of
-- omni-relayer/src/utils/near.rs.
pub mod Overwrite
use omni_bridge.Prelude.{
  String, Bool, true, false, ◌&&◌, ◌||◌, not, Option, none, some, List, [], ◌∷◌, ◌++◌,
  if◌then◌else◌,
}
use omni_bridge.Prelude.Equality.{◌==◌, string_eq}
use omni_bridge.Types.Chain.{ChainKind, chain_eq}
use omni_bridge.Types.Codecs.{AccountId}
use omni_bridge.Types.Address.{get_chain}
use omni_bridge.Types.Transfer.{TransferId, TransferMessage, UtxoId, to_unified}
use omni_bridge.Types.Messages.{OmniBridgeEvent, UtxoFinTransferMsg}
use omni_bridge.Relayer.Events.{Transfer}
use omni_bridge.Relayer.Services.{Services}
use omni_bridge.Relayer.Task.{Job, pure, ◌>>=◌, ◌>>◌}
use omni_bridge.Relayer.Redis.{events_key}
use omni_bridge.Relayer.Workers.Common.{add_new}

-- Of a receipt and its outcome: the receiver, whether it has actions, and which of them are calls
-- of functions, with the log lines of the outcome.
pub record Outcome : Type 0 where
  pub receiver_id : AccountId
  pub actions : Option (List Bool)
  pub logs : List String

abbrev any_call : List Bool → Bool
any_call [] = false
any_call (x ∷ xs) = x || any_call xs

module _ (services : Services) where
  open services use {json, config, print_nonce}

  -- `is_nep_locker_event`.
  abbrev has_call : Option (List Bool) → Bool
  has_call none = false
  has_call (some actions) = any_call actions

  unfoldable pub is_nep_locker_event : Outcome → Bool
  is_nep_locker_event outcome =
      outcome.receiver_id == config.omni_bridge_id && has_call outcome.actions

  unfoldable pub store_transfer : TransferMessage → Job services Unit
  store_transfer m =
      add_new services events_key (print_nonce m.origin_nonce)
        (json.transfer_value (Transfer.near m))

  store_utxo : UtxoFinTransferMsg → Option TransferId → Job services Unit
  store_utxo m none = pure tt
  store_utxo m (some new_id) =
      add_new services events_key (services.print_utxo_id m.utxo_id)
        (json.transfer_value (Transfer.utxo m (to_unified new_id)))

  -- The match on an event of the bridge.
  unfoldable pub handle_log : OmniBridgeEvent → Job services Unit
  unfolding store_utxo
  handle_log (OmniBridgeEvent.init_transfer_event m) = store_transfer m
  handle_log (OmniBridgeEvent.update_fee_event m) = store_transfer m
  handle_log (OmniBridgeEvent.utxo_transfer_event _ _ m new_id) = store_utxo m new_id
  handle_log (OmniBridgeEvent.sign_transfer_event signature payload) =
      add_new services events_key (print_nonce payload.transfer_id.origin_nonce)
        (json.bridge_event_value (OmniBridgeEvent.sign_transfer_event signature payload))
  handle_log (OmniBridgeEvent.fin_transfer_event m) =
      if get_chain m.recipient == ChainKind.near then pure tt else store_transfer m
  handle_log _ = pure tt

  unfoldable pub handle_logs : List OmniBridgeEvent → Job services Unit
  handle_logs [] = pure tt
  handle_logs (log ∷ logs) = do handle_log log; handle_logs logs

  -- `filter_map(|log| from_str(&log).ok())` over the lines of an outcome.
  events_of : List String → List OmniBridgeEvent
  events_of [] = []
  events_of (line ∷ lines) = elim (json.read_bridge_event line) [
    | none ↦ events_of lines
    | some e ↦ e ∷ events_of lines
  ]

  find_events : List Outcome → List OmniBridgeEvent
  find_events [] = []
  find_events (outcome ∷ outcomes) =
      let others = find_events outcomes in
      if is_nep_locker_event outcome then events_of outcome.logs ++ others else others

  unfoldable pub handle_streamer_message : List Outcome → Job services Unit
  unfolding events_of find_events
  handle_streamer_message outcomes = handle_logs (find_events outcomes)
