-- ===== src/Relayer/Workers/Handled.antt =====
-- A stored transfer out of NEAR through the round of omni-relayer/src/workers/mod.rs: the handler,
-- and what `process_events` does with its result.
use omni_bridge.Prelude.{ℕ, suc, String, false, none, some, ◌≡◌, refl, ◌≢◌, ◌∙◌}
use omni_bridge.Prelude.Result.{Result, ok, err}
use omni_bridge.Types.Codecs.{AccountId}
use omni_bridge.Types.Address.{is_utxo_address}
use omni_bridge.Types.Transfer.{TransferMessage}
use omni_bridge.Relayer.Events.{EventAction, Transfer}
use omni_bridge.Relayer.Services.{Services}
use omni_bridge.Relayer.Task.{State, pure, ◌>>=◌}
use omni_bridge.Relayer.Redis.{remove_event, write, events_key, fee_mapping_key}
use omni_bridge.Relayer.Redis.Laws.{Laws, Serves, SameEvents, Keeps-remove_fee, remove_event-field}
use omni_bridge.Relayer.Workers.Near.{process_transfer_event, unverified, sign_errors}
use omni_bridge.Relayer.Workers.Near.Charges.{Writes}
use omni_bridge.Relayer.Workers.Near.Follow.{
  IsSent, IsWatch, Outcome, process_transfer_event-Outcome,
}
use omni_bridge.Relayer.Workers.Dispatch.{settle, run, handle_near, handle_transfer}

module _ (services : Services) (laws : Laws services.redis) (writes : Writes services.json)
    (serves : Serves services.redis) {n : ℕ} (tries : services.config.query_retry_attempts ≡ suc n)
    (key : String) (signer : AccountId) (m : TransferMessage) {event : services.Value}
    (as_value : services.json.transfer_value (Transfer.near m) ≡ some event)
    (before : services.Db) where
  open services use {Db, Value, json}

  -- The event is gone, and the others are those of before.
  pub record IsGone (s : State services) : Type 0 where
    pub gone : laws.field events_key key s.db ≡ none
    pub others :
        (g : String) → key ≢ g → laws.field events_key g s.db ≡ laws.field events_key g before

  -- What became of the stored event, with the result of its handler.
  pub data Handled : Result EventAction → State services → Type 0 where
    waiting :
        (s : State services)
        → SameEvents services laws before s.db
        → Handled (ok EventAction.retry) s
    failed : (e : String) (s : State services) → IsGone s → Handled (err e) s
    unpaid :
        (s : State services)
        → m.fee ≡ record { fee = 0; native_fee = 0 }
        → IsGone s
        → Handled (ok EventAction.remove) s
    sent :
        (s : State services) (tx_hash text : String)
        → IsSent services laws writes serves tries m signer tx_hash s
        → IsWatch services laws writes serves tries
            (unverified services tx_hash signer sign_errors key event)
            text
        → laws.field events_key key s.db ≡ none
        → (key ≢ tx_hash → laws.field events_key tx_hash s.db ≡ some text)
        → ((g : String)
            → key ≢ g
            → tx_hash ≢ g
            → laws.field events_key g s.db ≡ laws.field events_key g before)
        → Handled (ok EventAction.remove) s

  removed :
      (s : State services)
      → SameEvents services laws before s.db
      → IsGone (remove_event services events_key key s).1
  removed s same =
      let (gone, others) = remove_event-field services laws serves tries key s in
      record { gone = gone; others = λ g differs. others g differs ∙ same g }

  -- The removal of a fee entry after it.
  fee_removed :
      (id : String) (s : State services)
      → IsGone s
      → IsGone (remove_event services fee_mapping_key id s).1
  fee_removed id s gone =
      let same = (Keeps-remove_fee services laws s.db id).at s (record { at = λ g. refl }) in
      record {
        gone = same.at key ∙ gone.gone;
        others = λ g differs. same.at g ∙ gone.others g differs;
      }

  settle-Handled :
      (id : String) (r : Result EventAction) (s : State services)
      → Outcome services laws writes serves tries key signer m as_value before r s
      → Handled r (settle services key none (some id) r s).1
  unfolding settle remove_event write ◌>>=◌ pure
  settle-Handled id _ _ (Outcome.failed e s same) = failed e _ (fee_removed id _ (removed s same))
  settle-Handled id _ _ (Outcome.again s same) = waiting s same
  settle-Handled id _ _ (Outcome.unpaid s free same) = unpaid _ free (removed s same)
  settle-Handled id _ _ (Outcome.watched s tx_hash text by watch stored others) =
      let (gone, kept) = remove_event-field services laws serves tries key s in
      sent _ tx_hash text by watch gone (λ differs. kept tx_hash differs ∙ stored)
        (λ g not_key not_hash. kept g not_key ∙ others g not_hash)

-- A stored transfer out of NEAR to a chain with accounts, handled while Redis serves the requests:
-- it waits, with all other events, for the next round if the handler says so; else it is gone. Then
-- the handler has failed, or the transfer has no fee, or the client, asked last to sign it with the
-- nonce reserved for it, answered with the hash of a transaction, which is stored, with the event
-- and its key, to be looked up. No other event changes.
pub handle_transfer-Handled :
    (services : Services) (laws : Laws services.redis) (writes : Writes services.json)
    (serves : Serves services.redis) {n : ℕ} (tries : services.config.query_retry_attempts ≡ suc n)
    (key : String) (signer : AccountId) (m : TransferMessage) {event : services.Value}
    (as_value : services.json.transfer_value (Transfer.near m) ≡ some event) (s : State services)
    → is_utxo_address m.recipient ≡ false
    → Handled services laws writes serves tries key signer m as_value s.db
        (process_transfer_event services key signer (Transfer.near m) s).0
        (handle_transfer services key signer (Transfer.near m) s).1
unfolding handle_transfer handle_near run
handle_transfer-Handled services laws writes serves tries key signer m as_value s account =
    rw account (
      settle-Handled services laws writes serves tries key signer m as_value s.db _ _ _
        (process_transfer_event-Outcome services laws writes serves tries key signer m as_value s))
