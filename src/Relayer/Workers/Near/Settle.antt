-- ===== src/Relayer/Workers/Near/Settle.antt =====
-- What becomes of a transaction that was sent: `process_unverified_transfer_event` of
-- omni-relayer/src/workers/near.rs.
use omni_bridge.Prelude.{
  ℕ, suc, String, Bool, true, false, some, none, ◌≡◌, refl, ◌≢◌, ◌∙◌, if◌then◌else◌,
}
use omni_bridge.Prelude.Result.{ok}
use omni_bridge.Relayer.Events.{Timestamp, UnverifiedTransfer, new_event}
use omni_bridge.Relayer.Services.{Services}
use omni_bridge.Relayer.Task.{State, Job, pure, ◌>>=◌, ask}
use omni_bridge.Relayer.Redis.{add_event, remove_event, write, events_key}
use omni_bridge.Relayer.Redis.Laws.{Laws, Serves, add_event-field, remove_event-field}
use omni_bridge.Relayer.Workers.Common.{add_new}
use omni_bridge.Relayer.Workers.Near.{is_tx_successful, process_unverified_transfer_event}
use omni_bridge.Relayer.Workers.Near.Charges.{Writes}

module _ (services : Services) (laws : Laws services.redis) (writes : Writes services.json)
    (serves : Serves services.redis) {n : ℕ}
    (tries : services.config.query_retry_attempts ≡ suc n) where
  open services use {Db, Value, json}

  module _ (u : UnverifiedTransfer Value) (before : Db) where
    -- How the look-up of a transaction ends: its entry is gone, and the event is back under its key
    -- unless the transaction succeeded.
    pub data Settled : Bool → State services → Type 0 where
      succeeded :
          (s : State services)
          → laws.field events_key u.tx_hash s.db ≡ none
          → ((g : String)
              → u.tx_hash ≢ g
              → laws.field events_key g s.db ≡ laws.field events_key g before)
          → Settled true s
      restored :
          (s : State services) (text : String) (now : Timestamp)
          → json.write_retryable (new_event u.original_event now) ≡ some text
          → laws.field events_key u.original_key s.db ≡ some text
          → ((g : String)
              → u.tx_hash ≢ g
              → u.original_key ≢ g
              → laws.field events_key g s.db ≡ laws.field events_key g before)
          → Settled false s

    add_new-restores :
        (s : State services)
        → ((g : String)
            → u.tx_hash ≢ g
            → laws.field events_key g s.db ≡ laws.field events_key g before)
        → Settled false (add_new services events_key u.original_key (some u.original_event) s).1
    unfolding add_new ask ◌>>=◌ add_event write
    add_new-restores s same =
        let (now, net) = services.now s.net in
        let (text, written) = writes.retryable-written (new_event u.original_event now) in
        let s' : State services = record s { net = net } in
        let (stored, others) = add_event-field services laws serves tries u.original_key text s' in
        rw written (restored _ text now written stored (λ g gone kept. others g kept ∙ same g gone))

    status_known :
        (s : State services)
        → (b : Bool) × (net : services.Net) × (is_tx_successful services u.tx_hash u.signer
              u.specific_errors s
            ≡ (ok b, record s { net = net }))
    unfolding is_tx_successful ask ◌>>=◌ pure
    status_known s = (_, _, refl)

    finish :
        (b : Bool) (s : State services)
        → laws.field events_key u.tx_hash s.db ≡ none
        → ((g : String)
            → u.tx_hash ≢ g
            → laws.field events_key g s.db ≡ laws.field events_key g before)
        → Settled b
            ((if b
                then pure tt
                else add_new services events_key u.original_key (some u.original_event))
              s).1
    unfolding pure
    finish true s gone same = succeeded s gone same
    finish false s gone same = add_new-restores s same

    -- The rest of the look-up, once the entry is removed.
    rest_of_look_up : Job services Unit
    rest_of_look_up = is_tx_successful services u.tx_hash u.signer u.specific_errors >>= λ b.
        if b then pure tt else add_new services events_key u.original_key (some u.original_event)

    look_up-settles :
        (s : State services)
        → laws.field events_key u.tx_hash s.db ≡ none
        → ((g : String)
            → u.tx_hash ≢ g
            → laws.field events_key g s.db ≡ laws.field events_key g before)
        → (b : Bool) × ((is_tx_successful services u.tx_hash u.signer u.specific_errors s).0 ≡ ok b)
          × Settled b (rest_of_look_up s).1
    unfolding rest_of_look_up ◌>>=◌
    look_up-settles s gone same =
        let (b, net, known) = status_known s in
        (b, rw known refl, rw known (finish b (record s { net = net }) gone same))

  -- The look-up of a sent transaction always has an answer. While Redis serves the requests, the
  -- entry of the transaction is gone afterwards if the answer is success, and else its event is
  -- stored again under its key as a new one; all other events stay.
  pub process_unverified_transfer_event-Settled :
      (u : UnverifiedTransfer Value) (s : State services)
      → (b : Bool) × ((is_tx_successful services u.tx_hash u.signer u.specific_errors
            (remove_event services events_key u.tx_hash s).1).0
          ≡ ok b)
        × Settled u s.db b (process_unverified_transfer_event services u s).1
  unfolding process_unverified_transfer_event remove_event write rest_of_look_up ◌>>=◌
  process_unverified_transfer_event-Settled u s =
      let (gone, same) = remove_event-field services laws serves tries u.tx_hash s in
      look_up-settles u s.db (remove_event services events_key u.tx_hash s).1 gone same
