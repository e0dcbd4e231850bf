-- ===== src/Relayer/Indexer/Overwrite.antt =====
-- Stored transfers share their key with transfers of other chains: `handle_streamer_message` of
-- omni-relayer/src/utils/near.rs.
use omni_bridge.Prelude.{ℕ, suc, String, Option, none, some, [], ◌∷◌, ◌≡◌, refl, sym, subst, ◌≢◌}
use omni_bridge.Prelude.Equality.{beq_ne}
use omni_bridge.Prelude.Result.{Result, ok, err}
use omni_bridge.Types.Chain.{ChainKind, chain_eq}
use omni_bridge.Types.Address.{get_chain}
use omni_bridge.Types.Transfer.{TransferMessage}
use omni_bridge.Types.Messages.{OmniBridgeEvent}
use omni_bridge.Relayer.Events.{Timestamp, Transfer, new_event}
use omni_bridge.Relayer.Services.{Services}
use omni_bridge.Relayer.Task.{State, pure, continue, ask, ◌>>=◌}
use omni_bridge.Relayer.Redis.{events_key, add_event, write}
use omni_bridge.Relayer.Redis.Laws.{Laws, Serves, add_event-field}
use omni_bridge.Relayer.Workers.Common.{add_new}
use omni_bridge.Relayer.Workers.Near.Charges.{Writes}
use omni_bridge.Relayer.Indexer.{store_transfer, handle_log, handle_logs}

module _ (services : Services) (laws : Laws services.redis) (writes : Writes services.json)
    (serves : Serves services.redis) {n : ℕ}
    (tries : services.config.query_retry_attempts ≡ suc n) where
  open services use {Value, json, print_nonce}

  -- The text that is stored is a new event of the value.
  pub record IsStored (value : Value) (key : String) (s : State services) : Type 0 where
    pub text : String
    pub now : Timestamp
    pub written : json.write_retryable (new_event value now) ≡ some text
    pub found : laws.field events_key key s.db ≡ some text

  add_new-IsStored :
      (value : Value) (key : String) (s : State services)
      → IsStored value key (add_new services events_key key (some value) s).1
  unfolding add_new ask ◌>>=◌ add_event write
  add_new-IsStored value key s =
      let (now, net) = services.now s.net in
      let (text, written) = writes.retryable-written (new_event value now) in
      let s' : State services = record s { net = net } in
      let (stored, others) = add_event-field services laws serves tries key text s' in
      rw written (record { text = text; now = now; written = written; found = stored })

  module _ (earlier later : TransferMessage) {value : Value}
      (as_value : json.transfer_value (Transfer.near later) ≡ some value) where
    store_transfer-IsStored :
        (s : State services)
        → IsStored value (print_nonce later.origin_nonce) (store_transfer services later s).1
    unfolding store_transfer
    store_transfer-IsStored s = rw as_value (add_new-IsStored value _ s)

    forwarded :
        (s : State services)
        → get_chain later.recipient ≢ ChainKind.near
        → IsStored value
            (print_nonce later.origin_nonce)
            (handle_log services (OmniBridgeEvent.fin_transfer_event later) s).1
    unfolding handle_log
    forwarded s away =
        rw (beq_ne (get_chain later.recipient) ChainKind.near away) (store_transfer-IsStored s)

    add_event-returns :
        (key field : String) (text : Option String) (s : State services)
        → (t : State services) × (add_event services key field text s ≡ (ok tt, t))
    unfolding add_event write
    add_event-returns key field none s = (s, refl)
    add_event-returns key field (some text) s = (_, refl)

    add_new-returns :
        (key : String) (v : Option Value) (s : State services)
        → (t : State services) × (add_new services events_key key v s ≡ (ok tt, t))
    unfolding add_new ask ◌>>=◌
    add_new-returns key none s = add_event-returns events_key key none s
    add_new-returns key (some v) s = add_event-returns events_key key _ _

    store_transfer-returns :
        (s : State services)
        → (t : State services) × (store_transfer services earlier s ≡ (ok tt, t))
    unfolding store_transfer
    store_transfer-returns s = add_new-returns _ _ s

    last_one :
        (key : String) (r : Result Unit × State services)
        → IsStored value key r.1
        → IsStored value key (continue r (λ _. pure tt)).1
    unfolding pure
    last_one key (ok u, s) stored = stored
    last_one key (err e, s) stored = stored

    -- A transfer out of NEAR, and after it the arrival of a transfer for a third chain whose nonce
    -- on its origin chain is the same number: while Redis serves the requests, the key of the first
    -- then holds a new event of the second.
    pub handle_logs-overwrites :
        (s : State services)
        → earlier.origin_nonce ≡ later.origin_nonce
        → get_chain later.recipient ≢ ChainKind.near
        → IsStored value
            (print_nonce earlier.origin_nonce)
            (handle_logs services
              (OmniBridgeEvent.init_transfer_event earlier
                ∷ OmniBridgeEvent.fin_transfer_event later
                ∷ [])
              s).1
    unfolding handle_logs ◌>>=◌
    handle_logs-overwrites s same away =
        let (t, first) = store_transfer-returns s in
        let first_log : handle_log services (OmniBridgeEvent.init_transfer_event earlier) s
            ≡ (ok tt, t) =
          unfold handle_log in first in
        rw first_log (
          last_one _ (handle_log services (OmniBridgeEvent.fin_transfer_event later) t) (
            subst
              (λ k.
                IsStored value (print_nonce k)
                  (handle_log services (OmniBridgeEvent.fin_transfer_event later) t).1)
              (sym same) (forwarded t away)))
