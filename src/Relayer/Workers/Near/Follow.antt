-- ===== src/Relayer/Workers/Near/Follow.antt =====
-- What becomes of a stored transfer out of NEAR: `process_transfer_event` and
-- `process_unverified_transfer_event` of omni-relayer/src/workers/near.rs.
use omni_bridge.Prelude.{
  ℕ, suc, String, Option, none, some, ◌≡◌, refl, ap, ◌≢◌, inl, inr, ◌∙◌, Bool-cases,
}
use omni_bridge.Prelude.Result.{Result, ok, err}
use omni_bridge.Types.Codecs.{AccountId}
use omni_bridge.Types.Transfer.{fee_eq, TransferMessage, get_transfer_id}
use omni_bridge.Relayer.Events.{
  CryptoHash, EventAction, Timestamp, Transfer, UnverifiedTransfer, new_event,
}
use omni_bridge.Relayer.Services.{Services, SdkError, SdkResult, Ask}
use omni_bridge.Relayer.Task.{State, Job, pure, ◌>>=◌, ask}
use omni_bridge.Relayer.Redis.{add_event, write, events_key}
use omni_bridge.Relayer.Redis.Laws.{Laws, Serves, SameEvents, Kept, add_event-field}
use omni_bridge.Relayer.Rules.{
  Ends, Keeps, Told, Ends-ask, Ends-bind, Ends-seq, Keeps-pure, Keeps-ask, IsReserved, Reserved,
  Ends-reserve_near_nonce, Ends-bail, Ends-retry_or_bail, Ends-or_action, Ends-unless_finalised,
}
use omni_bridge.Relayer.Fees.{fetch_from, get_transfer_fee}
use omni_bridge.Relayer.Workers.Common.{
  is_transient, unless_decided, add_new, watch, included, on_answer,
}
use omni_bridge.Relayer.Workers.Near.{
  sign_errors, checks_fee, fee_checked, with_fee, with_message, on_near_error, unverified,
  follow_up, sign, process_transfer_event,
}
use omni_bridge.Relayer.Workers.Near.Charges.{Writes, no_fee, Decided, check_fee-Decided}

module _ (services : Services) (laws : Laws services.redis) (writes : Writes services.json)
    (serves : Serves services.redis) {n : ℕ}
    (tries : services.config.query_retry_attempts ≡ suc n) where
  open services use {Net, Db, Value, json, config, omni_connector}

  -- The stored text from which the transaction is looked up, and the event comes back.
  abbrev pub IsWatch : UnverifiedTransfer Value → String → Type 0
  IsWatch u text =
      (v : Value) × (now : Timestamp) × (json.unverified_value u ≡ some v)
      × (json.write_retryable (new_event v now) ≡ some text)

  -- The call that asks the contract for a signature of the transfer.
  abbrev pub request : TransferMessage → AccountId → ℕ → Ask Net (SdkResult CryptoHash)
  request m signer nonce =
      omni_connector.near_sign_transfer (get_transfer_id m) (some signer) (some m.fee)
        (included nonce)

  -- The last call of a client before the clock was read was this one, with the nonce that was
  -- reserved last, and it answered with this hash.
  abbrev pub IsSent : TransferMessage → AccountId → CryptoHash → State services → Type 0
  IsSent m signer tx_hash s =
      (nonce : ℕ) × (net : Net) × IsReserved nonce s.near_omni_nonce
      × ((request m signer nonce net).0 ≡ SdkResult.ok tx_hash)
      × (s.net ≡ (services.now (request m signer nonce net).1).1)

  module _ (key : String) (signer : AccountId) (m : TransferMessage) {event : Value}
      (as_value : json.transfer_value (Transfer.near m) ≡ some event) (before : Db) where
    -- How the handler ends, with the stored events afterwards.
    pub data Outcome : Result EventAction → State services → Type 0 where
      failed :
          (e : String) (s : State services)
          → SameEvents services laws before s.db
          → Outcome (err e) s
      again :
          (s : State services)
          → SameEvents services laws before s.db
          → Outcome (ok EventAction.retry) s
      unpaid :
          (s : State services)
          → m.fee ≡ no_fee
          → SameEvents services laws before s.db
          → Outcome (ok EventAction.remove) s
      watched :
          (s : State services) (tx_hash text : String)
          → IsSent m signer tx_hash s
          → IsWatch (unverified services tx_hash signer sign_errors key event) text
          → laws.field events_key tx_hash s.db ≡ some text
          → ((g : String)
              → tx_hash ≢ g
              → laws.field events_key g s.db ≡ laws.field events_key g before)
          → Outcome (ok EventAction.remove) s

    abbrev Start : State services → Type 0
    Start = Kept services laws before

    refuse : (e : String) (s : State services) → Start s → Outcome (err e) s
    refuse e s p = failed e s p.at

    retried : (s : State services) → Start s → Outcome (ok EventAction.retry) s
    retried s p = again s p.at

    -- The nonce was reserved last, and the stored events are those of before.
    abbrev Ready : ℕ → Db → ℕ → Type 0
    Ready nonce db local_nonce = IsReserved nonce local_nonce × SameEvents services laws before db

    -- The answer to the request, in such a state.
    abbrev Answered : ℕ → Result (SdkResult CryptoHash) → State services → Type 0
    Answered nonce = Told services (Ready nonce) (request m signer nonce)

    refuse_told :
        (nonce : ℕ) {sent : SdkResult CryptoHash} (e : String) (s : State services)
        → Answered nonce (ok sent) s
        → Outcome (err e) s
    refuse_told nonce e s (_, _, _, (_, p)) = failed e s p

    retried_told :
        (nonce : ℕ) {sent : SdkResult CryptoHash} (s : State services)
        → Answered nonce (ok sent) s
        → Outcome (ok EventAction.retry) s
    retried_told nonce s (_, _, _, (_, p)) = again s p

    Ends-add_new :
        (nonce : ℕ) (tx_hash : CryptoHash)
        → Ends
            (Answered nonce (ok (SdkResult.ok tx_hash)))
            (watch services tx_hash (unverified services tx_hash signer sign_errors key event))
            Outcome
    unfolding watch add_new ask ◌>>=◌ pure add_event write
    Ends-add_new nonce tx_hash = record {
      at = λ s (asked, accepted, left, (reserved, p)).
          let (v, value) =
            writes.unverified-written (unverified services tx_hash signer sign_errors key event) in
          let (now, net) = services.now s.net in
          let (text, written) = writes.retryable-written (new_event v now) in
          let s' : State services = record s { net = net } in
          let (stored, others) = add_event-field services laws serves tries tx_hash text s' in
          rw value (
            rw written (
              watched _ tx_hash text
                (nonce, asked, reserved, accepted, ap (λ net. (services.now net).1) left)
                (v, now, value, written) stored (λ g differs. others g differs ∙ p g)));
    }

    Ends-sign : Ends Start (sign services key signer (Transfer.near m) m) Outcome
    unfolding sign on_answer
    Ends-sign =
        Ends-seq (Reserved services (SameEvents services laws before)) _ _
          (Ends-reserve_near_nonce services _) failed
          λ nonce.
            Ends-seq (Answered nonce) _ _ (Ends-ask services (Ready nonce) (request m signer nonce))
              (λ e s told. absurd told) (Ends-sent nonce)
      where
        Ends-follow_up :
            (nonce : ℕ) (tx_hash : CryptoHash)
            → Ends
                (Answered nonce (ok (SdkResult.ok tx_hash)))
                (follow_up services tx_hash signer sign_errors key
                  (json.transfer_value (Transfer.near m)))
                Outcome
        Ends-follow_up nonce tx_hash = rw as_value (unfold follow_up in Ends-add_new nonce tx_hash)

        Ends-on_near_error :
            (nonce : ℕ) (e : SdkError)
            → Ends
                (Answered nonce (ok (SdkResult.err e)))
                (on_near_error services e "Failed to sign transfer")
                Outcome
        Ends-on_near_error nonce (SdkError.near_rpc e) =
            unfold on_near_error in
            Ends-retry_or_bail (refuse_told nonce) (retried_told nonce) (is_transient e) _
        Ends-on_near_error nonce _ =
            unfold on_near_error in Ends-bail (refuse_told nonce) (retried_told nonce) _

        Ends-sent :
            (nonce : ℕ) (sent : SdkResult CryptoHash)
            → Ends
                (Answered nonce (ok sent))
                (on_answer sent
                  (λ tx_hash.
                    follow_up services tx_hash signer sign_errors key
                      (json.transfer_value (Transfer.near m)))
                  (λ e. on_near_error services e "Failed to sign transfer"))
                Outcome
        Ends-sent nonce (SdkResult.ok tx_hash) = Ends-follow_up nonce tx_hash
        Ends-sent nonce (SdkResult.err e) = Ends-on_near_error nonce e

    Ends-Decided :
        (rest : Job services EventAction)
        → Ends Start rest Outcome
        → (r : Option EventAction)
        → Ends (Decided services laws writes before m.fee (ok r)) (unless_decided r rest) Outcome
    unfolding unless_decided Decided pure
    Ends-Decided rest k none = k
    Ends-Decided rest k (some EventAction.retry) = record { at = λ s p. again s p.at }
    Ends-Decided rest k (some EventAction.remove) = record { at = λ s p. unpaid s p.0 p.1.at }

    Ends-fee_checked :
        (rest : Job services EventAction)
        → Ends Start rest Outcome
        → Ends Start (fee_checked services m rest) Outcome
    unfolding fee_checked with_fee
    Ends-fee_checked rest k = elim (Bool-cases (checks_fee services m.sender)) [
      | inr e ↦ rw e k
      | inl e ↦ rw e (
          Ends-bind _ _ refuse asked λ needed. Ends-or_action refuse retried needed _ λ needed_fee.
            Ends-seq (Decided services laws writes before m.fee) _ _
              (check_fee-Decided services laws writes before needed_fee (get_transfer_id m) m.fee)
              (λ e s p. refuse e s (unfold Decided in p)) (Ends-Decided rest k))
    ]
      where
        fetched :
            (url : Option String)
            → Keeps Start (fetch_from services url m.sender m.recipient m.token)
        fetched none = unfold fetch_from in Keeps-pure _
        fetched (some url) = unfold fetch_from in Keeps-ask services _

        asked : Keeps Start (get_transfer_fee services m.sender m.recipient m.token)
        asked = unfold get_transfer_fee in fetched config.api_url

    Ends-process : Ends Start (process_transfer_event services key signer (Transfer.near m)) Outcome
    unfolding process_transfer_event with_message
    Ends-process =
        Ends-bind _ _ refuse (Keeps-ask services _)
          λ found. Ends-unless_finalised refuse retried found _ _ (Ends-fee_checked _ Ends-sign)

  -- A stored transfer out of NEAR that is handled while Redis serves the requests: the stored
  -- events stay as they are when the handler fails, asks for another try, or drops a transfer
  -- without a fee; else the client, asked last to sign the transfer with the nonce reserved for it,
  -- answered with a hash, under which the event is kept together with its old key, and all other
  -- events stay.
  pub process_transfer_event-Outcome :
      (key : String) (signer : AccountId) (m : TransferMessage) {event : Value}
      (as_value : json.transfer_value (Transfer.near m) ≡ some event) (s : State services)
      → Outcome key signer m as_value s.db
          (process_transfer_event services key signer (Transfer.near m) s).0
          (process_transfer_event services key signer (Transfer.near m) s).1
  process_transfer_event-Outcome key signer m as_value s =
      (Ends-process key signer m as_value s.db).at s (record { at = λ g. refl })
