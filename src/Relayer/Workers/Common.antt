-- ===== src/Relayer/Workers/Common.antt =====
-- The parts that the handlers of omni-relayer/src/workers share.
use omni_bridge.Prelude.{ℕ, String, Bool, true, false, Option, none, some}
use omni_bridge.Relayer.Events.{
  CryptoHash, UnverifiedTransfer, EventAction, retry, remove, new_event,
}
use omni_bridge.Relayer.Services.{
  Services, NearRpcError, SdkError, SdkResult, TransactionOptions, TxExecutionStatus,
}
use omni_bridge.Relayer.Task.{Task, Job, pure, bail, ◌>>=◌, ◌>>◌, timestamp}
use omni_bridge.Relayer.Redis.{add_event, events_key}

-- The errors of a NEAR transaction after which each handler tries again.
abbrev pub is_transient : NearRpcError → Bool
is_transient NearRpcError.nonce_error = true
is_transient NearRpcError.finalization_error = true
is_transient NearRpcError.broadcast_error = true
is_transient (NearRpcError.query_error transport) = transport
is_transient (NearRpcError.transaction_error transport) = transport
is_transient (NearRpcError.other _) = false

abbrev pub included : ℕ → TransactionOptions
included nonce = record { nonce = some nonce; wait_until = TxExecutionStatus.included }

abbrev pub finalised : ℕ → TransactionOptions
finalised nonce = record { nonce = some nonce; wait_until = TxExecutionStatus.final }

module _ {S : Type 0} where
  -- The end of a handler whose transaction failed: another try, or an error.
  unfoldable pub retry_or_bail : Bool → String → Task S EventAction
  retry_or_bail true e = pure retry
  retry_or_bail false e = bail e

  -- The match on the answer whether a transfer is finalised, and the rest of the handler.
  unfoldable pub unless_finalised :
      SdkResult Bool → String → Task S EventAction → Task S EventAction
  unless_finalised (SdkResult.ok true) e rest = bail e
  unless_finalised (SdkResult.ok false) e rest = rest
  unless_finalised (SdkResult.err _) e rest = pure retry

  -- `if let Some(action) = .. { return Ok(action); }` and the rest of the handler.
  unfoldable pub unless_decided : Option EventAction → Task S EventAction → Task S EventAction
  unless_decided none rest = rest
  unless_decided (some action) rest = pure action

  -- A transaction sent, and what is done when it is accepted and when it fails.
  unfoldable pub on_answer :
      {A : Type 0}
      → SdkResult A
      → (A → Task S EventAction)
      → (SdkError → Task S EventAction)
      → Task S EventAction
  on_answer (SdkResult.ok a) accepted failed = accepted a
  on_answer (SdkResult.err e) accepted failed = failed e

module _ (services : Services) where
  open services use {Value, json}

  -- `add_event` of a new `RetryableEvent`.
  unfoldable pub add_new : String → String → Option Value → Job services Unit
  add_new key field none = add_event services key field none
  add_new key field (some event) = do
    now ← timestamp services
    add_event services key field (json.write_retryable (new_event event now))

  -- The transaction is sent: its result is looked up later, with the event to go back to.
  unfoldable pub watch : CryptoHash → UnverifiedTransfer Value → Job services EventAction
  watch tx_hash unverified = do
    add_new events_key tx_hash (json.unverified_value unverified)
    pure remove
