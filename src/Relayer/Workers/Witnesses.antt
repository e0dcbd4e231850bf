-- ===== src/Relayer/Workers/Witnesses.antt =====
-- Runs of the workers of a sample relayer.
mod Sample
use omni_bridge.Prelude.{
  ℕ, zero, suc, String, Bool, true, false, ◌&&◌, Option, none, some, List, [], ◌∷◌, ◌+◌, ◌*◌, ◌^◌,
  ◌<◌, ◌≤◌, ◌≡◌, refl, ap, ◌≢◌, ◌⊎◌, inl, inr, arith, if◌then◌else◌,
}
use omni_bridge.Prelude.Equality.{PartialEq, ◌==◌, string_eq, beq_self, beq_ne}
use omni_bridge.Prelude.Result.{Result, ok, err}
use omni_bridge.Types.Chain.{ChainKind}
use omni_bridge.Types.Codecs.{Codecs}
use omni_bridge.Types.Address.{is_utxo_address, OmniAddress}
use omni_bridge.Types.Transfer.{TransferMessage, TransferId}
use omni_bridge.Relayer.Nonces.{NearAnswer, EvmNonceManagers}
use omni_bridge.Relayer.Events.{RetryableEvent, UnverifiedTransfer, Transfer, TransferFee}
use omni_bridge.Relayer.Services.{
  Services, Connector, RedisServer, Json, Config, FeeBumping, SdkResult, SdkError, Ask,
}
use omni_bridge.Relayer.Task.{State}
use omni_bridge.Relayer.Redis.{remove_event, events_key}
use omni_bridge.Relayer.Redis.Laws.{Laws, Serves}
use omni_bridge.Relayer.Workers.Near.{
  process_transfer_event, process_unverified_transfer_event, is_tx_successful,
}
use omni_bridge.Relayer.Workers.Near.Charges.{Writes}
use omni_bridge.Relayer.Workers.Near.Follow.{Outcome, process_transfer_event-Outcome}
use omni_bridge.Relayer.Workers.Near.Settle.{Settled, process_unverified_transfer_event-Settled}
use omni_bridge.Relayer.Workers.Dispatch.{screen_events, handle_transfer}
use omni_bridge.Relayer.Workers.Handled.{Handled, handle_transfer-Handled}
use omni_bridge.Relayer.Workers.Due.{
  Has, IsDue, HasPowers, TriedAtMost, screen_events-due, screen_events-overflow,
}
use omni_bridge.Types.Chain.{ChainKind}
use omni_bridge.Types.Messages.{OmniBridgeEvent}
use omni_bridge.Relayer.Indexer.{handle_logs}
use omni_bridge.Relayer.Indexer.Overwrite.{IsStored, handle_logs-overwrites}
use omni_bridge.Relayer.Bumping.{Estimation, ShouldBump, should_bump}
use omni_bridge.Relayer.Bumping.Bounds.{should_bump-bounds}
use omni_bridge.Relayer.Workers.Witnesses.Sample.{
  relayer, settings, texts, server_laws, server_serves, texts_written, put,
}

abbrev message : TransferMessage
message = record {
  origin_nonce = 41;
  token = OmniAddress.near "token.near";
  amount = 1000;
  recipient = OmniAddress.eth [];
  fee = record { fee = 10; native_fee = 0 };
  sender = OmniAddress.near "alice.near";
  msg = "";
  destination_nonce = 3;
  origin_transfer_id = none;
}

abbrev start : State relayer
start = record {
  net = tt;
  db = put events_key "41" (some "transfer") (λ k f. none);
  near_omni_nonce = 5;
  near_fast_nonce = none;
  evm_nonces = record { eth = none; base = none; arb = none; bnb = none; pol = none };
}

process_transfer_event-Outcome_example :
    Outcome relayer server_laws texts_written server_serves refl "41" "relayer.near" message refl
      start.db
      (process_transfer_event relayer "41" "relayer.near" (Transfer.near message) start).0
      (process_transfer_event relayer "41" "relayer.near" (Transfer.near message) start).1
process_transfer_event-Outcome_example =
    process_transfer_event-Outcome relayer server_laws texts_written server_serves refl "41"
      "relayer.near" message refl start

abbrev sent : UnverifiedTransfer String
sent = record {
  tx_hash = "hash";
  signer = "relayer.near";
  specific_errors = some ("Exceeded the prepaid gas." ∷ []);
  original_key = "41";
  original_event = "transfer";
}

process_unverified_transfer_event-Settled_example :
    (b : Bool) × ((is_tx_successful relayer "hash" "relayer.near" sent.specific_errors
        (remove_event relayer events_key "hash" start).1).0
      ≡ ok b)
    × Settled relayer server_laws texts_written server_serves refl sent start.db b
        (process_unverified_transfer_event relayer sent start).1
process_unverified_transfer_event-Settled_example =
    process_unverified_transfer_event-Settled relayer server_laws texts_written server_serves refl
      sent start

abbrev stored : List (String × String)
stored = ("40", "other") ∷ ("41", "transfer") ∷ []

abbrev event_41 : RetryableEvent String
event_41 = record {
  event = "transfer";
  creation_timestamp = 100;
  last_updated_timestamp = 100;
  retries = 2;
}

event_41-IsDue : IsDue relayer 170 event_41
event_41-IsDue = record { recent = omega arith; rested = omega arith }

powers : HasPowers relayer 2
powers zero few = (1, refl)
powers (suc zero) few = (2, refl)
powers (suc (suc zero)) few = (4, refl)
powers (suc (suc (suc n))) few = absurd (omega (arith, few))

retries_of : Option (RetryableEvent String) → ℕ
retries_of none = 0
retries_of (some e) = e.retries

tried_twice :
    (text : String) (e : RetryableEvent String) → texts.read_retryable text ≡ some e → e.retries ≤ 2
unfolding retries_of
tried_twice text e read = let tries = ap retries_of read in omega (arith, tries)

tried : TriedAtMost relayer 2 170 stored
tried =
    ((λ e read _. tried_twice "other" e read), ((λ e read _. tried_twice "transfer" e read), tt))

screen_events-due_example :
    (events : List (String × String)) × ((screen_events relayer 170 stored start).0 ≡ ok events)
    × Has ("41", "transfer") events
screen_events-due_example =
    screen_events-due relayer 170 stored start "41" "transfer" event_41 {most = 2} powers tried
      (inr (inl refl)) refl event_41-IsDue

-- The square of the base does not fit a decimal.
abbrev steep_relayer : Services
steep_relayer = record relayer { config = record settings { fee_retry_base_secs = 2 ^ 48 } }

abbrev steep_start : State steep_relayer
steep_start = record {
  net = tt;
  db = start.db;
  near_omni_nonce = 5;
  near_fast_nonce = none;
  evm_nonces = start.evm_nonces;
}

screen_events-overflow_example :
    (screen_events steep_relayer 170 stored steep_start).0 ≡ err "Pow overflowed"
screen_events-overflow_example =
    screen_events-overflow steep_relayer 170 stored steep_start "41" "transfer" event_41
      (inr (inl refl)) refl (omega arith) refl

abbrev bumping : FeeBumping
bumping = record {
  min_pending_time_seconds = 60;
  min_since_last_bump_seconds = 30;
  min_fee_increase_percent = 15;
  max_fee_in_wei = 900;
}

abbrev fees : ℕ → ℕ → Estimation
fees a b = record { max_fee_per_gas = a; max_priority_fee_per_gas = b }

bumped_by_15 : should_bump bumping (fees 100 10) (fees 105 9) ≡ ShouldBump.bump (fees 115 11)
unfolding should_bump
bumped_by_15 = refl

should_bump-bounds_example :
    ◌≤◌ 115 900
    × (105 ≤ 115)
    × (9 ≤ 11)
    × (100 * (100 + 15) < 100 * (115 + 1))
    × (10 * (100 + 15) < 100 * (11 + 1))
should_bump-bounds_example =
    should_bump-bounds bumping (fees 100 10) (fees 105 9) (omega arith) (omega arith) (omega arith)
      bumped_by_15

-- A transfer of Solana for Ethereum.
abbrev foreign : TransferMessage
foreign = record message { sender = OmniAddress.sol []; destination_nonce = 9 }

not_near : ChainKind.eth ≢ ChainKind.near
not_near h = cc

handle_logs-overwrites_example :
    IsStored relayer server_laws texts_written server_serves refl "transfer" "41"
      (handle_logs relayer
        (OmniBridgeEvent.init_transfer_event message
          ∷ OmniBridgeEvent.fin_transfer_event foreign
          ∷ [])
        start).1
handle_logs-overwrites_example =
    handle_logs-overwrites relayer server_laws texts_written server_serves refl message foreign refl
      start refl not_near

handle_transfer-Handled_example :
    Handled relayer server_laws texts_written server_serves refl "41" "relayer.near" message refl
      start.db
      (process_transfer_event relayer "41" "relayer.near" (Transfer.near message) start).0
      (handle_transfer relayer "41" "relayer.near" (Transfer.near message) start).1
unfolding is_utxo_address
handle_transfer-Handled_example =
    handle_transfer-Handled relayer server_laws texts_written server_serves refl "41" "relayer.near"
      message refl start refl
