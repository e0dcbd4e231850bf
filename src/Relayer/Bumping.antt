-- ===== src/Relayer/Bumping.antt =====
-- The fees of transactions that an EVM chain does not include are raised:
-- omni-relayer/src/startup/evm_fee_bumping.rs, with `bump` of utils/pending_transactions.rs. The
-- pauses between the rounds are left out.
pub mod Bounds
use omni_bridge.Prelude.{
  ℕ, String, ◌+◌, ◌-◌, ◌*◌, ◌/◌, ◌%◌, ◌^◌, Bool, true, false, ◌||◌, Option, none, some, List, [],
  ◌∷◌, ltb, leb, if◌then◌else◌, unwrap_or,
}
use omni_bridge.Prelude.Result.{Result, ok, err}
use omni_bridge.Types.Chain.{ChainKind}
use omni_bridge.Relayer.Events.{PendingTransaction, Timestamp, new_event}
use omni_bridge.Relayer.Services.{Services, FeeBumping, Ask}
use omni_bridge.Relayer.Task.{State, Job, pure, bail, ask, lift, ◌>>=◌, ◌>>◌, timestamp}
use omni_bridge.Relayer.Redis.{zadd, zrem, zrange_pending, events_key}
use omni_bridge.Relayer.Workers.Common.{add_new}
use omni_bridge.Relayer.Workers.Deliver.{get_pending_tx_key}

-- `Eip1559Estimation`.
pub record Estimation : Type 0 where
  pub max_fee_per_gas : ℕ
  pub max_priority_fee_per_gas : ℕ

-- The reason, which is only printed, is left out.
pub data ShouldBump : Type 0 where
  bump : Estimation → ShouldBump
  leave : ShouldBump

-- What the node says of a transaction: its block, if it is in one, and its fees.
pub record TxData : Type 0 where
  pub block_number : Option ℕ
  pub max_fee_per_gas : ℕ
  pub max_priority_fee_per_gas : Option ℕ

pub data TransactionStatus : Type 0 where
  included pending : TxData → TransactionStatus
  missing : TransactionStatus

abbrev max : ℕ → ℕ → ℕ
max a b = if leb a b then b else a

-- A fee raised by the least percentage; the product wraps around at 128 bits, and the sum at 64.
abbrev pub raised : ℕ → ℕ → ℕ
raised percent fee = fee * ((100 + percent) % 2 ^ 64) % 2 ^ 128 / 100

unfoldable pub should_bump : FeeBumping → Estimation → Estimation → ShouldBump
should_bump config original suggested =
    if ltb suggested.max_fee_per_gas original.max_fee_per_gas
    then ShouldBump.leave
    else let new_max_fee =
        max (raised config.min_fee_increase_percent original.max_fee_per_gas)
          suggested.max_fee_per_gas in
      let new_priority_fee =
        max (raised config.min_fee_increase_percent original.max_priority_fee_per_gas)
          suggested.max_priority_fee_per_gas in
      if ltb config.max_fee_in_wei new_max_fee
      then ShouldBump.leave
      else ShouldBump.bump
          (record { max_fee_per_gas = new_max_fee; max_priority_fee_per_gas = new_priority_fee })

raised_lately : FeeBumping → Timestamp → Option Timestamp → Bool
raised_lately config now none = false
raised_lately config now (some last) = ltb now (last + config.min_since_last_bump_seconds)

-- Too young, or raised too short a while ago.
unfoldable pub waits : FeeBumping → Timestamp → PendingTransaction → Bool
unfolding raised_lately
waits config now tx =
    ltb now (tx.sent_timestamp + config.min_pending_time_seconds)
    || raised_lately config now tx.last_bump_timestamp

unfoldable pub bumped : PendingTransaction → String → Timestamp → PendingTransaction
bumped tx tx_hash now = record tx { tx_hash = tx_hash; last_bump_timestamp = some now }

-- The node of the chain, through `alloy`.
pub record Provider (Net : Type 0) : Type 0 where
  pub parse_hash : String → Option String
  pub get_transaction_by_hash : String → Ask Net (Result (Option TxData))
  pub estimate_eip1559_fees : Ask Net (Result Estimation)
  -- a transaction again with other fees, and its hash
  pub send_replacement : TxData → Estimation → Ask Net (Result String)

module _ (services : Services) (provider : Provider services.Net) where
  open services use {json}

  status_of : Option TxData → TransactionStatus
  status_of none = TransactionStatus.missing
  status_of (some tx) = elim tx.block_number [
    | none ↦ TransactionStatus.pending tx
    | some _ ↦ TransactionStatus.included tx
  ]

  map_status : Result (Option TxData) → Result TransactionStatus
  map_status (ok found) = ok (status_of found)
  map_status (err e) = err e

  unfoldable pub get_transaction_status : String → Job services (Result TransactionStatus)
  unfolding status_of map_status
  get_transaction_status tx_hash = elim (provider.parse_hash tx_hash) [
    | none ↦ pure (err "invalid hash")
    | some hash ↦ do
      found ← ask services (provider.get_transaction_by_hash hash)
      pure (map_status found)
  ]

  -- The replacement takes the place of the transaction in the queue.
  replaced : String → PendingTransaction → Result String → Job services Unit
  replaced key tx (err _) = pure tt
  replaced key tx (ok new_tx_hash) = do
    zrem services key (json.write_pending tx)
    now ← timestamp services
    zadd services key tx.nonce (json.write_pending (bumped tx new_tx_hash now))

  replace : String → PendingTransaction → TxData → ShouldBump → Job services Unit
  replace key tx tx_data ShouldBump.leave = pure tt
  replace key tx tx_data (ShouldBump.bump new_fee) = do
    sent ← ask services (provider.send_replacement tx_data new_fee)
    replaced key tx sent

  original_fee : TxData → Estimation
  original_fee tx_data = record {
    max_fee_per_gas = tx_data.max_fee_per_gas;
    max_priority_fee_per_gas = unwrap_or tx_data.max_priority_fee_per_gas 0;
  }

  act : FeeBumping → String → PendingTransaction → Result TransactionStatus → Job services Unit
  act config key tx (err _) = pure tt
  act config key tx (ok (TransactionStatus.included _)) = zrem services key (json.write_pending tx)
  act config key tx (ok TransactionStatus.missing) = do
    add_new services events_key tx.source_event_id (json.bridge_event_value tx.source_event)
    zrem services key (json.write_pending tx)
  act config key tx (ok (TransactionStatus.pending tx_data)) = do
    answer ← ask services provider.estimate_eip1559_fees
    suggested ← lift answer
    replace key tx tx_data (should_bump config (original_fee tx_data) suggested)

  watch : FeeBumping → String → PendingTransaction → Job services Unit
  watch config key tx = do status ← get_transaction_status tx.tx_hash; act config key tx status

  -- With the first of the queue.
  unfoldable pub attend : FeeBumping → String → Option (List PendingTransaction) → Job services Unit
  unfolding replaced replace original_fee act watch
  attend config key none = pure tt
  attend config key (some []) = pure tt
  attend config key (some (tx ∷ _)) = do
    now ← timestamp services
    if waits config now tx then pure tt else watch config key tx

  -- A round of the loop of `start_evm_fee_bumping`.
  unfoldable pub bump_round : FeeBumping → ChainKind → Job services Unit
  bump_round config chain_kind = do
    let key = get_pending_tx_key chain_kind
    found ← zrange_pending services key 0 0
    attend config key found
