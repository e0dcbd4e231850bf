-- ===== src/Relayer/Redis.antt =====
-- The requests to Redis, each tried again a number of times: omni-relayer/src/utils/redis.rs. The
-- pauses between the attempts are left out.
pub mod Laws
use omni_bridge.Prelude.{
  ℕ, zero, suc, String, Bool, true, false, Option, none, some, List, [], ◌∷◌, nat_beq,
  if◌then◌else◌,
}
use omni_bridge.Prelude.Result.{Result, ok}
use omni_bridge.Relayer.Events.{RetryableEvent, TransferFee, PendingTransaction}
use omni_bridge.Relayer.Services.{Services}
use omni_bridge.Relayer.Task.{State, Job}

abbrev pub events_key : String
events_key = "events"

abbrev pub stuck_events_key : String
stuck_events_key = "stuck_events"

abbrev pub fee_mapping_key : String
fee_mapping_key = "fee_mapping"

-- The loop over the attempts of a request that gives nothing back.
unfoldable pub try_request : {Db : Type 0} → ℕ → (Db → Bool × Db) → Db → Db
try_request zero request db = db
try_request (suc left) request db =
    let (served, after) = request db in
    let again = try_request left request after in if served then after else again

-- The same for a request with an answer.
unfoldable pub try_read : {Db A : Type 0} → ℕ → (Db → Option A × Db) → Db → Option A × Db
try_read zero request db = (none, db)
try_read (suc left) request db =
    let (answer, after) = request db in
    elim answer [ some a ↦ (some a, after) | none ↦ try_read left request after ]

-- `filter_map(|member| from_str(member).ok())`.
abbrev pub keep_read : {A : Type 0} → (String → Option A) → List String → List A
keep_read read [] = []
keep_read read (x ∷ xs) = elim (read x) [
  | none ↦ keep_read read xs
  | some a ↦ a ∷ keep_read read xs
]

module _ (services : Services) where
  open services use {Db, Value, redis, json, config}

  unfoldable pub write : (Db → Db) → Job services Unit
  write f s = (ok tt, record s { db = f s.db })

  unfoldable pub read : {A : Type 0} → (Db → A × Db) → Job services A
  read f s = let (a, db) = f s.db in (ok a, record s { db = db })

  -- `add_event`; an event that cannot be written as JSON is dropped.
  unfoldable pub add_event : String → String → Option String → Job services Unit
  add_event key field none = write (λ db. db)
  add_event key field (some serialized) =
      write (try_request config.query_retry_attempts (redis.hset key field serialized))

  unfoldable pub remove_event : String → String → Job services Unit
  remove_event key field = write (try_request config.query_retry_attempts (redis.hdel key field))

  unfoldable pub get_events : String → Job services (Option (List (String × String)))
  get_events key = read (try_read config.query_retry_attempts (redis.hscan key))

  abbrev pub parsed_fee : Option (Option String) → Option TransferFee
  parsed_fee (some (some serialized)) = json.read_fee serialized
  parsed_fee _ = none

  unfoldable pub get_fee : String → Job services (Option TransferFee)
  get_fee transfer_id s =
      let (found, db) =
        try_read config.query_retry_attempts (redis.hget fee_mapping_key transfer_id) s.db in
      (ok (parsed_fee found), record s { db = db })

  unfoldable pub zadd : String → ℕ → Option String → Job services Unit
  zadd key score none = write (λ db. db)
  zadd key score (some member) =
      write (try_request config.query_retry_attempts (redis.zadd key score member))

  unfoldable pub zrange_pending : String → ℕ → ℕ → Job services (Option (List PendingTransaction))
  zrange_pending key start stop s =
      let (found, db) = try_read config.query_retry_attempts (redis.zrange key start stop) s.db in
      (
        ok (elim found [ none ↦ none | some members ↦ some (keep_read json.read_pending members) ]),
        record s { db = db },
      )

  unfoldable pub zrem : String → Option String → Job services Unit
  zrem key none = write (λ db. db)
  zrem key (some member) =
      write (λ db. (try_read config.query_retry_attempts (redis.zrem key member) db).1)
