-- ===== src/Relayer/Redis/Laws.antt =====
-- What the relayer relies on of Redis, and what its requests then do to the stored events.
use omni_bridge.Prelude.{
  ℕ, zero, suc, String, Bool, true, false, Option, none, some, ◌≡◌, refl, ◌≢◌, ◌⊎◌, inl, inr, ◌∙◌,
  Bool-cases, Option-cases,
}
use omni_bridge.Prelude.Equality.{string_eq}
use omni_bridge.Relayer.Services.{RedisServer, Services}
use omni_bridge.Relayer.Task.{State}
use omni_bridge.Relayer.Redis.{
  try_request, try_read, add_event, remove_event, get_fee, write, events_key, fee_mapping_key,
}
use omni_bridge.Relayer.Rules.{Keeps, OnDb}

-- HSET, HDEL and HGET, with the text at a field of a hash. A request writes at its field only, and
-- a request that is served has written there; one that is not may or may not have.
pub record Laws {Db : Type 0} (redis : RedisServer Db) : Type 0 where
  pub field : String → String → Db → Option String
  pub hset-field :
      (k f v : String) (db : Db)
      → (redis.hset k f v db).0 ≡ true
      → field k f (redis.hset k f v db).1 ≡ some v
  pub hset-other :
      (k f v : String) (db : Db) (j g : String)
      → (k ≢ j) ⊎ (f ≢ g)
      → field j g (redis.hset k f v db).1 ≡ field j g db
  pub hdel-field :
      (k f : String) (db : Db)
      → (redis.hdel k f db).0 ≡ true
      → field k f (redis.hdel k f db).1 ≡ none
  pub hdel-other :
      (k f : String) (db : Db) (j g : String)
      → (k ≢ j) ⊎ (f ≢ g)
      → field j g (redis.hdel k f db).1 ≡ field j g db
  pub hget-same :
      (k f : String) (db : Db) (j g : String) → field j g (redis.hget k f db).1 ≡ field j g db

-- Every write is served.
pub record Serves {Db : Type 0} (redis : RedisServer Db) : Type 0 where
  pub hset-served : (k f v : String) (db : Db) → (redis.hset k f v db).0 ≡ true
  pub hdel-served : (k f : String) (db : Db) → (redis.hdel k f db).0 ≡ true

module _ {Db : Type 0} (P : Db → Type 0) where
  -- What each attempt keeps, the loop keeps.
  try_request-keeps :
      (request : Db → Bool × Db)
      → ((db : Db) → P db → P (request db).1)
      → (n : ℕ) (db : Db) → P db
      → P (try_request n request db)
  unfolding try_request
  try_request-keeps request step zero db p = p
  try_request-keeps request step (suc n) db p = elim (Bool-cases (request db).0) [
    | inl served ↦ rw served (step db p)
    | inr failed ↦ rw failed (try_request-keeps request step n (request db).1 (step db p))
  ]

  try_read-keeps :
      {A : Type 0} (request : Db → Option A × Db)
      → ((db : Db) → P db → P (request db).1)
      → (n : ℕ) (db : Db) → P db
      → P (try_read n request db).1
  unfolding try_read
  try_read-keeps request step zero db p = p
  try_read-keeps request step (suc n) db p = elim (Option-cases (request db).0) [
    | inl failed ↦ rw (failed, try_read) (try_read-keeps request step n (request db).1 (step db p))
    | inr (a, found) ↦ rw (found, try_read) (step db p)
  ]

try_request-served :
    {Db : Type 0} (n : ℕ) (request : Db → Bool × Db) (db : Db)
    → (request db).0 ≡ true
    → try_request (suc n) request db ≡ (request db).1
unfolding try_request
try_request-served n request db served = rw served refl

fee_mapping-ne-events : fee_mapping_key ≢ events_key
fee_mapping-ne-events same = no_match ((string_eq.agrees fee_mapping_key events_key).1 same)
  where
    no_match : false ≡ true → ⊥
    no_match h = cc

module _ (services : Services) (laws : Laws services.redis) where
  open services use {Db, redis, config}

  -- The stored events are those of an earlier state.
  abbrev pub SameEvents : Db → Db → Type 0
  SameEvents before db = (g : String) → laws.field events_key g db ≡ laws.field events_key g before

  module _ (before : Db) where
    abbrev pub Kept : State services → Type 0
    Kept = OnDb {services = services} (SameEvents before)

    pub Keeps-add_fee :
        (id : String) (text : Option String)
        → Keeps Kept (add_event services fee_mapping_key id text)
    unfolding add_event write
    Keeps-add_fee id none = record { at = λ s p. p }
    Keeps-add_fee id (some text) = record {
      at = λ s p. record {
        at =
            try_request-keeps (SameEvents before) (redis.hset fee_mapping_key id text)
              (λ db same g.
                laws.hset-other fee_mapping_key id text db events_key g (inl fee_mapping-ne-events)
                ∙ same g)
              config.query_retry_attempts s.db p.at;
      };
    }

    pub Keeps-remove_fee : (id : String) → Keeps Kept (remove_event services fee_mapping_key id)
    unfolding remove_event write
    Keeps-remove_fee id = record {
      at = λ s p. record {
        at =
            try_request-keeps (SameEvents before) (redis.hdel fee_mapping_key id)
              (λ db same g.
                laws.hdel-other fee_mapping_key id db events_key g (inl fee_mapping-ne-events)
                ∙ same g)
              config.query_retry_attempts s.db p.at;
      };
    }

    pub Keeps-get_fee : (id : String) → Keeps Kept (get_fee services id)
    unfolding get_fee
    Keeps-get_fee id = record {
      at = λ s p. record {
        at =
            try_read-keeps (SameEvents before) (redis.hget fee_mapping_key id)
              (λ db same g. laws.hget-same fee_mapping_key id db events_key g ∙ same g)
              config.query_retry_attempts s.db p.at;
      };
    }

  module _ (serves : Serves redis) {n : ℕ} (tries : config.query_retry_attempts ≡ suc n) where
    -- An event that is written is stored at its field, and the other events stay.
    pub add_event-field :
        (field text : String) (s : State services)
        → (laws.field events_key field (add_event services events_key field (some text) s).1.db
            ≡ some text)
          × ((g : String)
              → field ≢ g
              → laws.field events_key g (add_event services events_key field (some text) s).1.db
                ≡ laws.field events_key g s.db)
    unfolding add_event write
    add_event-field field text s =
        let served = serves.hset-served events_key field text s.db in
        let done : try_request config.query_retry_attempts (redis.hset events_key field text) s.db
            ≡ (redis.hset events_key field text s.db).1 =
          rw tries (try_request-served n _ s.db served) in
        rw done (
          laws.hset-field events_key field text s.db served,
          (λ g differs. laws.hset-other events_key field text s.db events_key g (inr differs)),
        )

    pub remove_event-field :
        (field : String) (s : State services)
        → (laws.field events_key field (remove_event services events_key field s).1.db ≡ none)
          × ((g : String)
              → field ≢ g
              → laws.field events_key g (remove_event services events_key field s).1.db
                ≡ laws.field events_key g s.db)
    unfolding remove_event write
    remove_event-field field s =
        let served = serves.hdel-served events_key field s.db in
        let done : try_request config.query_retry_attempts (redis.hdel events_key field) s.db
            ≡ (redis.hdel events_key field s.db).1 =
          rw tries (try_request-served n _ s.db served) in
        rw done (
          laws.hdel-field events_key field s.db served,
          (λ g differs. laws.hdel-other events_key field s.db events_key g (inr differs)),
        )
