-- ===== src/Relayer/Workers/Witnesses/Sample.antt =====
-- A relayer with one Redis server and clients that accept every transaction.
use omni_bridge.Prelude.{
  ℕ, ltb, String, true, false, ◌&&◌, Option, none, some, [], ◌∷◌, ◌^◌, ◌≡◌, refl, ◌≢◌, ◌⊎◌, inl,
  inr, arith, if◌then◌else◌,
}
use omni_bridge.Prelude.Equality.{◌==◌, string_eq, beq_self, beq_ne}
use omni_bridge.Prelude.Result.{err}
use omni_bridge.Types.Codecs.{Codecs}
use omni_bridge.Relayer.Nonces.{NearAnswer}
use omni_bridge.Relayer.Services.{
  Services, Connector, RedisServer, Json, Config, SdkResult, SdkError, Ask,
}
use omni_bridge.Relayer.Redis.Laws.{Laws, Serves}
use omni_bridge.Relayer.Workers.Near.Charges.{Writes}

abbrev pub Store : Type 0
Store = String → String → Option String

abbrev pub put : String → String → Option String → Store → Store
put k f v db j g = if k == j && f == g then v else db j g

pub put_here : (k f : String) (v : Option String) (db : Store) → put k f v db k f ≡ v
put_here k f v db = rw (beq_self k) (rw (beq_self f) refl)

pub put_elsewhere :
    (k f : String) (v : Option String) (db : Store) (j g : String)
    → (k ≢ j) ⊎ (f ≢ g)
    → put k f v db j g ≡ db j g
put_elsewhere k f v db j g (inl differs) = rw (beq_ne k j differs) refl
put_elsewhere k f v db j g (inr differs) = ground (arith, beq_ne f g differs)

abbrev pub server : RedisServer Store
server = record {
  hset = λ k f v db. (true, put k f (some v) db);
  hget = λ k f db. (some (db k f), db);
  hdel = λ k f db. (true, put k f none db);
  hscan = λ k db. (none, db);
  zadd = λ k score member db. (true, db);
  zrange = λ k start stop db. (none, db);
  zrem = λ k member db. (none, db);
}

pub server_laws : Laws server
server_laws = record {
  field = λ k f db. db k f;
  hset-field = λ k f v db served. put_here k f (some v) db;
  hset-other = λ k f v db. put_elsewhere k f (some v) db;
  hdel-field = λ k f db served. put_here k f none db;
  hdel-other = λ k f db. put_elsewhere k f none db;
  hget-same = λ k f db j g. refl;
}

pub server_serves : Serves server
server_serves = record { hset-served = λ k f v db. refl; hdel-served = λ k f db. refl }

-- An event is written as its name.
abbrev pub texts : Json String
texts = record {
  transfer_value = λ t. some "transfer";
  bridge_event_value = λ e. some "bridge event";
  confirmed_value = λ e. some "confirmed";
  unverified_value = λ u. some u.original_key;
  as_transfer = λ v. none;
  read_bridge_event = λ line. none;
  as_bridge_event = λ v. none;
  as_fin_transfer = λ v. none;
  as_deploy_token = λ v. none;
  as_sign_utxo = λ v. none;
  as_confirmed = λ v. none;
  as_unverified = λ v. none;
  write_retryable = λ e. some e.event;
  read_retryable = λ text. some (record {
    event = text;
    creation_timestamp = 100;
    last_updated_timestamp = 100;
    retries = 2;
  });
  write_fee = λ fee. some "fee";
  read_fee = λ text. none;
  write_transfer_id = λ id. some "id";
  write_unified_id = λ id. some "unified id";
  write_pending = λ tx. some tx.tx_hash;
  read_pending = λ text. none;
  read_max_gas_fee = λ text. none;
}

pub texts_written : Writes texts
texts_written = record {
  unverified-written = λ u. (u.original_key, refl);
  retryable-written = λ e. (e.event, refl);
  id-written = λ id. ("id", refl);
}

abbrev pub unknown : {A : Type 0} → Ask Unit (SdkResult A)
unknown net = (SdkResult.err (SdkError.other "no client"), net)

abbrev pub accepted : Ask Unit (SdkResult String)
accepted net = (SdkResult.ok "hash", net)

abbrev pub clients : Connector Unit
clients = record {
  near_account_id = SdkResult.ok "relayer.near";
  near_client_configured = true;
  utxo_chain_token = λ c. SdkResult.ok "btc.near";
  near_get_transfer_message = λ id. unknown;
  is_transfer_finalised = λ from to nonce net. (SdkResult.ok false, net);
  near_is_transfer_finalised = λ id net. (SdkResult.ok false, net);
  near_get_fast_transfer_status = λ id. unknown;
  near_get_token_id = λ a. unknown;
  near_get_native_token_id = λ c. unknown;
  near_get_required_storage_deposit = λ t a. unknown;
  get_required_balance_for_fast_fin_transfer = unknown;
  evm_get_last_block_number = λ c. unknown;
  wormhole_get_vaa = λ c e n. unknown;
  wormhole_get_vaa_by_tx_hash = λ h. unknown;
  get_proof_for_event = λ h k c. unknown;
  near_sign_transfer = λ id signer fee options. accepted;
  near_submit_btc_transfer = λ c a n id options max. accepted;
  fin_transfer = λ args. accepted;
  near_claim_fee = λ args options. accepted;
  bind_token = λ args options. accepted;
  deposit_storage_if_required = λ n options. unknown;
  near_fast_transfer = λ c h n options. accepted;
  near_sign_btc_transaction = λ c id n options. accepted;
  near_storage_deposit_for_token = λ t n a options. accepted;
  btc_fin_transfer = λ c h a. accepted;
  near_btc_verify_withdraw = λ c h options. accepted;
}

abbrev pub settings : Config
settings = record {
  sleep_time_after_events_process_secs = 1;
  query_retry_attempts = 10;
  Decimal = ℕ;
  powu = λ base n. if ltb (base ^ n) (2 ^ 96) then some (base ^ n) else none;
  to_u64 = λ n. if ltb n (2 ^ 64) then some n else none;
  fee_retry_base_secs = 2;
  fee_retry_max_sleep_secs = 60;
  keep_transfers_for_secs = 3600;
  api_url = none;
  fee_discount = 0;
  omni_bridge_id = "omni.near";
  sign_without_checking_fee = none;
  evm = λ c. none;
  solana_chain_id = 1;
}

abbrev pub codecs : Codecs
codecs = record {
  hex_decode = λ t. none;
  hex_encode = λ b. "";
  bs58_decode = λ t. none;
  bs58_encode = λ b. "";
  parse_account_id = λ t. some t;
  from_utf8 = λ b. none;
  utf8 = λ t. [];
  parse_u32 = λ t. none;
  print_u32 = λ n. "";
  keccak256 = λ b. b;
  sha256 = λ b. b;
}

-- The transaction is reported to have failed for a reason after which it is sent again.
abbrev pub relayer : Services
relayer = record {
  Net = Unit;
  Db = Store;
  Value = String;
  omni_connector = clients;
  fast_connector = clients;
  redis = server;
  json = texts;
  codecs = codecs;
  config = settings;
  now = λ net. (150, net);
  near_answers = λ net. ((λ i. NearAnswer.access_key 6), net);
  evm_answers = λ c net. ((λ i. some 4), net);
  fetch_fee = λ url a b c net. (err "no api", net);
  transaction_status = λ h a net. (some (some (none ∷ some "Exceeded the prepaid gas." ∷ [])), net);
  wormhole_args = λ k vaa. none;
  evm_args = λ k proof. none;
  fast_transfer_id = λ f. [];
  print_address = λ a. "";
  print_hash = λ h. "";
  print_key = λ k. "";
  print_nonce = λ n. "41";
  print_utxo_id = λ id. id.tx_hash;
  parse_key = λ t. none;
  parse_hash = λ t. some t;
  contains = λ text part. text == part;
  print_sdk_error = λ e. "";
  discount_usd = λ usd percent. usd;
}
