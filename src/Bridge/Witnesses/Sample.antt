-- ===== src/Bridge/Witnesses/Sample.antt =====
-- Concrete states and calls of the contract.
use omni_bridge.Prelude.{true, false, none, some, [], ◌∷◌, ◌+◌, ◌≢◌}
use omni_bridge.Prelude.Equality.{string_eq}
use omni_bridge.Prelude.Result.{Result, ok}
use omni_bridge.Types.Chain.{ChainKind, chain_eq}
use omni_bridge.Types.Codecs.{Codecs}
use omni_bridge.Types.Address.{OmniAddress, zeros, address_eq}
use omni_bridge.Types.Transfer.{TransferMessage, transfer_id_eq}
use omni_bridge.Types.Messages.{InitTransferMessage, ProverResult}
use omni_bridge.Types.Stored.{Decimals, TransferMessageStorage}
use omni_bridge.Host.{Host, Env, PromiseResult}
use omni_bridge.Bridge.State.{Contract, State, start, new}

-- Libraries that answer trivially: no property depends on their values.
abbrev pub codecs : Codecs
codecs = record {
  hex_decode = λ _. none;
  hex_encode = λ _. "account";
  bs58_decode = λ _. none;
  bs58_encode = λ _. "";
  parse_account_id = λ s. some s;
  from_utf8 = λ _. none;
  utf8 = λ _. [];
  parse_u32 = λ _. none;
  print_u32 = λ _. "0";
  keccak256 = λ b. b;
  sha256 = λ b. b;
}

abbrev pub proved_transfer : InitTransferMessage
proved_transfer = record {
  origin_nonce = 7;
  token = OmniAddress.eth (zeros 20);
  amount = 5;
  recipient = OmniAddress.near "bob";
  fee = record { fee = 0; native_fee = 0 };
  sender = OmniAddress.eth (zeros 20);
  msg = "";
  emitter_address = OmniAddress.eth (zeros 20);
}

abbrev pub host : Host
host = record {
  codecs = codecs;
  storage_byte_cost = 1;
  record_bytes = λ k v. 40 + k + v;
  account_id_len = λ _. 64;
  transfer_id_len = λ _. 9;
  unified_id_len = λ _. 80;
  transfer_storage_len = λ _. 300;
  storage_balance_len = λ _. 32;
  fast_id_len = λ _. 32;
  fast_status_len = λ _. 130;
  utxo_key_len = λ _ _. 80;
  chain_account_len = λ _ _. 69;
  address_len = λ _. 69;
  decimals_len = 2;
  yield_id_len = 32;
  fast_transfer_borsh = λ _. [];
  storage_account_borsh = λ _. [];
  transfer_payload_borsh = λ _. [];
  metadata_payload_borsh = λ _. [];
  parse_bridge_msg = λ _. none;
  parse_init_transfer_msg = λ _. none;
  parse_token_receiver_message = λ _. none;
  parse_max_gas_fee = λ _. none;
  parse_prover_result = λ _. some (ProverResult.init_transfer proved_transfer);
  parse_storage_balance = λ _. some (some (record { total = 1; available = 1 }));
  parse_u128 = λ _. some 0;
  parse_h160 = λ _. none;
  hash_map_order = [];
}

-- A callback of the contract, and a call by `alice` with a deposit of one yocto.
abbrev pub callback_env : Env
callback_env = record {
  host = host;
  predecessor = "bridge";
  signer = "relayer";
  current = "bridge";
  attached_deposit = 1;
  promise_results = PromiseResult.successful [] ∷ PromiseResult.successful [] ∷ [];
  acl_has_role = λ _ _. false;
  is_paused = λ _. false;
  yield_id = [];
  promise_yield_resume = λ _. true;
}

abbrev pub alice_env : Env
alice_env = record callback_env { predecessor = "alice" }

abbrev pub token_decimals : Decimals
token_decimals = record { decimals = 2; origin_decimals = 4 }

abbrev pub message : TransferMessage
message = record {
  origin_nonce = 3;
  token = OmniAddress.near "token";
  amount = 12_345;
  recipient = OmniAddress.eth (zeros 20);
  fee = record { fee = 45; native_fee = 10 };
  sender = OmniAddress.near "alice";
  msg = "";
  destination_nonce = 1;
  origin_transfer_id = none;
}

abbrev pub empty : Contract
empty = new "signer" "wnear"

-- A token on Ethereum, an open transfer of it by `alice`, and balances.
abbrev pub contract : Contract
contract = record empty {
  factories = λ _. some (OmniAddress.eth (zeros 20));
  pending_transfers =
      λ _. some (TransferMessageStorage.v2 (record { message = message; owner = "alice" }));
  token_id_to_address = λ _. some (OmniAddress.eth (zeros 20));
  token_address_to_id = λ _. some "token";
  token_decimals = λ _. some token_decimals;
  accounts_balances = λ _. some (record { total = 2_000; available = 1_000 });
}

abbrev pub state : State
state = start contract

-- What a run returns, and the state it ends in.
abbrev pub returned : {A : Type 0} → A → Result (A × State) → A
returned a (ok (r, _)) = r
returned a _ = a

abbrev pub final : {A : Type 0} → Result (A × State) → State
final (ok (_, t)) = t
final _ = state

pub eth_is_not_near : ChainKind.eth ≢ ChainKind.near
eth_is_not_near h = cc
