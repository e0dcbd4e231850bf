-- ===== src/Provers/Witnesses.antt =====
-- Concrete proofs for the provers.
use omni_bridge.Prelude.{
  ℕ, zero, suc, ◌≡◌, ◌≢◌, refl, Option, none, some, List, [], ◌∷◌, length, get_elem?, arith,
}
use omni_bridge.Prelude.Equality.{nat_eq}
use omni_bridge.Prelude.Result.{ok}
use omni_bridge.Types.Chain.{ChainKind}
use omni_bridge.Types.Codecs.{Bytes, Codecs}
use omni_bridge.Types.Address.{OmniAddress}
use omni_bridge.Types.Messages.{ProverResult}
use omni_bridge.Types.Address.{new_from_slice, to_sol_address}
use omni_bridge.Provers.Evm.{
  ProofKind, EvmVerifyProofArgs, BlockHeader, EvmHost, EvmProver, BlockHashSafe, verify_proof,
}
use omni_bridge.Provers.Evm.Proof.{verify_proof-ok}
use omni_bridge.Provers.Wormhole.{
  FinTransferWh, WormholeHost, verify_vaa_callback, as_result, to_fin_transfer,
}
use omni_bridge.Provers.Wormhole.Kind.{kind_of, verify_vaa_callback-ok}
use omni_bridge.Provers.Slices.{index}
use omni_bridge.Provers.Trie.{
  Rlp, walk, is_expected, visit, visit_short, visit_leaf, verify_trie_proof,
}
use omni_bridge.Provers.Trie.Unique.{Same, verify_trie_proof_unique}
use omni_bridge.Provers.Vaa.{ParsedVaa, parse}
use omni_bridge.Provers.Vaa.RoundTrip.{vaa_of, body_of, parse-vaa_of}

-- A hash of 32 bytes, which collides, and an encoding of nodes as two items: the path of one byte,
-- and the rest as the value.
abbrev zeros : ℕ → Bytes
zeros zero = []
zeros (suc n) = 0 ∷ zeros n

abbrev hash : Bytes → Bytes
hash b = length b ∷ zeros 31

hash_width : (b : Bytes) → length (hash b) ≡ 32
hash_width b = refl

abbrev items : Bytes → ℕ → Option Bytes
items [] i = none
items (x ∷ xs) zero = some (x ∷ [])
items (x ∷ xs) (suc _) = some xs

abbrev rlp : Rlp
rlp = record { item_count = λ _. 2; item_at = items }

-- A leaf with no nibbles left: the first nibble of the path is 2.
abbrev leaf : Bytes
leaf = 32 ∷ 5 ∷ 6 ∷ []

leaf-run : verify_trie_proof rlp hash (hash leaf) [] (leaf ∷ []) ≡ ok (5 ∷ 6 ∷ [])
unfolding verify_trie_proof walk is_expected visit visit_short visit_leaf
leaf-run = refl

verify_trie_proof_unique_example : Same hash (5 ∷ 6 ∷ []) (5 ∷ 6 ∷ [])
verify_trie_proof_unique_example =
    verify_trie_proof_unique rlp hash hash_width (hash leaf) [] (leaf ∷ []) (leaf ∷ []) (5 ∷ 6 ∷ [])
      (5 ∷ 6 ∷ []) leaf-run leaf-run

abbrev vaa : ParsedVaa
vaa = record {
  version = 1;
  guardian_set_index = 4;
  timestamp = 1700000000;
  nonce = 3;
  len_signers = 1;
  emitter_chain = 2;
  emitter_address = zeros 32;
  sequence = 42;
  consistency_level = 1;
  payload = 1 ∷ 9 ∷ [];
  hash = [];
}

parse-vaa_of_example :
    parse hash (vaa_of vaa (zeros 66)) ≡ ok (record vaa { hash = hash (body_of vaa) })
parse-vaa_of_example =
    parse-vaa_of vaa (zeros 66)
      (omega arith, omega arith, omega arith, omega arith, omega arith, refl, refl) hash

abbrev codecs : Codecs
codecs = record {
  hex_decode = λ _. some (vaa_of vaa (zeros 66));
  hex_encode = λ _. "";
  bs58_decode = λ _. none;
  bs58_encode = λ _. "";
  parse_account_id = λ s. some s;
  from_utf8 = λ _. none;
  utf8 = λ _. [];
  parse_u32 = λ _. none;
  print_u32 = λ _. "0";
  keccak256 = hash;
  sha256 = λ b. b;
}

abbrev args : EvmVerifyProofArgs
args = record {
  proof_kind = ProofKind.init_transfer;
  proof = record {
    log_index = 0;
    log_entry_data = 7 ∷ [];
    receipt_index = 0;
    receipt_data = 5 ∷ 6 ∷ [];
    header_data = [];
    proof = leaf ∷ [];
  };
}

abbrev header : BlockHeader
header = record { receipts_root = hash leaf; number = 100; hash = some (1 ∷ []) }

abbrev evm_host : EvmHost ℕ
evm_host = record {
  codecs = codecs;
  rlp = rlp;
  events = record {
    init_transfer = λ _. none;
    fin_transfer = λ _. none;
    deploy_token = λ _. none;
    log_metadata = λ _. none;
  };
  parse_args = λ _. some args;
  decode_header = λ _. some header;
  decode_log_entry = λ _. some 7;
  decode_receipt_logs = λ _. some (7 ∷ []);
  encode_index = λ _. [];
}

abbrev prover : EvmProver
prover = record { light_client = "client.near"; chain_kind = ChainKind.eth }

abbrev light_client_call : BlockHashSafe
light_client_call = record {
  light_client = "client.near";
  number = 100;
  proof_kind = ProofKind.init_transfer;
  log_entry_data = 7 ∷ [];
  expected_block_hash = 1 ∷ [];
}

verify_proof-run : verify_proof evm_host prover [] ≡ ok light_client_call
unfolding verify_proof verify_trie_proof walk is_expected visit visit_short visit_leaf
verify_proof-run = refl

verify_proof-ok_example :
    (used : EvmVerifyProofArgs) × (read : BlockHeader) × (log : ℕ) × (logs : List ℕ) × (some args
      ≡ some used)
    × (some header ≡ some read)
    × (some 7 ≡ some log)
    × (some (7 ∷ []) ≡ some logs)
    × (get_elem? logs used.proof.log_index ≡ some log)
    × (verify_trie_proof rlp hash read.receipts_root [] used.proof.proof
        ≡ ok used.proof.receipt_data)
    × (read.hash ≡ some (1 ∷ []))
    × (100 ≡ read.number)
    × (ProofKind.init_transfer ≡ used.proof_kind)
    × (7 ∷ [] ≡ used.proof.log_entry_data)
    × (light_client_call.light_client ≡ prover.light_client)
verify_proof-ok_example = verify_proof-ok evm_host prover [] verify_proof-run

abbrev fin_message : FinTransferWh
fin_message = record {
  payload_type = ProofKind.fin_transfer;
  transfer_id = record { origin_chain = ChainKind.near; origin_nonce = 3 };
  token_address = OmniAddress.sol (zeros 32);
  amount = 10;
  fee_recipient = "relayer.near";
}

abbrev wormhole_host : WormholeHost
wormhole_host = record {
  codecs = codecs;
  parse_args = λ _. none;
  init_transfer_wh = λ _. none;
  fin_transfer_wh = λ _. some fin_message;
  deploy_token_wh = λ _. none;
  log_metadata_wh = λ _. none;
}

abbrev answer : Option ℕ
answer = some 4

abbrev proved : ProverResult
proved = ProverResult.fin_transfer record {
  transfer_id = record { origin_chain = ChainKind.near; origin_nonce = 3 };
  fee_recipient = some "relayer.near";
  amount = 10;
  emitter_address = OmniAddress.sol (zeros 32);
}

verify_vaa_callback-run :
    verify_vaa_callback wormhole_host ProofKind.fin_transfer "01" answer ≡ ok proved
unfolding verify_vaa_callback parse as_result to_fin_transfer new_from_slice to_sol_address
verify_vaa_callback-run = refl

verify_vaa_callback-ok_example :
    (bytes : Bytes) × (parsed : ParsedVaa) × (answer ≢ none)
    × (some (vaa_of vaa (zeros 66)) ≡ some bytes)
    × (parse hash bytes ≡ ok parsed)
    × (index parsed.payload 0 ≡ ok 1)
    × (kind_of proved ≡ ProofKind.fin_transfer)
verify_vaa_callback-ok_example =
    verify_vaa_callback-ok wormhole_host ProofKind.fin_transfer "01" answer verify_vaa_callback-run
