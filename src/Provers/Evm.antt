-- ===== src/Provers/Evm.antt =====
-- The prover of EVM events: near/omni-prover/evm-prover/src/lib.rs.
pub mod Proof
use omni_bridge.Prelude.{
  ℕ, String, Bool, true, false, Option, none, some, List, [], ◌∷◌, get_elem?, if◌then◌else◌,
}
use omni_bridge.Prelude.Equality.{PartialEq, ◌==◌, list_eq, nat_eq, option_eq}
use omni_bridge.Prelude.Result.{Result, ok, err, ok_or, ◌>>=◌}
use omni_bridge.Types.Chain.{ChainKind}
use omni_bridge.Types.Codecs.{Bytes, AccountId, Codecs}
use omni_bridge.Types.Messages.{ProverResult}
use omni_bridge.Provers.Events.{
  EventDecoders, init_transfer_from_log, fin_transfer_from_log, deploy_token_from_log,
  log_metadata_from_log,
}
use omni_bridge.Provers.Trie.{Rlp, require, verify_trie_proof}

pub data ProofKind : Type 0 where
  init_transfer fin_transfer deploy_token log_metadata : ProofKind

-- Of `BlockHeader` and `Receipt`, what the prover reads; a log entry is its encoded fields.
pub record BlockHeader : Type 0 where
  pub receipts_root : Bytes
  pub number : ℕ
  pub hash : Option Bytes

pub record EvmProof : Type 0 where
  pub log_index : ℕ
  pub log_entry_data : Bytes
  pub receipt_index : ℕ
  pub receipt_data : Bytes
  pub header_data : Bytes
  pub proof : List Bytes

pub record EvmVerifyProofArgs : Type 0 where
  pub proof_kind : ProofKind
  pub proof : EvmProof

pub record EvmProver : Type 0 where
  pub light_client : AccountId
  pub chain_kind : ChainKind

-- The call of the light client, and the callback on the prover with its arguments.
pub record BlockHashSafe : Type 0 where
  pub light_client : AccountId
  pub number : ℕ
  pub proof_kind : ProofKind
  pub log_entry_data : Bytes
  pub expected_block_hash : Bytes

-- The decoders of Borsh and RLP, and the encoder of an index, with the hash of the host. Log
-- entries are of a type that is compared only.
pub record EvmHost (LogEntry : Type 0) : Type 0 where
  pub codecs : Codecs
  pub rlp : Rlp
  pub events : EventDecoders
  pub parse_args : Bytes → Option EvmVerifyProofArgs
  pub decode_header : Bytes → Option BlockHeader
  pub decode_log_entry : Bytes → Option LogEntry
  pub decode_receipt_logs : Bytes → Option (List LogEntry)
  pub encode_index : ℕ → Bytes

module _ {LogEntry : Type 0} ⦃e : PartialEq LogEntry⦄ (host : EvmHost LogEntry) where
  open host use {
    codecs, rlp, events, parse_args, decode_header, decode_log_entry, decode_receipt_logs,
    encode_index,
  }

  unfoldable pub verify_proof : EvmProver → Bytes → Result BlockHashSafe
  verify_proof self input = do
    args ← ok_or (parse_args input) "ERR_PARSE_ARGS"
    header ← ok_or (decode_header args.proof.header_data) "DecoderError"
    log_entry ← ok_or (decode_log_entry args.proof.log_entry_data) "DecoderError"
    logs ← ok_or (decode_receipt_logs args.proof.receipt_data) "DecoderError"
    logged ← ok_or (get_elem? logs args.proof.log_index) "index out of bounds"
    require (logged == log_entry) (
        verify_trie_proof rlp codecs.keccak256 header.receipts_root
          (encode_index args.proof.receipt_index) args.proof.proof
        >>= λ value.
            if args.proof.receipt_data == value
            then (ok_or header.hash "ERR_HASH_NOT_SET" >>= λ hash. ok record {
              light_client = self.light_client;
              number = header.number;
              proof_kind = args.proof_kind;
              log_entry_data = args.proof.log_entry_data;
              expected_block_hash = hash;
            })
            else err "ERR_INVALID_PROOF")

  unfoldable pub parse_evm_event : ChainKind → ProofKind → Bytes → Result ProverResult
  parse_evm_event chain ProofKind.init_transfer log = do
    event ← ok_or (events.init_transfer log) "invalid log"
    m ← init_transfer_from_log codecs chain event
    ok (ProverResult.init_transfer m)
  parse_evm_event chain ProofKind.fin_transfer log = do
    event ← ok_or (events.fin_transfer log) "invalid log"
    m ← fin_transfer_from_log codecs chain event
    ok (ProverResult.fin_transfer m)
  parse_evm_event chain ProofKind.deploy_token log = do
    event ← ok_or (events.deploy_token log) "invalid log"
    m ← deploy_token_from_log codecs chain event
    ok (ProverResult.deploy_token m)
  parse_evm_event chain ProofKind.log_metadata log = do
    event ← ok_or (events.log_metadata log) "invalid log"
    m ← log_metadata_from_log codecs chain event
    ok (ProverResult.log_metadata m)

  -- With the answer of the light client.
  unfoldable pub verify_proof_callback :
      EvmProver → ProofKind → Bytes → Bytes → Option Bytes → Result ProverResult
  verify_proof_callback self kind log_entry_data expected_block_hash block_hash =
      if block_hash == some expected_block_hash
      then parse_evm_event self.chain_kind kind log_entry_data
      else err "ERR_INVALID_BLOCK_HASH"
