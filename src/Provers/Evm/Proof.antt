-- ===== src/Provers/Evm/Proof.antt =====
-- What the EVM prover checks before it asks the light client.
use omni_bridge.Prelude.{Bool, true, false, ◌≡◌, refl, sym, ap, ◌∙◌, some, List, get_elem?}
use omni_bridge.Prelude.Equality.{PartialEq, list_eq, nat_eq, option_eq, beq_true}
use omni_bridge.Prelude.Result.{Result, ok, then-ok, ok_or-ok, if-ok}
use omni_bridge.Types.Codecs.{Bytes}
use omni_bridge.Provers.Trie.{require, verify_trie_proof}
use omni_bridge.Provers.Evm.{
  BlockHeader, EvmVerifyProofArgs, EvmProver, BlockHashSafe, EvmHost, verify_proof,
}

require-ok :
    {A : Type 0} (b : Bool) {r : Result A} {a : A} → require b r ≡ ok a → (b ≡ true) × (r ≡ ok a)
require-ok true h = (refl, h)
require-ok false h = cc

ok_injective : {A : Type 0} {a b : A} → ok a ≡ ok b → a ≡ b
ok_injective h = cc

module _ {LogEntry : Type 0} ⦃e : PartialEq LogEntry⦄ (host : EvmHost LogEntry) where
  open host use {
    codecs, rlp, parse_args, decode_header, decode_log_entry, decode_receipt_logs, encode_index,
  }

  -- The prover asks the light client only for a proof whose log entry stands at its index in the
  -- receipt, whose receipt is the value of the receipt's index under the root of the header, and
  -- asks for the number and the hash of that header.
  pub verify_proof-ok :
      (self : EvmProver) (input : Bytes) {call : BlockHashSafe}
      → verify_proof host self input ≡ ok call
      → (args : EvmVerifyProofArgs) × (header : BlockHeader) × (log : LogEntry) × (logs : List
          LogEntry)
        × (parse_args input ≡ some args)
        × (decode_header args.proof.header_data ≡ some header)
        × (decode_log_entry args.proof.log_entry_data ≡ some log)
        × (decode_receipt_logs args.proof.receipt_data ≡ some logs)
        × (get_elem? logs args.proof.log_index ≡ some log)
        × (verify_trie_proof rlp codecs.keccak256 header.receipts_root
              (encode_index args.proof.receipt_index)
              args.proof.proof
            ≡ ok args.proof.receipt_data)
        × (header.hash ≡ some call.expected_block_hash)
        × (call.number ≡ header.number)
        × (call.proof_kind ≡ args.proof_kind)
        × (call.log_entry_data ≡ args.proof.log_entry_data)
        × (call.light_client ≡ self.light_client)
  unfolding verify_proof
  verify_proof-ok self input {call} h =
      let (args, e1, h1) = then-ok _ _ h in
      let (header, e2, h2) = then-ok _ _ h1 in
      let (log, e3, h3) = then-ok _ _ h2 in
      let (logs, e4, h4) = then-ok _ _ h3 in
      let (logged, e5, h5) = then-ok _ _ h4 in
      let (same, h6) = require-ok _ h5 in
      let (value, e7, h7) = then-ok _ _ h6 in
      let (equal, h8) = if-ok _ _ h7 in
      let (hash, e9, h9) = then-ok _ _ h8 in
      let called = ok_injective h9 in
      (
        args,
        header,
        log,
        logs,
        ok_or-ok _ _ e1,
        ok_or-ok _ _ e2,
        ok_or-ok _ _ e3,
        ok_or-ok _ _ e4,
        ok_or-ok _ _ e5 ∙ ap some (beq_true logged log same),
        e7 ∙ ap ok (sym (beq_true args.proof.receipt_data value equal)),
        ok_or-ok _ _ e9 ∙ ap (λ c. some c.expected_block_hash) called,
        ap (λ c. c.number) (sym called),
        ap (λ c. c.proof_kind) (sym called),
        ap (λ c. c.log_entry_data) (sym called),
        ap (λ c. c.light_client) (sym called),
      )
