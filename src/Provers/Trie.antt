-- ===== src/Provers/Trie.antt =====
-- The check of a Merkle-Patricia proof: `verify_trie_proof` of
-- near/omni-prover/evm-prover/src/lib.rs.
pub mod Unique
use omni_bridge.Prelude.{
  ℕ, zero, suc, Bool, true, false, ◌+◌, ◌/◌, ◌%◌, Option, none, some, List, [], ◌∷◌, ◌++◌, ltb, leb,
  length, if◌then◌else◌,
}
use omni_bridge.Prelude.Equality.{◌==◌, nat_eq, list_eq}
use omni_bridge.Prelude.Result.{Result, ok, err, ok_or, ◌>>=◌}
use omni_bridge.Types.Codecs.{Bytes}
use omni_bridge.Provers.Slices.{index, slice}

-- The crate `rlp`, reading a node as a list: how many items it has, and one of them as bytes.
pub record Rlp : Type 0 where
  pub item_count : Bytes → ℕ
  pub item_at : Bytes → ℕ → Option Bytes

abbrev pub is_nil {ℓ} : {A : Type ℓ} → List A → Bool
is_nil [] = true
is_nil (_ ∷ _) = false

-- `require!`, and the panic of an index out of range.
abbrev pub require : {A : Type 0} → Bool → Result A → Result A
require true r = r
require false r = err "require! assertion failed"

abbrev pub nibbles : Bytes → List ℕ
nibbles [] = []
nibbles (b ∷ bs) = b / 16 ∷ b % 16 ∷ nibbles bs

-- The path of a leaf or an extension: `path_u8[0]` is read first, and panics without a byte.
abbrev pub path_of : ℕ → Bytes → List ℕ
path_of first rest = if first / 16 % 2 == 1 then first % 16 ∷ nibbles rest else nibbles rest

module _ (rlp : Rlp) (keccak256 : Bytes → Bytes) where
  open rlp use {item_count, item_at}

  abbrev pub get_vec : Bytes → ℕ → Result Bytes
  get_vec node pos = ok_or (item_at node pos) "called `Result::unwrap()` on an `Err` value"

  -- The node is the one that the level above expects. The root is always a hash.
  unfoldable pub is_expected : Bytes → Bytes → ℕ → Bool
  is_expected node expected key_index =
      if key_index == 0
      then keccak256 node == expected
      else (if ltb (length node) 32 then node == expected else keccak256 node == expected)

  -- The rest of the proof is taken by `next`, from a node and an index of the key.
  module _ (key : List ℕ) (next : Bytes → ℕ → Result Bytes) (is_last : Bool) where
    unfoldable pub visit_branch : Bytes → ℕ → Result Bytes
    visit_branch node key_index =
        if leb (length key) key_index
        then require is_last (get_vec node 16)
        else (index key key_index >>= λ nibble. get_vec node nibble >>= λ child.
            if is_nil child then ok [] else next child (key_index + 1))

    unfoldable pub visit_leaf : Bytes → List ℕ → ℕ → Result Bytes
    visit_leaf node path key_index = require is_last (
        require (key_index + length path == length key) (
          slice key key_index (length path) >>= λ part.
          if path == part then get_vec node 1 else ok []))

    unfoldable pub visit_extension : Bytes → List ℕ → ℕ → Result Bytes
    visit_extension node path key_index = slice key key_index (length path) >>= λ part.
        require (path == part) (get_vec node 1 >>= λ child. next child (key_index + length path))

    unfoldable pub visit_short : Bytes → ℕ → Bytes → Result Bytes
    visit_short node key_index [] = err "index out of bounds"
    visit_short node key_index (first ∷ rest) = require (leb (first / 16) 3) (
        if leb 2 (first / 16)
        then visit_leaf node (path_of first rest) key_index
        else visit_extension node (path_of first rest) key_index)

    unfoldable pub visit : Bytes → ℕ → Result Bytes
    visit node key_index =
        if item_count node == 17
        then visit_branch node key_index
        else require (item_count node == 2) (get_vec node 0 >>= visit_short node key_index)

  -- `_verify_trie_proof`, on the part of the proof from `proof_index` on.
  unfoldable pub walk : List ℕ → List Bytes → Bytes → ℕ → Result Bytes
  walk key [] expected key_index = err "index out of bounds"
  walk key (node ∷ rest) expected key_index =
      require (is_expected node expected key_index)
        (visit key (walk key rest) (is_nil rest) node key_index)

  unfoldable pub verify_trie_proof : Bytes → Bytes → List Bytes → Result Bytes
  verify_trie_proof expected_root key proof = walk (nibbles key) proof expected_root 0
