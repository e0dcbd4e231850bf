-- ===== src/Types/Address.antt =====
-- `H160` and `OmniAddress` of near/omni-types/src/lib.rs, `SolAddress` of sol_address.rs.

use Prim.Native.String.{◌++◌}
use omni_bridge.Prelude.{
  ℕ, zero, suc, ◌-◌, String, ◌≡◌, ◌↔◌, Bool, true, false, ◌&&◌, Option, none, some, [], ◌∷◌, arith,
  nat_beq, length, if◌then◌else◌,
}
use omni_bridge.Prelude.Equality.{PartialEq, ◌==◌, list_beq_iff, string_eq, list_eq, nat_eq}
use omni_bridge.Prelude.Result.{Result, ok, err, ok_or, ◌>>=◌}
use omni_bridge.Types.Chain.{ChainKind}
use omni_bridge.Types.Codecs.{Bytes, AccountId, Codecs}

abbrev pub H160 : Type 0
H160 = Bytes

abbrev pub SolAddress : Type 0
SolAddress = Bytes

abbrev pub zeros : ℕ → Bytes
zeros zero = []
zeros (suc n) = 0 ∷ zeros n

-- `H160::ZERO` and `SolAddress::ZERO`.
abbrev pub h160_zero : H160
h160_zero = zeros 20

abbrev pub sol_zero : SolAddress
sol_zero = zeros 32

abbrev pub zero_account_id : AccountId
zero_account_id = "0000000000000000000000000000000000000000000000000000000000000000"

pub data OmniAddress : Type 0 where
  eth : H160 → OmniAddress
  near : AccountId → OmniAddress
  sol : SolAddress → OmniAddress
  arb base bnb pol : H160 → OmniAddress
  btc zcash : String → OmniAddress

abbrev pub get_chain : OmniAddress → ChainKind
get_chain (OmniAddress.eth _) = ChainKind.eth
get_chain (OmniAddress.near _) = ChainKind.near
get_chain (OmniAddress.sol _) = ChainKind.sol
get_chain (OmniAddress.arb _) = ChainKind.arb
get_chain (OmniAddress.base _) = ChainKind.base
get_chain (OmniAddress.bnb _) = ChainKind.bnb
get_chain (OmniAddress.pol _) = ChainKind.pol
get_chain (OmniAddress.btc _) = ChainKind.btc
get_chain (OmniAddress.zcash _) = ChainKind.zcash

-- The derived `PartialEq`.
unfoldable pub address_beq : OmniAddress → OmniAddress → Bool
address_beq (OmniAddress.eth a) (OmniAddress.eth b) = a == b
address_beq (OmniAddress.near a) (OmniAddress.near b) = a == b
address_beq (OmniAddress.sol a) (OmniAddress.sol b) = a == b
address_beq (OmniAddress.arb a) (OmniAddress.arb b) = a == b
address_beq (OmniAddress.base a) (OmniAddress.base b) = a == b
address_beq (OmniAddress.bnb a) (OmniAddress.bnb b) = a == b
address_beq (OmniAddress.pol a) (OmniAddress.pol b) = a == b
address_beq (OmniAddress.btc a) (OmniAddress.btc b) = a == b
address_beq (OmniAddress.zcash a) (OmniAddress.zcash b) = a == b
address_beq _ _ = false

-- Both payload types at once: the text of an address, or its bytes.
abbrev text_of : OmniAddress → String
text_of (OmniAddress.near a) = a
text_of (OmniAddress.btc a) = a
text_of (OmniAddress.zcash a) = a
text_of _ = ""

abbrev bytes_of : OmniAddress → Bytes
bytes_of (OmniAddress.eth a) = a
bytes_of (OmniAddress.sol a) = a
bytes_of (OmniAddress.arb a) = a
bytes_of (OmniAddress.base a) = a
bytes_of (OmniAddress.bnb a) = a
bytes_of (OmniAddress.pol a) = a
bytes_of _ = []

pub address_beq_iff : (a b : OmniAddress) → (address_beq a b ≡ true) ↔ (a ≡ b)
unfolding address_beq
address_beq_iff (OmniAddress.eth a) (OmniAddress.eth b) = ground (arith, list_beq_iff a b)
address_beq_iff a b =
    ground (arith, list_beq_iff (bytes_of a) (bytes_of b), string_eq.agrees (text_of a) (text_of b))

instance abbrev pub address_eq : PartialEq OmniAddress
address_eq = record { eq = address_beq; agrees = address_beq_iff }

-- `H160::is_zero` and `SolAddress::is_zero`.
abbrev pub is_zero_h160 : H160 → Bool
is_zero_h160 a = a == h160_zero

abbrev pub is_zero_sol : SolAddress → Bool
is_zero_sol a = a == sol_zero

pub is_zero : OmniAddress → Bool
is_zero (OmniAddress.eth a) = is_zero_h160 a
is_zero (OmniAddress.arb a) = is_zero_h160 a
is_zero (OmniAddress.base a) = is_zero_h160 a
is_zero (OmniAddress.bnb a) = is_zero_h160 a
is_zero (OmniAddress.pol a) = is_zero_h160 a
is_zero (OmniAddress.near a) = a == zero_account_id
is_zero (OmniAddress.sol a) = is_zero_sol a
is_zero (OmniAddress.btc a) = a == ""
is_zero (OmniAddress.zcash a) = a == ""

unfoldable pub get_utxo_address : OmniAddress → Option String
get_utxo_address (OmniAddress.btc a) = some a
get_utxo_address (OmniAddress.zcash a) = some a
get_utxo_address _ = none

-- `OmniAddress::is_utxo_chain`.
unfoldable pub is_utxo_address : OmniAddress → Bool
is_utxo_address (OmniAddress.btc _) = true
is_utxo_address (OmniAddress.zcash _) = true
is_utxo_address _ = false

unfoldable pub new_from_evm_address : ChainKind → H160 → Result OmniAddress
new_from_evm_address ChainKind.eth a = ok (OmniAddress.eth a)
new_from_evm_address ChainKind.arb a = ok (OmniAddress.arb a)
new_from_evm_address ChainKind.base a = ok (OmniAddress.base a)
new_from_evm_address ChainKind.bnb a = ok (OmniAddress.bnb a)
new_from_evm_address ChainKind.pol a = ok (OmniAddress.pol a)
new_from_evm_address _ a = err "not an EVM chain"

-- `&bytes[n..]`.
abbrev pub drop : ℕ → Bytes → Bytes
drop zero bs = bs
drop (suc n) [] = []
drop (suc n) (b ∷ bs) = drop n bs

-- `address.try_into()` into an array of `n` bytes.
abbrev pub to_array : ℕ → Bytes → String → Result Bytes
to_array n bs e = if nat_beq (length bs) n then ok bs else err e

unfoldable pub to_evm_address : Bytes → Result H160
to_evm_address bs =
    to_array 20 (if nat_beq (length bs) 32 then drop (length bs - 20) bs else bs)
      "Invalid EVM address"

unfoldable pub to_sol_address : Bytes → Result SolAddress
to_sol_address bs = to_array 32 bs "Invalid SOL address"

module _ (codecs : Codecs) where
  open codecs use {hex_encode, bs58_encode, parse_account_id, from_utf8, keccak256}

  unfoldable pub new_zero : ChainKind → Result OmniAddress
  new_zero ChainKind.eth = ok (OmniAddress.eth h160_zero)
  new_zero ChainKind.near =
      ok_or (parse_account_id zero_account_id) "invalid account id" >>= λ a. ok (OmniAddress.near a)
  new_zero ChainKind.sol = ok (OmniAddress.sol sol_zero)
  new_zero ChainKind.arb = ok (OmniAddress.arb h160_zero)
  new_zero ChainKind.base = ok (OmniAddress.base h160_zero)
  new_zero ChainKind.bnb = ok (OmniAddress.bnb h160_zero)
  new_zero ChainKind.pol = ok (OmniAddress.pol h160_zero)
  new_zero ChainKind.btc = ok (OmniAddress.btc "")
  new_zero ChainKind.zcash = ok (OmniAddress.zcash "")

  pub to_near_account_id : Bytes → Result AccountId
  to_near_account_id bs = do
    text ← ok_or (from_utf8 bs) "invalid utf-8"
    ok_or (parse_account_id text) "invalid account id"

  evm_from_slice : ChainKind → Bytes → Result OmniAddress
  evm_from_slice c bs = do a ← to_evm_address bs; new_from_evm_address c a

  unfoldable pub new_from_slice : ChainKind → Bytes → Result OmniAddress
  unfolding to_near_account_id evm_from_slice
  new_from_slice ChainKind.sol bs = do a ← to_sol_address bs; ok (OmniAddress.sol a)
  new_from_slice ChainKind.near bs = do a ← to_near_account_id bs; ok (OmniAddress.near a)
  new_from_slice ChainKind.btc bs = do
    a ← ok_or (from_utf8 bs) "Invalid BTC address"
    ok (OmniAddress.btc a)
  new_from_slice ChainKind.zcash bs = do
    a ← ok_or (from_utf8 bs) "Invalid ZCash address"
    ok (OmniAddress.zcash a)
  new_from_slice c bs = evm_from_slice c bs

  -- `Display for H160` and `Display for SolAddress`.
  abbrev pub h160_to_string : H160 → String
  h160_to_string a = "0x" ++ hex_encode a

  abbrev pub sol_to_string : SolAddress → String
  sol_to_string a = bs58_encode a

  abbrev pub chain_str : OmniAddress → String
  chain_str (OmniAddress.eth _) = "eth"
  chain_str (OmniAddress.near _) = "near"
  chain_str (OmniAddress.sol _) = "sol"
  chain_str (OmniAddress.arb _) = "arb"
  chain_str (OmniAddress.base _) = "base"
  chain_str (OmniAddress.bnb _) = "bnb"
  chain_str (OmniAddress.pol _) = "pol"
  chain_str (OmniAddress.btc _) = "btc"
  chain_str (OmniAddress.zcash _) = "zcash"

  abbrev pub address_str : OmniAddress → String
  address_str (OmniAddress.eth a) = h160_to_string a
  address_str (OmniAddress.near a) = a
  address_str (OmniAddress.sol a) = sol_to_string a
  address_str (OmniAddress.arb a) = h160_to_string a
  address_str (OmniAddress.base a) = h160_to_string a
  address_str (OmniAddress.bnb a) = h160_to_string a
  address_str (OmniAddress.pol a) = h160_to_string a
  address_str (OmniAddress.btc a) = a
  address_str (OmniAddress.zcash a) = a

  -- The separator is a `char` in the source.
  pub encode : String → Bool → OmniAddress → String
  unfolding is_zero
  encode separator skip_zero_address a =
      if skip_zero_address && is_zero a
      then chain_str a
      else chain_str a ++ (separator ++ address_str a)

  -- `&keccak256(&address.0)[12..]`, and the text of an H160 without its `0x`.
  pub get_token_prefix : OmniAddress → String
  unfolding encode
  get_token_prefix (OmniAddress.sol a) =
      if is_zero_sol a then "sol" else "sol-" ++ h160_to_string (drop 12 (keccak256 a))
  get_token_prefix (OmniAddress.eth a) = if is_zero_h160 a then "eth" else hex_encode a
  get_token_prefix a = encode "-" true a
