-- ===== src/Types/Chain.antt =====
-- `ChainKind` of near/omni-types/src/lib.rs.
use omni_bridge.Prelude.{
  ℕ, ◌≡◌, refl, ◌↔◌, Bool, true, false, arith, nat_beq, nat_beq_iff, if◌then◌else◌,
}
use omni_bridge.Prelude.Equality.{PartialEq}
use omni_bridge.Prelude.Result.{Result, ok, err}

pub data ChainKind : Type 0 where
  eth near sol arb base bnb btc zcash pol : ChainKind

-- `IntoPrimitive`: the `repr(u8)` discriminant.
abbrev pub to_u8 : ChainKind → ℕ
to_u8 ChainKind.eth = 0
to_u8 ChainKind.near = 1
to_u8 ChainKind.sol = 2
to_u8 ChainKind.arb = 3
to_u8 ChainKind.base = 4
to_u8 ChainKind.bnb = 5
to_u8 ChainKind.btc = 6
to_u8 ChainKind.zcash = 7
to_u8 ChainKind.pol = 8

-- `TryFrom<u8>`; the number in the source's message is left out.
pub try_from : ℕ → Result ChainKind
try_from n =
    if nat_beq n 0
    then ok ChainKind.eth
    else if nat_beq n 1
    then ok ChainKind.near
    else if nat_beq n 2
    then ok ChainKind.sol
    else if nat_beq n 3
    then ok ChainKind.arb
    else if nat_beq n 4
    then ok ChainKind.base
    else if nat_beq n 5
    then ok ChainKind.bnb
    else if nat_beq n 6
    then ok ChainKind.btc
    else if nat_beq n 7
    then ok ChainKind.zcash
    else if nat_beq n 8
    then ok ChainKind.pol
    else err "invalid chain kind"

abbrev pub is_evm_chain : ChainKind → Bool
is_evm_chain ChainKind.eth = true
is_evm_chain ChainKind.arb = true
is_evm_chain ChainKind.base = true
is_evm_chain ChainKind.bnb = true
is_evm_chain ChainKind.pol = true
is_evm_chain ChainKind.btc = false
is_evm_chain ChainKind.zcash = false
is_evm_chain ChainKind.near = false
is_evm_chain ChainKind.sol = false

abbrev pub is_utxo_chain : ChainKind → Bool
is_utxo_chain ChainKind.btc = true
is_utxo_chain ChainKind.zcash = true
is_utxo_chain ChainKind.eth = false
is_utxo_chain ChainKind.arb = false
is_utxo_chain ChainKind.base = false
is_utxo_chain ChainKind.bnb = false
is_utxo_chain ChainKind.pol = false
is_utxo_chain ChainKind.near = false
is_utxo_chain ChainKind.sol = false

pub try_from-to_u8 : (c : ChainKind) → try_from (to_u8 c) ≡ ok c
unfolding try_from
try_from-to_u8 ChainKind.eth = refl
try_from-to_u8 _ = refl

-- A number decodes to a chain exactly when it is the chain's discriminant.
pub try_from_iff : (n : ℕ) (c : ChainKind) → (try_from n ≡ ok c) ↔ (n ≡ to_u8 c)
unfolding try_from
try_from_iff n c = ((λ h. ground arith), (λ h. rw h (try_from-to_u8 c)))

-- The derived `PartialEq`.
abbrev pub chain_beq : ChainKind → ChainKind → Bool
chain_beq a b = nat_beq (to_u8 a) (to_u8 b)

ok_injective : {a b : ChainKind} → ok a ≡ ok b → a ≡ b
ok_injective h = cc

to_u8_injective : (a b : ChainKind) → to_u8 a ≡ to_u8 b → a ≡ b
to_u8_injective a b h = ok_injective (cc (try_from-to_u8 a, try_from-to_u8 b))

pub chain_beq_iff : (a b : ChainKind) → (chain_beq a b ≡ true) ↔ (a ≡ b)
chain_beq_iff a b = (
  (λ h. to_u8_injective a b ((nat_beq_iff (to_u8 a) (to_u8 b)).0 h)),
  (λ h. rw h ((nat_beq_iff (to_u8 b) (to_u8 b)).1 refl)),
)

instance abbrev pub chain_eq : PartialEq ChainKind
chain_eq = record { eq = chain_beq; agrees = chain_beq_iff }
