-- ===== src/Solana/State.antt =====
-- The accounts of the Solana program, and what it is given: constants.rs, state/config.rs,
-- instructions/wormhole_cpi.rs of solana/bridge_token_factory.
use omni_bridge.Prelude.{ℕ, Bool, String, Option, some, [], ◌∷◌, ◌+◌, ◌/◌, ltb, if◌then◌else◌}
use omni_bridge.Prelude.Maps.{LookupMap, LookupSet}
use omni_bridge.Types.Codecs.{Bytes}
use omni_bridge.Exec.{Exec, expect, gets, modify, skip, ◌>>=◌, ◌>>◌}

-- The 32 bytes of a `Pubkey`, and the UTF-8 bytes of a `String`.
abbrev pub Pubkey : Type 0
Pubkey = Bytes

abbrev pub Text : Type 0
Text = Bytes

-- `Pubkey::default()`.
abbrev pub default_key : Pubkey
default_key =
    0 ∷ 0 ∷ 0 ∷ 0 ∷ 0 ∷ 0 ∷ 0 ∷ 0 ∷ 0 ∷ 0 ∷ 0 ∷ 0 ∷ 0 ∷ 0 ∷ 0 ∷ 0 ∷ 0 ∷ 0 ∷ 0 ∷ 0 ∷ 0 ∷ 0 ∷ 0 ∷ 0
    ∷ 0 ∷ 0 ∷ 0 ∷ 0 ∷ 0 ∷ 0 ∷ 0 ∷ 0 ∷ []

abbrev pub used_nonces_per_account : ℕ
used_nonces_per_account = 1024

abbrev pub used_nonces_account_size : ℕ
used_nonces_account_size = 8 + (used_nonces_per_account + 7) / 8

abbrev pub solana_omni_bridge_chain_id : ℕ
solana_omni_bridge_chain_id = 2

abbrev pub max_allowed_decimals : ℕ
max_allowed_decimals = 9

abbrev pub all_paused : ℕ
all_paused = 3

pub record WormholeBumps : Type 0 where
  pub bridge : ℕ
  pub fee_collector : ℕ
  pub sequence : ℕ

pub record ConfigBumps : Type 0 where
  pub config : ℕ
  pub authority : ℕ
  pub sol_vault : ℕ
  pub wormhole : WormholeBumps

-- The padding of the account is left out.
pub record Config : Type 0 where
  pub admin : Pubkey
  pub max_used_nonce : ℕ
  pub derived_near_bridge_address : Bytes
  pub bumps : ConfigBumps
  pub paused : ℕ
  pub pausable_admin : Pubkey
  pub metadata_admin : Pubkey

-- `DataV2` of the Metaplex program; the fields that are passed on unread are one value.
pub record Metadata : Type 0 where
  pub name : Text
  pub symbol : Text
  pub uri : Text
  pub extra : Bytes

-- The Borsh encoders of the types that the messages hold.
pub record Borsh : Type 0 where
  pub u64 : ℕ → Bytes
  pub u128 : ℕ → Bytes
  pub string : Text → Bytes
  pub pubkey : Pubkey → Bytes
  pub option_string : Option Text → Bytes

-- The Solana runtime and the other programs. `L` is all that they store: the lamports and the
-- token accounts, mints and metadata, the Wormhole bridge. A call of another program gives the new
-- store, or fails. The keys that Anchor checks against seeds are fields.
pub record Runtime (L : Type 0) : Type 0 where
  pub borsh : Borsh
  pub minimum_balance : ℕ → ℕ
  pub authority : Pubkey
  pub sol_vault : Pubkey
  pub config_key : Pubkey
  pub fee_collector : Pubkey
  pub vault_of : Pubkey → Pubkey
  pub metaplex_address : Pubkey → Pubkey
  pub wrapped_mint : Bytes → Pubkey
  pub metaplex_id : Pubkey
  pub token_2022_id : Pubkey
  pub lamports : L → Pubkey → ℕ
  pub transfer : Pubkey → Pubkey → ℕ → L → Option L
  -- `transfer_checked` of mint, source, destination, authority, amount, decimals
  pub transfer_checked : Pubkey → Pubkey → Pubkey → Pubkey → ℕ → ℕ → L → Option L
  -- `mint_to` of mint, destination, authority, amount; `burn` of mint, source, authority, amount
  pub mint_to : Pubkey → Pubkey → Pubkey → ℕ → L → Option L
  pub burn : Pubkey → Pubkey → Pubkey → ℕ → L → Option L
  -- the mint created by `init` with its decimals and authority, by the payer
  pub create_mint : Pubkey → ℕ → Pubkey → Pubkey → L → Option L
  -- the associated token account of a mint and an owner, unless it is there, by the payer
  pub open_token_account : Pubkey → Pubkey → Pubkey → L → Option L
  -- the vault of a mint, unless it is there, by the payer
  pub open_vault : Pubkey → Pubkey → L → Option L
  pub has_vault : L → Pubkey → Bool
  pub create_used_nonces : ℕ → ℕ → Pubkey → L → Option L
  pub create_config : Pubkey → L → Option L
  pub create_metadata : Pubkey → Metadata → L → Option L
  pub set_metadata : Pubkey → Metadata → L → Option L
  pub bridge_fee : L → ℕ
  pub sequence : L → ℕ
  -- the message, with its emitter and payer
  pub post : Pubkey → Pubkey → Bytes → L → Option L
  -- the same call of the Wormhole program itself, with an account for the message
  pub post_core : Pubkey → Pubkey → Pubkey → Bytes → L → Option L
  pub keccak : Bytes → Bytes
  pub sha256 : Bytes → Bytes
  -- `Signature::parse_standard_slice`, which answers `s.is_high()`
  pub parse_signature : Bytes → Option Bool
  -- `secp256k1_recover` of the hash, the recovery id and the signature
  pub recover : Bytes → ℕ → Bytes → Option Bytes

-- What the program keeps: its configuration once there is one, the bitmaps of used nonces by the
-- number of their account, `none` until `load_init`, and the stores of the others.
pub record Program (L : Type 0) : Type 0 where
  pub config : Option Config
  pub used_nonces : LookupMap ℕ (LookupSet ℕ)
  pub ledger : L

module _ {L : Type 0} where
  -- A call of another program.
  unfoldable pub invoke : String → (L → Option L) → Exec (Program L) (Unit {0})
  invoke e call = do
    ledger ← gets (λ s. s.ledger)
    after ← expect (call ledger) e
    modify (λ s. record s { ledger = after })

  unfoldable pub load_config : Exec (Program L) Config
  load_config = do found ← gets (λ s. s.config); expect found "AccountNotInitialized"

  -- The exit of a `mut` account.
  unfoldable pub store_config : Config → Exec (Program L) (Unit {0})
  store_config c = modify (λ s. record s { config = some c })

module _ {L : Type 0} (rt : Runtime L) where
  open rt use {transfer, fee_collector, config_key, bridge_fee, post}

  unfoldable pub pay : Pubkey → Pubkey → ℕ → Exec (Program L) (Unit {0})
  pay source target amount = invoke "transfer" (transfer source target amount)

  -- `if amount > 0 { transfer(..)? }`.
  unfoldable pub pay_positive : Pubkey → Pubkey → ℕ → Exec (Program L) (Unit {0})
  pay_positive source target amount = if ltb 0 amount then pay source target amount else skip

  -- `WormholeCPI::post_message`.
  unfoldable pub post_message : Pubkey → Bytes → Exec (Program L) (Unit {0})
  post_message payer message = do
    fee ← gets (λ s. bridge_fee s.ledger)
    pay_positive payer fee_collector fee
    invoke "post_message" (post config_key payer message)
