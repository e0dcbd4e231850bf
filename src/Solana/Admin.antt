-- ===== src/Solana/Admin.antt =====
-- The setting up of the Solana program, its administration, and its tokens: lib.rs,
-- instructions/admin, and instructions/user/deploy_token.rs and log_metadata.rs.
use omni_bridge.Prelude.{
  ℕ, true, false, not, Option, none, some, [], ◌∷◌, ◌++◌, ◌-◌, ◌||◌, zero, suc, ltb, leb, length,
  if◌then◌else◌, unwrap_or,
}
use omni_bridge.Prelude.Equality.{◌==◌, nat_eq, list_eq}
use omni_bridge.Types.Codecs.{Bytes}
use omni_bridge.Exec.{Exec, pure, expect, require, gets, ◌>>=◌, ◌>>◌}
use omni_bridge.Solana.State.{
  Pubkey, Text, default_key, Config, ConfigBumps, Metadata, Runtime, Program, invoke, load_config,
  store_config, pay, pay_positive, post_message, used_nonces_per_account, max_allowed_decimals,
  all_paused,
}
use omni_bridge.Solana.Messages.{
  DeployTokenPayload, SignedPayload, deploy_token_for_near, deployed_for_near,
  log_metadata_for_near, verify_signature,
}
use omni_bridge.Solana.Nonces.{expected_reserve}
use omni_bridge.Solana.Transfers.{Mint, contains}

zeros : ℕ → Bytes
zeros zero = []
zeros (suc n) = 0 ∷ zeros n

-- `trim_end_matches('\0')`.
unfoldable pub trim_end : Text → Text
trim_end [] = []
trim_end (x ∷ xs) = elim (trim_end xs) [
  | [] ↦ if x == 0 then [] else (x ∷ [])
  | y ∷ ys ↦ x ∷ y ∷ ys
]

-- The account `metadata`, and the name and symbol that Metaplex reads from its data.
pub record MetadataAccount : Type 0 where
  pub key : Pubkey
  pub owner : Pubkey
  pub parsed : Option (Text × Text)

-- The accounts of `log_metadata`, with what the token-2022 library reads from the data of the mint:
-- `none` where it cannot be unpacked, the address of the metadata pointer if there is one, and the
-- embedded name and symbol.
pub record LogMetadata : Type 0 where
  pub mint : Mint
  pub token_program : Pubkey
  pub metadata : Option MetadataAccount
  pub extensions : Option (Option Pubkey)
  pub embedded : Option (Text × Text)
  pub payer : Pubkey

module _ {L : Type 0} (rt : Runtime L) where
  open rt use {
    borsh, minimum_balance, authority, sol_vault, config_key, fee_collector, wrapped_mint, sha256,
    create_mint, create_config, create_metadata, set_metadata, open_vault, metaplex_address,
    metaplex_id, token_2022_id, bridge_fee, post_core,
  }

  unfoldable pub initialize :
      Pubkey → Pubkey → Pubkey → Bytes → ConfigBumps → Pubkey → Pubkey → Exec (Program L) (Unit {0})
  initialize admin pausable_admin metadata_admin near_bridge bumps message payer = do
    found ← gets (λ s. s.config)
    require (elim found [ none ↦ true | some _ ↦ false ]) "account already in use"
    invoke "init" (create_config payer)
    store_config record {
      admin = admin;
      max_used_nonce = 0;
      derived_near_bridge_address = near_bridge;
      bumps = bumps;
      paused = 0;
      pausable_admin = pausable_admin;
      metadata_admin = metadata_admin;
    }
    pay rt payer sol_vault (minimum_balance 0)
    reserve ←
        expect (expected_reserve rt (used_nonces_per_account - 1)) "attempt to add with overflow"
    pay rt payer authority reserve
    fee ← gets (λ s. bridge_fee s.ledger)
    pay_positive rt payer fee_collector fee
    invoke "post_message" (post_core config_key payer message (0 ∷ []))

  -- The constraint of `ChangeConfig`, and the methods of it.
  unfoldable pub change_config : Pubkey → (Config → Config) → Exec (Program L) (Unit {0})
  change_config signer f = do
    config ← load_config
    require (signer == config.admin) "Unauthorized"
    store_config (f config)

  unfoldable pub set_admin : Pubkey → Pubkey → Exec (Program L) (Unit {0})
  set_admin signer admin = change_config signer (λ c. record c { admin = admin })

  unfoldable pub set_pausable_admin : Pubkey → Pubkey → Exec (Program L) (Unit {0})
  set_pausable_admin signer admin = change_config signer (λ c. record c { pausable_admin = admin })

  unfoldable pub set_paused : Pubkey → ℕ → Exec (Program L) (Unit {0})
  set_paused signer paused = change_config signer (λ c. record c { paused = paused })

  unfoldable pub set_metadata_admin : Pubkey → Pubkey → Exec (Program L) (Unit {0})
  set_metadata_admin signer admin = change_config signer (λ c. record c { metadata_admin = admin })

  unfoldable pub pause : Pubkey → Exec (Program L) (Unit {0})
  pause signer = do
    config ← load_config
    require (signer == config.pausable_admin || signer == config.admin) "Unauthorized"
    store_config (record config { paused = all_paused })

  unfoldable pub update_metadata :
      Pubkey
      → Pubkey
      → Metadata
      → Option Text
      → Option Text
      → Option Text
      → Exec (Program L) (Unit {0})
  update_metadata signer mint current name symbol uri = do
    config ← load_config
    require (signer == config.metadata_admin || signer == config.admin) "Unauthorized"
    invoke "update_metadata_accounts_v2" (
        set_metadata mint record {
          name = unwrap_or name current.name;
          symbol = unwrap_or symbol current.symbol;
          uri = unwrap_or uri current.uri;
          extra = current.extra;
        })

  unfoldable pub to_hashed_bytes : Text → Bytes
  unfolding zeros
  to_hashed_bytes text =
      if ltb 32 (length text) then sha256 text else (text ++ zeros (32 - length text))

  abbrev pub min_decimals : ℕ → ℕ
  min_decimals d = if leb d max_allowed_decimals then d else max_allowed_decimals

  -- With the constraint `init` of the account `mint`.
  unfoldable pub deploy_token :
      SignedPayload DeployTokenPayload → Pubkey → Exec (Program L) (Unit {0})
  deploy_token signed payer = do
    config ← load_config
    let p = signed.payload
    let mint = wrapped_mint (to_hashed_bytes p.token)
    invoke "init" (create_mint mint (min_decimals p.decimals) authority payer)
    verify_signature rt signed (deploy_token_for_near borsh p) config.derived_near_bridge_address
    invoke "create_metadata_accounts_v3"
        (create_metadata mint record { name = p.name; symbol = p.symbol; uri = []; extra = [] })
    post_message rt payer (
        deployed_for_near borsh record {
          token = p.token;
          solana_mint = mint;
          decimals = min_decimals p.decimals;
          origin_decimals = p.decimals;
        })

  unfoldable pub parse_metadata_account :
      Option MetadataAccount → Pubkey → Exec (Program L) (Text × Text)
  parse_metadata_account found address = do
    account ← expect found "TokenMetadataNotProvided"
    require (account.key == address) "InvalidTokenMetadataAddress"
    if account.owner == metaplex_id
        then expect account.parsed "AccountDidNotDeserialize"
        else pure ([], [])

  unfoldable pub pointed_metadata : LogMetadata → Option Pubkey → Exec (Program L) (Text × Text)
  pointed_metadata a none = pure ([], [])
  pointed_metadata a (some address) =
      if address == a.mint.key
      then expect a.embedded "InvalidAccountData"
      else (if address == default_key
          then pure ([], [])
          else parse_metadata_account a.metadata address)

  unfoldable pub find_metadata : LogMetadata → Exec (Program L) (Text × Text)
  find_metadata a =
      if a.token_program == token_2022_id
      then (expect a.extensions "InvalidAccountData" >>= pointed_metadata a)
      else parse_metadata_account a.metadata (metaplex_address a.mint.key)

  unfoldable pub log_metadata : LogMetadata → Exec (Program L) (Unit {0})
  log_metadata a = do
    config ← load_config
    require (not (contains a.mint.mint_authority authority)) "ConstraintRaw"
    invoke "init" (open_vault a.mint.key a.payer)
    (name, symbol) ← find_metadata a
    post_message rt a.payer (
        log_metadata_for_near borsh record {
          token = a.mint.key;
          name = trim_end name;
          symbol = trim_end symbol;
          decimals = a.mint.decimals;
        })
