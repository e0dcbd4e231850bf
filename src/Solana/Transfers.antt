-- ===== src/Solana/Transfers.antt =====
-- Transfers out of Solana and into it: lib.rs and instructions/user/init_transfer.rs,
-- init_transfer_sol.rs, finalize_transfer.rs, finalize_transfer_sol.rs.
pub mod Payments
use omni_bridge.Prelude.{
  ℕ, Bool, true, false, Option, none, some, List, [], ◌∷◌, ◌+◌, ◌/◌, ◌%◌, ltb, if◌then◌else◌,
  unwrap_or,
}
use omni_bridge.Prelude.Equality.{◌==◌, nat_eq, list_eq}
use omni_bridge.Prelude.Words.{u64_max, fit, checked_add}
use omni_bridge.Exec.{Exec, pure, expect, require, gets, modify, skip, ◌>>=◌, ◌>>◌}
use omni_bridge.Solana.State.{
  Pubkey, default_key, Config, Runtime, Program, invoke, load_config, store_config, pay,
  pay_positive, post_message,
}
use omni_bridge.Solana.Messages.{
  InitTransferPayload, FinalizeTransferPayload, FinalizeTransferResponse, SignedPayload,
  init_transfer_for_near, finalize_transfer_for_near, finalized_for_near, verify_signature,
}
use omni_bridge.Solana.Nonces.{open_used_nonces, use_nonce}

-- `Mint`, by the fields that are read.
pub record Mint : Type 0 where
  pub key : Pubkey
  pub decimals : ℕ
  pub mint_authority : Option Pubkey

-- The accounts of an instruction that its caller chooses. The signers among them have signed.
pub record InitTransfer : Type 0 where
  pub mint : Mint
  pub source : Pubkey
  pub with_vault : Bool
  pub user : Pubkey
  pub payer : Pubkey

pub record InitTransferSol : Type 0 where
  pub user : Pubkey
  pub payer : Pubkey

pub record FinalizeTransfer : Type 0 where
  pub recipient : Pubkey
  pub mint : Mint
  pub with_vault : Bool
  pub token_account : Pubkey
  pub payer : Pubkey

pub record FinalizeTransferSol : Type 0 where
  pub recipient : Pubkey
  pub payer : Pubkey

-- `paused & INIT_TRANSFER_PAUSED == 0` and `paused & FINALIZE_TRANSFER_PAUSED == 0`.
abbrev pub init_allowed : Config → Bool
init_allowed c = c.paused % 2 == 0

abbrev pub finalize_allowed : Config → Bool
finalize_allowed c = c.paused / 2 % 2 == 0

-- `Option::contains`.
abbrev pub contains : Option Pubkey → Pubkey → Bool
contains none k = false
contains (some j) k = j == k

module _ {L : Type 0} (rt : Runtime L) where
  open rt use {
    borsh, authority, sol_vault, vault_of, has_vault, transfer_checked, mint_to, burn,
    open_token_account, sequence,
  }

  -- The constraints on the optional account `vault`.
  unfoldable pub check_vault : Bool → Pubkey → Exec (Program L) (Unit {0})
  check_vault false mint = skip
  check_vault true mint = do
    exists ← gets (λ s. has_vault s.ledger mint)
    require exists "AccountNotInitialized"

  -- `amount.try_into().unwrap()` into a `u64`.
  unfoldable pub to_u64 : ℕ → Exec (Program L) ℕ
  to_u64 amount = expect (fit u64_max amount) "TryFromIntError"

  unfoldable pub take_tokens : Bool → InitTransfer → ℕ → Exec (Program L) (Unit {0})
  take_tokens true a amount = do
    n ← to_u64 amount
    invoke "transfer_checked"
        (transfer_checked a.mint.key a.source (vault_of a.mint.key) a.user n a.mint.decimals)
  take_tokens false a amount = do
    require (contains a.mint.mint_authority authority) "InvalidBridgedToken"
    n ← to_u64 amount
    invoke "burn" (burn a.mint.key a.source a.user n)

  unfoldable pub post_init_transfer :
      InitTransferPayload → Pubkey → Pubkey → Pubkey → Exec (Program L) (Unit {0})
  post_init_transfer p user token payer = do
    nonce ← gets (λ s. sequence s.ledger)
    post_message rt payer (init_transfer_for_near borsh p nonce user token)

  unfoldable pub init_transfer : InitTransfer → InitTransferPayload → Exec (Program L) (Unit {0})
  init_transfer a p = do
    config ← load_config
    check_vault a.with_vault a.mint.key
    require (init_allowed config) "Paused"
    require (ltb p.fee p.amount) "InvalidFee"
    pay_positive rt a.user sol_vault p.native_fee
    take_tokens a.with_vault a p.amount
    post_init_transfer p a.user a.mint.key a.payer

  unfoldable pub init_transfer_sol :
      InitTransferSol → InitTransferPayload → Exec (Program L) (Unit {0})
  init_transfer_sol a p = do
    config ← load_config
    require (init_allowed config) "Paused"
    require (p.fee == 0) "InvalidFee"
    amount ← to_u64 p.amount
    total ← expect (checked_add u64_max p.native_fee amount) "called `Option::unwrap()` on `None`"
    pay rt a.user sol_vault total
    post_init_transfer p a.user default_key a.payer

  unfoldable pub give_tokens : Bool → FinalizeTransfer → ℕ → Exec (Program L) (Unit {0})
  give_tokens true a amount = do
    n ← to_u64 amount
    invoke "transfer_checked" (
        transfer_checked a.mint.key (vault_of a.mint.key) a.token_account authority n
          a.mint.decimals)
  give_tokens false a amount = do
    require (contains a.mint.mint_authority authority) "InvalidBridgedToken"
    n ← to_u64 amount
    invoke "mint_to" (mint_to a.mint.key a.token_account authority n)

  unfoldable pub post_finalized :
      FinalizeTransferPayload → Pubkey → Pubkey → Exec (Program L) (Unit {0})
  post_finalized p token payer = post_message rt payer (
      finalized_for_near borsh record {
        token = token;
        amount = p.amount;
        fee_recipient = unwrap_or p.fee_recipient [];
        transfer_id = p.transfer_id;
      })

  -- The account `config` of `WormholeCPI` is not `mut`: what `use_nonce` changes in it is not
  -- written back when the instruction ends.
  unfoldable pub finalize_transfer :
      FinalizeTransfer → SignedPayload FinalizeTransferPayload → Exec (Program L) (Unit {0})
  finalize_transfer a signed = do
    config ← load_config
    open_used_nonces rt signed.payload.destination_nonce a.payer
    check_vault a.with_vault a.mint.key
    invoke "init" (open_token_account a.mint.key a.recipient a.payer)
    require (finalize_allowed config) "Paused"
    verify_signature rt signed
        (finalize_transfer_for_near borsh signed.payload a.mint.key a.recipient)
        config.derived_near_bridge_address
    use_nonce rt signed.payload.destination_nonce a.payer config
    give_tokens a.with_vault a signed.payload.amount
    post_finalized signed.payload a.mint.key a.payer

  -- This instruction has a `config` of its own, which is `mut`.
  unfoldable pub finalize_transfer_sol :
      FinalizeTransferSol → SignedPayload FinalizeTransferPayload → Exec (Program L) (Unit {0})
  finalize_transfer_sol a signed = do
    config ← load_config
    open_used_nonces rt signed.payload.destination_nonce a.payer
    require (finalize_allowed config) "Paused"
    verify_signature rt signed
        (finalize_transfer_for_near borsh signed.payload default_key a.recipient)
        config.derived_near_bridge_address
    raised ← use_nonce rt signed.payload.destination_nonce a.payer config
    amount ← to_u64 signed.payload.amount
    pay rt sol_vault a.recipient amount
    post_finalized signed.payload default_key a.payer
    store_config raised
