-- ===== src/Solana/Frame.antt =====
-- What the actions of the Solana program leave alone: all but a few write only what other programs
-- store.
use omni_bridge.Prelude.{ℕ, Bool, true, false, Option, none, some, String}
use omni_bridge.Types.Codecs.{Bytes}
use omni_bridge.Exec.Keeps.{Keeps, keeps_rules, Keeps-modify}
use omni_bridge.Solana.State.{
  Pubkey, Config, Runtime, Program, invoke, load_config, store_config, pay, pay_positive,
  post_message,
}
use omni_bridge.Solana.Messages.{
  SignedPayload, InitTransferPayload, FinalizeTransferPayload, verify_signature,
}
use omni_bridge.Solana.Nonces.{settle_reserve, open_used_nonces}
use omni_bridge.Solana.Admin.{
  MetadataAccount, LogMetadata, parse_metadata_account, pointed_metadata, find_metadata,
}
use omni_bridge.Solana.Transfers.{
  InitTransfer, FinalizeTransfer, check_vault, to_u64, take_tokens, give_tokens, post_init_transfer,
  post_finalized,
}

-- The predicate does not read what other programs store.
pub record OffLedger {L : Type 0} (P : Program L → Type 0) : Type 0 where
  pub ledger : (s : Program L) (l : L) → P s → P (record s { ledger = l })

module _ {L : Type 0} {P : Program L → Type 0} (off : OffLedger P) where
  pub Keeps-invoke : (e : String) (call : L → Option L) → Keeps P (invoke e call)
  unfolding invoke
  Keeps-invoke e call = search (keeps_rules, Keeps-modify, off.ledger) depth 20

module _ {L : Type 0} {P : Program L → Type 0} where
  pub Keeps-load_config : Keeps P load_config
  unfolding load_config
  Keeps-load_config = search keeps_rules depth 20

  pub Keeps-store_config :
      (c : Config)
      → ((s : Program L) → P s → P (record s { config = some c }))
      → Keeps P (store_config c)
  unfolding store_config
  Keeps-store_config c h = Keeps-modify _ h

module _ {L : Type 0} (rt : Runtime L) {P : Program L → Type 0} (off : OffLedger P) where
  pub Keeps-pay : (source target : Pubkey) (amount : ℕ) → Keeps P (pay rt source target amount)
  unfolding pay
  Keeps-pay source target amount = Keeps-invoke off _ _

  pub Keeps-pay_positive :
      (source target : Pubkey) (amount : ℕ) → Keeps P (pay_positive rt source target amount)
  unfolding pay_positive
  Keeps-pay_positive source target amount = search (keeps_rules, Keeps-pay) depth 20

  pub Keeps-post_message : (payer : Pubkey) (m : Bytes) → Keeps P (post_message rt payer m)
  unfolding post_message
  Keeps-post_message payer m = search (keeps_rules, Keeps-pay_positive, Keeps-invoke, off) depth 20

  pub Keeps-settle_reserve : (e : ℕ) (payer : Pubkey) → Keeps P (settle_reserve rt e payer)
  unfolding settle_reserve
  Keeps-settle_reserve e payer = search (keeps_rules, Keeps-pay_positive, Keeps-pay) depth 20

  pub Keeps-open_used_nonces : (n : ℕ) (payer : Pubkey) → Keeps P (open_used_nonces rt n payer)
  unfolding open_used_nonces
  Keeps-open_used_nonces n payer = search (keeps_rules, Keeps-invoke, off) depth 20

  pub Keeps-check_vault : (b : Bool) (mint : Pubkey) → Keeps P (check_vault rt b mint)
  unfolding check_vault
  Keeps-check_vault true mint = search keeps_rules depth 20
  Keeps-check_vault false mint = search keeps_rules depth 20

  pub Keeps-to_u64 : (n : ℕ) → Keeps P (to_u64 rt n)
  unfolding to_u64
  Keeps-to_u64 n = search keeps_rules depth 20

  pub Keeps-take_tokens : (b : Bool) (a : InitTransfer) (n : ℕ) → Keeps P (take_tokens rt b a n)
  unfolding take_tokens to_u64
  Keeps-take_tokens true a n = search (keeps_rules, Keeps-invoke, off) depth 20
  Keeps-take_tokens false a n = search (keeps_rules, Keeps-invoke, off) depth 20

  pub Keeps-give_tokens : (b : Bool) (a : FinalizeTransfer) (n : ℕ) → Keeps P (give_tokens rt b a n)
  unfolding give_tokens to_u64
  Keeps-give_tokens true a n = search (keeps_rules, Keeps-invoke, off) depth 20
  Keeps-give_tokens false a n = search (keeps_rules, Keeps-invoke, off) depth 20

  pub Keeps-post_init_transfer :
      (p : InitTransferPayload) (user token payer : Pubkey)
      → Keeps P (post_init_transfer rt p user token payer)
  unfolding post_init_transfer
  Keeps-post_init_transfer p user token payer = search (keeps_rules, Keeps-post_message) depth 20

  pub Keeps-post_finalized :
      (p : FinalizeTransferPayload) (token payer : Pubkey)
      → Keeps P (post_finalized rt p token payer)
  unfolding post_finalized
  Keeps-post_finalized p token payer = Keeps-post_message _ _

  pub Keeps-verify_signature :
      {M : Type 0} (m : SignedPayload M) (bytes key : Bytes)
      → Keeps P (verify_signature rt m bytes key)
  unfolding verify_signature
  Keeps-verify_signature m bytes key = search keeps_rules depth 20

module _ {L : Type 0} (rt : Runtime L) {P : Program L → Type 0} where
  Keeps-parse_metadata_account :
      (o : Option MetadataAccount) (k : Pubkey) → Keeps P (parse_metadata_account rt o k)
  unfolding parse_metadata_account
  Keeps-parse_metadata_account o k = search keeps_rules depth 30

  Keeps-pointed_metadata : (a : LogMetadata) (o : Option Pubkey) → Keeps P (pointed_metadata rt a o)
  unfolding pointed_metadata
  Keeps-pointed_metadata a none = search keeps_rules depth 30
  Keeps-pointed_metadata a (some k) = search (keeps_rules, Keeps-parse_metadata_account) depth 30

  pub Keeps-find_metadata : (a : LogMetadata) → Keeps P (find_metadata rt a)
  unfolding find_metadata
  Keeps-find_metadata a =
      search (keeps_rules, Keeps-parse_metadata_account, Keeps-pointed_metadata) depth 30
