-- ===== src/Solana/Bystanders.antt =====
-- The instructions of the Solana program that write no bitmap of nonces.
use omni_bridge.Prelude.{ℕ, Option}
use omni_bridge.Prelude.Equality.{nat_eq}
use omni_bridge.Prelude.Maps.{LookupMap, LookupSet}
use omni_bridge.Exec.Keeps.{Keeps, keeps_rules, Keeps-bind, Keeps-require}
use omni_bridge.Solana.State.{store_config, Pubkey, Text, Config, ConfigBumps, Metadata, Runtime}
use omni_bridge.Types.Codecs.{Bytes}
use omni_bridge.Solana.Messages.{InitTransferPayload, DeployTokenPayload, SignedPayload}
use omni_bridge.Solana.Transfers.{InitTransfer, InitTransferSol, init_transfer, init_transfer_sol}
use omni_bridge.Solana.Admin.{
  LogMetadata, initialize, change_config, pause, update_metadata, deploy_token, log_metadata,
}
use omni_bridge.Solana.Frame.{
  Keeps-find_metadata, OffLedger, Keeps-load_config, Keeps-store_config, Keeps-invoke, Keeps-pay,
  Keeps-pay_positive, Keeps-post_message, Keeps-check_vault, Keeps-take_tokens, Keeps-to_u64,
  Keeps-post_init_transfer, Keeps-verify_signature,
}
use omni_bridge.Solana.Once.{HasNonces, HasNonces-OffLedger}

module _ {L : Type 0} (rt : Runtime L) (m : LookupMap ℕ (LookupSet ℕ)) where
  off : OffLedger (HasNonces {L = L} m)
  off = HasNonces-OffLedger m

  Keeps-config : (c : Config) → Keeps (HasNonces {L = L} m) (store_config c)
  Keeps-config c = Keeps-store_config c (λ s h. h)

  pub Keeps-init_transfer :
      (a : InitTransfer) (p : InitTransferPayload) → Keeps (HasNonces m) (init_transfer rt a p)
  unfolding init_transfer
  Keeps-init_transfer a p =
      search
        (
          keeps_rules, Keeps-load_config, Keeps-check_vault, Keeps-pay_positive, Keeps-take_tokens,
          Keeps-post_init_transfer, off,
        )
        depth 30

  pub Keeps-init_transfer_sol :
      (a : InitTransferSol) (p : InitTransferPayload)
      → Keeps (HasNonces m) (init_transfer_sol rt a p)
  unfolding init_transfer_sol
  Keeps-init_transfer_sol a p =
      search
        (keeps_rules, Keeps-load_config, Keeps-to_u64, Keeps-pay, Keeps-post_init_transfer, off)
        depth 30

  pub Keeps-change_config :
      (signer : Pubkey) (f : Config → Config) → Keeps (HasNonces m) (change_config rt signer f)
  unfolding change_config
  Keeps-change_config signer f =
      Keeps-bind _ _ Keeps-load_config
        λ c. Keeps-bind _ _ (Keeps-require _ _) λ _. Keeps-store_config _ (λ s h. h)

  pub Keeps-pause : (signer : Pubkey) → Keeps (HasNonces m) (pause rt signer)
  unfolding pause
  Keeps-pause signer =
      Keeps-bind _ _ Keeps-load_config
        λ c. Keeps-bind _ _ (Keeps-require _ _) λ _. Keeps-store_config _ (λ s h. h)

  pub Keeps-initialize :
      (a b c : Pubkey) (d : Bytes) (e : ConfigBumps) (f g : Pubkey)
      → Keeps (HasNonces m) (initialize rt a b c d e f g)
  unfolding initialize
  Keeps-initialize a b c d e f g =
      search (keeps_rules, Keeps-invoke, Keeps-pay, Keeps-pay_positive, Keeps-config, off) depth 30

  pub Keeps-deploy_token :
      (p : SignedPayload DeployTokenPayload) (payer : Pubkey)
      → Keeps (HasNonces m) (deploy_token rt p payer)
  unfolding deploy_token
  Keeps-deploy_token p payer =
      search
        (
          keeps_rules, Keeps-load_config, Keeps-invoke, Keeps-verify_signature, Keeps-post_message,
          off,
        )
        depth 30

  pub Keeps-log_metadata : (a : LogMetadata) → Keeps (HasNonces m) (log_metadata rt a)
  unfolding log_metadata
  Keeps-log_metadata a =
      search
        (keeps_rules, Keeps-load_config, Keeps-find_metadata, Keeps-invoke, Keeps-post_message, off)
        depth 30

  pub Keeps-update_metadata :
      (signer mint : Pubkey) (c : Metadata) (name symbol uri : Option Text)
      → Keeps (HasNonces m) (update_metadata rt signer mint c name symbol uri)
  unfolding update_metadata
  Keeps-update_metadata signer mint c name symbol uri =
      search (keeps_rules, Keeps-load_config, Keeps-invoke, off) depth 30
