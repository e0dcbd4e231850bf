-- ===== src/Solana/Access.antt =====
-- Who may do what in the Solana program, and what each instruction writes to the configuration.
pub mod Rules
use omni_bridge.Prelude.{
  ℕ, String, Bool, true, false, ◌≡◌, refl, sym, subst, Option, none, some, ◌||◌, arith,
}
use omni_bridge.Prelude.Equality.{◌==◌, nat_eq, list_eq}
use omni_bridge.Prelude.Result.{Result, ok, err, Ensures}
use omni_bridge.Types.Codecs.{Bytes}
use omni_bridge.Exec.{Exec, pure, expect, require, continue, ◌>>=◌}
use omni_bridge.Exec.Keeps.{
  Keeps, Triple, Triple-bind, Triple-ok, keeps_rules, Keeps-require, Keeps-bind,
}
use omni_bridge.Exec.Triples.{Triple-after, Triple-skip, Triple-fact, Triple-pure}
use omni_bridge.Solana.State.{
  Pubkey, Text, ConfigBumps, Metadata, Config, Runtime, Program, load_config, store_config,
  all_paused,
}
use omni_bridge.Solana.Messages.{
  InitTransferPayload, FinalizeTransferPayload, DeployTokenPayload, SignedPayload,
}
use omni_bridge.Solana.Access.Rules.{
  HasConfig, HasConfig-OffLedger, Keeps-replace_slot, with_config, checked, granted, stored,
}
use omni_bridge.Solana.Nonces.{load, replace_slot, raise_nonce, use_nonce}
use omni_bridge.Solana.Transfers.{
  InitTransfer, InitTransferSol, FinalizeTransfer, FinalizeTransferSol, init_allowed,
  finalize_allowed, init_transfer, init_transfer_sol, finalize_transfer, finalize_transfer_sol,
}
use omni_bridge.Solana.Admin.{
  LogMetadata, initialize, change_config, set_admin, set_pausable_admin, set_paused,
  set_metadata_admin, pause, update_metadata, deploy_token, log_metadata,
}
use omni_bridge.Solana.Calls.{Instruction}
use omni_bridge.Solana.Instructions.{process}
use omni_bridge.Solana.Frame.{
  Keeps-find_metadata, OffLedger, Keeps-invoke, Keeps-pay, Keeps-pay_positive, Keeps-post_message,
  Keeps-check_vault, Keeps-take_tokens, Keeps-to_u64, Keeps-post_init_transfer,
  Keeps-verify_signature, Keeps-open_used_nonces, Keeps-settle_reserve, Keeps-give_tokens,
  Keeps-post_finalized,
}

-- What the configuration and the signer have to satisfy. The program is initialised once.
abbrev pub IsAuthorised : Instruction → Config → Type 0
IsAuthorised (Instruction.initialize _ _ _ _ _ _ _) c = ⊥
IsAuthorised (Instruction.deploy_token _ _) c = Unit
IsAuthorised (Instruction.log_metadata _) c = Unit
IsAuthorised (Instruction.finalize_transfer _ _) c = finalize_allowed c ≡ true
IsAuthorised (Instruction.finalize_transfer_sol _ _) c = finalize_allowed c ≡ true
IsAuthorised (Instruction.init_transfer _ _) c = init_allowed c ≡ true
IsAuthorised (Instruction.init_transfer_sol _ _) c = init_allowed c ≡ true
IsAuthorised (Instruction.pause signer) c = (signer == c.pausable_admin || signer == c.admin) ≡ true
IsAuthorised (Instruction.unpause signer _) c = (signer == c.admin) ≡ true
IsAuthorised (Instruction.set_admin signer _) c = (signer == c.admin) ≡ true
IsAuthorised (Instruction.set_pausable_admin signer _) c = (signer == c.admin) ≡ true
IsAuthorised (Instruction.set_metadata_admin signer _) c = (signer == c.admin) ≡ true
IsAuthorised (Instruction.update_metadata signer _ _ _ _ _) c =
    (signer == c.metadata_admin || signer == c.admin) ≡ true

-- The configuration after the instruction.
abbrev pub recorded : Instruction → Config → Config
recorded (Instruction.finalize_transfer_sol _ p) c = raise_nonce p.payload.destination_nonce c
recorded (Instruction.pause _) c = record c { paused = all_paused }
recorded (Instruction.unpause _ n) c = record c { paused = n }
recorded (Instruction.set_admin _ k) c = record c { admin = k }
recorded (Instruction.set_pausable_admin _ k) c = record c { pausable_admin = k }
recorded (Instruction.set_metadata_admin _ k) c = record c { metadata_admin = k }
recorded _ c = c

module _ {L : Type 0} (rt : Runtime L) (c : Config) where
  off : OffLedger (HasConfig {L = L} c)
  off = HasConfig-OffLedger c

  Keeps-use_nonce :
      (n : ℕ) (payer : Pubkey) (d : Config) → Keeps (HasConfig c) (use_nonce rt n payer d)
  unfolding use_nonce
  Keeps-use_nonce n payer d =
      search (keeps_rules, Keeps-settle_reserve, Keeps-replace_slot, off) depth 30

  use_nonce-raised :
      {P : Program L → Type 0} (n : ℕ) (payer : Pubkey) (d : Config)
      → Triple P (use_nonce rt n payer d) (λ e _. e ≡ raise_nonce n d)
  unfolding use_nonce
  use_nonce-raised n payer d =
      Triple-skip _ _ λ _.
        Triple-skip _ _ λ _. Triple-skip _ _ λ _. Triple-skip _ _ λ _. Triple-pure _ λ s h. refl

  -- The instruction is authorised, and writes what is recorded.
  abbrev Access : Instruction → Type 0
  Access i =
      Triple (HasConfig c) (process rt i)
        (λ _ t. IsAuthorised i c × (t.config ≡ some (recorded i c)))

  changed :
      (signer : Pubkey) (f : Config → Config)
      → Triple
          (HasConfig c)
          (change_config rt signer f)
          (λ _ t. ((signer == c.admin) ≡ true) × (t.config ≡ some (f c)))
  unfolding change_config
  changed signer f = with_config c _ (checked _ _ _ λ e. stored (f c) e)

  initialize-Access :
      (a b k : Pubkey) (d : Bytes) (e : ConfigBumps) (f g : Pubkey)
      → Access (Instruction.initialize a b k d e f g)
  unfolding process initialize ◌>>=◌
  initialize-Access a b k d e f g = record { at = λ s h. rw h tt }

  finalize_transfer-Access :
      (a : FinalizeTransfer) (p : SignedPayload FinalizeTransferPayload)
      → Access (Instruction.finalize_transfer a p)
  unfolding process finalize_transfer
  finalize_transfer-Access a p = with_config c _ (
      Triple-after _ _ (Keeps-open_used_nonces rt off _ _) λ _.
        Triple-after _ _ (Keeps-check_vault rt off _ _) λ _.
          Triple-after _ _ (Keeps-invoke off _ _) λ _. checked _ _ _ λ e. granted _ e (
            search
              (
                keeps_rules, Keeps-verify_signature, Keeps-use_nonce, Keeps-give_tokens,
                Keeps-post_finalized, off,
              )
              depth 30))

  finalize_transfer_sol-Access :
      (a : FinalizeTransferSol) (p : SignedPayload FinalizeTransferPayload)
      → Access (Instruction.finalize_transfer_sol a p)
  unfolding process finalize_transfer_sol
  finalize_transfer_sol-Access a p = with_config c _ (
      Triple-after _ _ (Keeps-open_used_nonces rt off _ _) λ _. checked _ _ _ λ e.
        Triple-after _ _ (Keeps-verify_signature rt off _ _ _) λ _.
          Triple-fact (λ d. d ≡ raise_nonce _ c) _ _ (Keeps-use_nonce _ _ c)
            (use_nonce-raised _ _ c)
            λ d same. Triple-after _ _ (Keeps-to_u64 rt off _) λ _.
              Triple-after _ _ (Keeps-pay rt off _ _ _)
                λ _. Triple-after _ _ (Keeps-post_finalized rt off _ _ _) λ _. rw same (stored _ e))

  init_transfer-Access :
      (a : InitTransfer) (p : InitTransferPayload) → Access (Instruction.init_transfer a p)
  unfolding process init_transfer
  init_transfer-Access a p = with_config c _ (
      Triple-after _ _ (Keeps-check_vault rt off _ _) λ _. checked _ _ _ λ e. granted _ e (
        search (keeps_rules, Keeps-pay_positive, Keeps-take_tokens, Keeps-post_init_transfer, off)
          depth 30))

  init_transfer_sol-Access :
      (a : InitTransferSol) (p : InitTransferPayload) → Access (Instruction.init_transfer_sol a p)
  unfolding process init_transfer_sol
  init_transfer_sol-Access a p = with_config c _ (
      checked _ _ _ λ e.
        granted _ e
          (search (keeps_rules, Keeps-to_u64, Keeps-pay, Keeps-post_init_transfer, off) depth 30))

  deploy_token-Access :
      (p : SignedPayload DeployTokenPayload) (payer : Pubkey)
      → Access (Instruction.deploy_token p payer)
  unfolding process deploy_token
  deploy_token-Access p payer = with_config c _ (
      granted _ tt (
        search (keeps_rules, Keeps-invoke, Keeps-verify_signature, Keeps-post_message, off) depth
          30))

  log_metadata-Access : (a : LogMetadata) → Access (Instruction.log_metadata a)
  unfolding process log_metadata
  log_metadata-Access a = with_config c _ (
      granted _ tt
        (search (keeps_rules, Keeps-find_metadata, Keeps-invoke, Keeps-post_message, off) depth 30))

  pause-Access : (signer : Pubkey) → Access (Instruction.pause signer)
  unfolding process pause
  pause-Access signer = with_config c _ (checked _ _ _ λ e. stored _ e)

  update_metadata-Access :
      (signer mint : Pubkey) (m : Metadata) (name symbol uri : Option Text)
      → Access (Instruction.update_metadata signer mint m name symbol uri)
  unfolding process update_metadata
  update_metadata-Access signer mint m name symbol uri =
      with_config c _ (checked _ _ _ λ e. granted _ e (Keeps-invoke off _ _))

  process-Access : (i : Instruction) → Access i
  unfolding process set_admin set_pausable_admin set_paused set_metadata_admin
  process-Access (Instruction.unpause signer n) = changed signer _
  process-Access (Instruction.set_admin signer k) = changed signer _
  process-Access (Instruction.set_pausable_admin signer k) = changed signer _
  process-Access (Instruction.set_metadata_admin signer k) = changed signer _
  process-Access (Instruction.pause signer) = pause-Access signer
  process-Access (Instruction.initialize a b k d e f g) = initialize-Access a b k d e f g
  process-Access (Instruction.deploy_token p payer) = deploy_token-Access p payer
  process-Access (Instruction.log_metadata a) = log_metadata-Access a
  process-Access (Instruction.init_transfer a p) = init_transfer-Access a p
  process-Access (Instruction.init_transfer_sol a p) = init_transfer_sol-Access a p
  process-Access (Instruction.finalize_transfer a p) = finalize_transfer-Access a p
  process-Access (Instruction.finalize_transfer_sol a p) = finalize_transfer_sol-Access a p
  process-Access (Instruction.update_metadata signer mint m name symbol uri) =
      update_metadata-Access signer mint m name symbol uri

  -- On an initialised program, an instruction that succeeds is not `initialize`, is signed by the
  -- right administrator or sent while the transfers are allowed, and leaves the configuration that
  -- is recorded for it: `pause` pauses both ways, the setters set one field, and the nonce of a
  -- finalisation is recorded only when SOL is paid.
  pub process-IsAuthorised :
      (i : Instruction) (s : Program L) {u : Unit {0}} {t : Program L}
      → s.config ≡ some c
      → process rt i s ≡ ok (u, t)
      → IsAuthorised i c × (t.config ≡ some (recorded i c))
  process-IsAuthorised i s h e = Triple-ok s (process-Access i) h e
