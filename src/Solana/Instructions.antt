-- ===== src/Solana/Instructions.antt =====
-- The instructions of the Solana program, and a sequence of transactions, each with one of them:
-- the module `bridge_token_factory` of lib.rs. `get_version` reads and writes nothing.
use omni_bridge.Prelude.{ℕ, Option, some, List, [], ◌∷◌, ◌++◌}
use omni_bridge.Prelude.Result.{Result, ok, err}
use omni_bridge.Exec.{Exec}
use omni_bridge.Solana.State.{Runtime, Program}
use omni_bridge.Solana.Calls.{Instruction, nonce_of}
use omni_bridge.Solana.Transfers.{
  init_transfer, init_transfer_sol, finalize_transfer, finalize_transfer_sol,
}
use omni_bridge.Solana.Admin.{
  initialize, set_admin, set_pausable_admin, set_paused, set_metadata_admin, pause, update_metadata,
  deploy_token, log_metadata,
}

module _ {L : Type 0} where
  abbrev pub after : Program L → Result (Unit {0} × Program L) → Program L
  after s (ok (_, t)) = t
  after s (err _) = s

  abbrev pub spent : Option ℕ → Result (Unit {0} × Program L) → List ℕ
  spent (some n) (ok _) = n ∷ []
  spent _ _ = []

module _ {L : Type 0} (rt : Runtime L) where
  unfoldable pub process : Instruction → Exec (Program L) (Unit {0})
  process (Instruction.initialize a b c d e f g) = initialize rt a b c d e f g
  process (Instruction.deploy_token p payer) = deploy_token rt p payer
  process (Instruction.finalize_transfer a p) = finalize_transfer rt a p
  process (Instruction.finalize_transfer_sol a p) = finalize_transfer_sol rt a p
  process (Instruction.log_metadata a) = log_metadata rt a
  process (Instruction.init_transfer a p) = init_transfer rt a p
  process (Instruction.init_transfer_sol a p) = init_transfer_sol rt a p
  process (Instruction.pause signer) = pause rt signer
  process (Instruction.unpause signer paused) = set_paused rt signer paused
  process (Instruction.set_admin signer admin) = set_admin rt signer admin
  process (Instruction.set_pausable_admin signer admin) = set_pausable_admin rt signer admin
  process (Instruction.set_metadata_admin signer admin) = set_metadata_admin rt signer admin
  process (Instruction.update_metadata signer mint m name symbol uri) =
      update_metadata rt signer mint m name symbol uri

  -- A transaction that fails writes nothing.
  unfoldable pub execute : List Instruction → Program L → Program L
  execute [] s = s
  execute (i ∷ is) s = execute is (after s (process i s))

  -- The nonces of the finalisations that succeed, in order.
  unfoldable pub accepted : List Instruction → Program L → List ℕ
  accepted [] s = []
  accepted (i ∷ is) s = spent (nonce_of i) (process i s) ++ accepted is (after s (process i s))
