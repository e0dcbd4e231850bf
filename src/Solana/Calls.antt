-- ===== src/Solana/Calls.antt =====
-- The calls of the Solana program, with the accounts and arguments that their caller chooses: the
-- module `bridge_token_factory` of lib.rs. `get_version` reads and writes nothing.
use omni_bridge.Prelude.{ℕ, Option, none, some}
use omni_bridge.Types.Codecs.{Bytes}
use omni_bridge.Solana.State.{Pubkey, Text, ConfigBumps, Metadata}
use omni_bridge.Solana.Messages.{
  InitTransferPayload, FinalizeTransferPayload, DeployTokenPayload, SignedPayload,
}
use omni_bridge.Solana.Transfers.{
  InitTransfer, InitTransferSol, FinalizeTransfer, FinalizeTransferSol,
}
use omni_bridge.Solana.Admin.{LogMetadata}

pub data Instruction : Type 0 where
  initialize : Pubkey → Pubkey → Pubkey → Bytes → ConfigBumps → Pubkey → Pubkey → Instruction
  deploy_token : SignedPayload DeployTokenPayload → Pubkey → Instruction
  finalize_transfer : FinalizeTransfer → SignedPayload FinalizeTransferPayload → Instruction
  finalize_transfer_sol : FinalizeTransferSol → SignedPayload FinalizeTransferPayload → Instruction
  log_metadata : LogMetadata → Instruction
  init_transfer : InitTransfer → InitTransferPayload → Instruction
  init_transfer_sol : InitTransferSol → InitTransferPayload → Instruction
  pause : Pubkey → Instruction
  unpause : Pubkey → ℕ → Instruction
  set_admin : Pubkey → Pubkey → Instruction
  set_pausable_admin : Pubkey → Pubkey → Instruction
  set_metadata_admin : Pubkey → Pubkey → Instruction
  update_metadata :
      Pubkey → Pubkey → Metadata → Option Text → Option Text → Option Text → Instruction

-- The nonce that an instruction is to use.
abbrev pub nonce_of : Instruction → Option ℕ
nonce_of (Instruction.finalize_transfer a p) = some p.payload.destination_nonce
nonce_of (Instruction.finalize_transfer_sol a p) = some p.payload.destination_nonce
nonce_of _ = none
