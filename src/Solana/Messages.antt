-- ===== src/Solana/Messages.antt =====
-- The messages of the Solana program, as bytes: state/message.
pub mod Unique
use omni_bridge.Prelude.{ℕ, Bool, true, false, not, Option, none, some, List, [], ◌∷◌, ◌++◌}
use omni_bridge.Prelude.Equality.{◌==◌, list_eq, nat_eq}
use omni_bridge.Types.Codecs.{Bytes}
use omni_bridge.Exec.{Exec, expect, require, ◌>>=◌, ◌>>◌}
use omni_bridge.Solana.State.{
  Pubkey, Text, Borsh, Runtime, Program, solana_omni_bridge_chain_id as chain_id,
}

pub data IncomingMessageType : Type 0 where
  init_transfer metadata : IncomingMessageType

pub data OutgoingMessageType : Type 0 where
  init_transfer fin_transfer deploy_token log_metadata : OutgoingMessageType

-- Borsh writes an enum without fields as the index of its constructor.
abbrev pub incoming_tag : IncomingMessageType → ℕ
incoming_tag IncomingMessageType.init_transfer = 0
incoming_tag IncomingMessageType.metadata = 1

abbrev pub outgoing_tag : OutgoingMessageType → ℕ
outgoing_tag OutgoingMessageType.init_transfer = 0
outgoing_tag OutgoingMessageType.fin_transfer = 1
outgoing_tag OutgoingMessageType.deploy_token = 2
outgoing_tag OutgoingMessageType.log_metadata = 3

pub record TransferId : Type 0 where
  pub origin_chain : ℕ
  pub origin_nonce : ℕ

pub record InitTransferPayload : Type 0 where
  pub amount : ℕ
  pub recipient : Text
  pub fee : ℕ
  pub native_fee : ℕ
  pub message : Text

pub record FinalizeTransferPayload : Type 0 where
  pub destination_nonce : ℕ
  pub transfer_id : TransferId
  pub amount : ℕ
  pub fee_recipient : Option Text

pub record FinalizeTransferResponse : Type 0 where
  pub token : Pubkey
  pub amount : ℕ
  pub fee_recipient : Text
  pub transfer_id : TransferId

pub record DeployTokenPayload : Type 0 where
  pub token : Text
  pub name : Text
  pub symbol : Text
  pub decimals : ℕ

pub record DeployTokenResponse : Type 0 where
  pub token : Text
  pub solana_mint : Pubkey
  pub decimals : ℕ
  pub origin_decimals : ℕ

pub record LogMetadataPayload : Type 0 where
  pub token : Pubkey
  pub name : Text
  pub symbol : Text
  pub decimals : ℕ

-- A payload with the 64 bytes of its signature and the recovery id, the 65th.
pub record SignedPayload (P : Type 0) : Type 0 where
  pub payload : P
  pub signature : Bytes
  pub recovery_id : ℕ

-- What a `BufWriter` collects.
abbrev pub written : List Bytes → Bytes
written [] = []
written (x ∷ xs) = x ++ written xs

abbrev pub byte : ℕ → Bytes
byte n = n ∷ []

module _ (b : Borsh) where
  open b use {u64, u128, string, pubkey, option_string}

  unfoldable pub init_transfer_for_near : InitTransferPayload → ℕ → Pubkey → Pubkey → Bytes
  init_transfer_for_near p nonce sender token = written (
      byte (outgoing_tag OutgoingMessageType.init_transfer)
      ∷ byte chain_id
      ∷ pubkey sender
      ∷ byte chain_id
      ∷ pubkey token
      ∷ u64 nonce
      ∷ u128 p.amount
      ∷ u128 p.fee
      ∷ u128 p.native_fee
      ∷ string p.recipient
      ∷ string p.message
      ∷ [])

  unfoldable pub finalize_transfer_for_near : FinalizeTransferPayload → Pubkey → Pubkey → Bytes
  finalize_transfer_for_near p mint recipient = written (
      byte (incoming_tag IncomingMessageType.init_transfer)
      ∷ u64 p.destination_nonce
      ∷ byte p.transfer_id.origin_chain
      ∷ u64 p.transfer_id.origin_nonce
      ∷ byte chain_id
      ∷ pubkey mint
      ∷ u128 p.amount
      ∷ byte chain_id
      ∷ pubkey recipient
      ∷ option_string p.fee_recipient
      ∷ [])

  unfoldable pub finalized_for_near : FinalizeTransferResponse → Bytes
  finalized_for_near p = written (
      byte (outgoing_tag OutgoingMessageType.fin_transfer)
      ∷ byte p.transfer_id.origin_chain
      ∷ u64 p.transfer_id.origin_nonce
      ∷ byte chain_id
      ∷ pubkey p.token
      ∷ u128 p.amount
      ∷ string p.fee_recipient
      ∷ [])

  unfoldable pub deploy_token_for_near : DeployTokenPayload → Bytes
  deploy_token_for_near p = written (
      byte (incoming_tag IncomingMessageType.metadata)
      ∷ string p.token
      ∷ string p.name
      ∷ string p.symbol
      ∷ byte p.decimals
      ∷ [])

  unfoldable pub deployed_for_near : DeployTokenResponse → Bytes
  deployed_for_near p = written (
      byte (outgoing_tag OutgoingMessageType.deploy_token)
      ∷ string p.token
      ∷ byte chain_id
      ∷ pubkey p.solana_mint
      ∷ byte p.decimals
      ∷ byte p.origin_decimals
      ∷ [])

  unfoldable pub log_metadata_for_near : LogMetadataPayload → Bytes
  log_metadata_for_near p = written (
      byte (outgoing_tag OutgoingMessageType.log_metadata)
      ∷ byte chain_id
      ∷ pubkey p.token
      ∷ string p.name
      ∷ string p.symbol
      ∷ byte p.decimals
      ∷ [])

module _ {L P : Type 0} (rt : Runtime L) where
  open rt use {keccak, parse_signature, recover}

  -- `verify_signature`, of the payload as `serialized`.
  unfoldable pub verify_signature : SignedPayload P → Bytes → Bytes → Exec (Program L) (Unit {0})
  verify_signature signed serialized near_bridge = do
    is_high ← expect (parse_signature signed.signature) "InvalidArgument"
    require (not is_high) "MalleableSignature"
    signer ←
        expect (recover (keccak serialized) signed.recovery_id signed.signature)
          "SignatureVerificationFailed"
    require (signer == near_bridge) "SignatureVerificationFailed"
