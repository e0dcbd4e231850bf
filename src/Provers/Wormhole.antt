-- ===== src/Provers/Wormhole.antt =====
-- The proxy of the Wormhole prover: lib.rs and parsed_vaa.rs of
-- near/omni-prover/wormhole-omni-prover-proxy/src.
pub mod Kind
use omni_bridge.Prelude.{ℕ, zero, String, Bool, true, false, not, Option, none, some, if◌then◌else◌}
use omni_bridge.Prelude.Equality.{PartialEq, ◌==◌, nat_eq}
use omni_bridge.Prelude.Result.{Result, ok, err, ok_or, ◌>>=◌}
use omni_bridge.Types.Codecs.{Bytes, AccountId, Codecs}
use omni_bridge.Types.Address.{OmniAddress, get_chain, new_from_slice}
use omni_bridge.Types.Parse.{parse_address}
use omni_bridge.Types.Transfer.{TransferId}
use omni_bridge.Types.Messages.{
  InitTransferMessage, FinTransferMessage, DeployTokenMessage, LogMetadataMessage, ProverResult,
}
use omni_bridge.Provers.Slices.{index}
use omni_bridge.Provers.Evm.{ProofKind}
use omni_bridge.Provers.Vaa.{ParsedVaa, parse}

pub record DeployTokenWh : Type 0 where
  pub payload_type : ProofKind
  pub token : String
  pub token_address : OmniAddress
  pub decimals : ℕ
  pub origin_decimals : ℕ

pub record LogMetadataWh : Type 0 where
  pub payload_type : ProofKind
  pub token_address : OmniAddress
  pub name : String
  pub symbol : String
  pub decimals : ℕ

pub record FinTransferWh : Type 0 where
  pub payload_type : ProofKind
  pub transfer_id : TransferId
  pub token_address : OmniAddress
  pub amount : ℕ
  pub fee_recipient : String

pub record InitTransferWh : Type 0 where
  pub payload_type : ProofKind
  pub sender : OmniAddress
  pub token_address : OmniAddress
  pub origin_nonce : ℕ
  pub amount : ℕ
  pub fee : ℕ
  pub native_fee : ℕ
  pub recipient : String
  pub message : String

-- `u8::from(proof_kind)`, and the derived `PartialEq`.
abbrev pub kind_to_u8 : ProofKind → ℕ
kind_to_u8 ProofKind.init_transfer = 0
kind_to_u8 ProofKind.fin_transfer = 1
kind_to_u8 ProofKind.deploy_token = 2
kind_to_u8 ProofKind.log_metadata = 3

abbrev pub same_kind : ProofKind → ProofKind → Bool
same_kind a b = kind_to_u8 a == kind_to_u8 b

pub record WormholeVerifyProofArgs : Type 0 where
  pub proof_kind : ProofKind
  pub vaa : String

pub record WormholeOmniProverProxy : Type 0 where
  pub prover_account : AccountId

-- The call of the prover, and the callback with its arguments.
pub record VerifyVaa : Type 0 where
  pub prover_account : AccountId
  pub proof_kind : ProofKind
  pub vaa : String

-- The readers of Borsh.
pub record WormholeHost : Type 0 where
  pub codecs : Codecs
  pub parse_args : Bytes → Option WormholeVerifyProofArgs
  pub init_transfer_wh : Bytes → Option InitTransferWh
  pub fin_transfer_wh : Bytes → Option FinTransferWh
  pub deploy_token_wh : Bytes → Option DeployTokenWh
  pub log_metadata_wh : Bytes → Option LogMetadataWh

module _ (host : WormholeHost) where
  open host use {
    codecs, parse_args, init_transfer_wh, fin_transfer_wh, deploy_token_wh, log_metadata_wh,
  }

  unfoldable pub to_init_transfer : ParsedVaa → Result InitTransferMessage
  to_init_transfer vaa = do
    transfer ← ok_or (init_transfer_wh vaa.payload) "borsh"
    if not (same_kind transfer.payload_type ProofKind.init_transfer)
        then err "Invalid proof kind"
        else do
          recipient ← parse_address codecs transfer.recipient
          emitter ← new_from_slice codecs (get_chain transfer.token_address) vaa.emitter_address
          ok record {
            origin_nonce = transfer.origin_nonce;
            token = transfer.token_address;
            amount = transfer.amount;
            recipient = recipient;
            fee = record { fee = transfer.fee; native_fee = transfer.native_fee };
            sender = transfer.sender;
            msg = transfer.message;
            emitter_address = emitter;
          }

  unfoldable pub to_fin_transfer : ParsedVaa → Result FinTransferMessage
  to_fin_transfer vaa = do
    transfer ← ok_or (fin_transfer_wh vaa.payload) "borsh"
    if not (same_kind transfer.payload_type ProofKind.fin_transfer)
        then err "Invalid proof kind"
        else do
          emitter ← new_from_slice codecs (get_chain transfer.token_address) vaa.emitter_address
          ok record {
            transfer_id = transfer.transfer_id;
            fee_recipient = codecs.parse_account_id transfer.fee_recipient;
            amount = transfer.amount;
            emitter_address = emitter;
          }

  unfoldable pub to_deploy_token : ParsedVaa → Result DeployTokenMessage
  to_deploy_token vaa = do
    parsed ← ok_or (deploy_token_wh vaa.payload) "borsh"
    if not (same_kind parsed.payload_type ProofKind.deploy_token)
        then err "Invalid proof kind"
        else do
          token ← ok_or (codecs.parse_account_id parsed.token) "invalid account id"
          emitter ← new_from_slice codecs (get_chain parsed.token_address) vaa.emitter_address
          ok record {
            token = token;
            token_address = parsed.token_address;
            decimals = parsed.decimals;
            origin_decimals = parsed.origin_decimals;
            emitter_address = emitter;
          }

  unfoldable pub to_log_metadata : ParsedVaa → Result LogMetadataMessage
  to_log_metadata vaa = do
    parsed ← ok_or (log_metadata_wh vaa.payload) "borsh"
    if not (same_kind parsed.payload_type ProofKind.log_metadata)
        then err "Invalid proof kind"
        else do
          emitter ← new_from_slice codecs (get_chain parsed.token_address) vaa.emitter_address
          ok record {
            token_address = parsed.token_address;
            name = parsed.name;
            symbol = parsed.symbol;
            decimals = parsed.decimals;
            emitter_address = emitter;
          }

  unfoldable pub verify_proof : WormholeOmniProverProxy → Bytes → Result VerifyVaa
  verify_proof self input = do
    args ← ok_or (parse_args input) "ErrorOnArgsParsing"
    ok record { prover_account = self.prover_account; proof_kind = args.proof_kind; vaa = args.vaa }

  unfoldable pub as_result : ProofKind → ParsedVaa → Result ProverResult
  as_result ProofKind.init_transfer vaa = do
    m ← to_init_transfer vaa
    ok (ProverResult.init_transfer m)
  as_result ProofKind.fin_transfer vaa = do
    m ← to_fin_transfer vaa
    ok (ProverResult.fin_transfer m)
  as_result ProofKind.deploy_token vaa = do
    m ← to_deploy_token vaa
    ok (ProverResult.deploy_token m)
  as_result ProofKind.log_metadata vaa = do
    m ← to_log_metadata vaa
    ok (ProverResult.log_metadata m)

  -- With the answer of the prover: the index of the governance action, or a failure.
  unfoldable pub verify_vaa_callback : ProofKind → String → Option ℕ → Result ProverResult
  verify_vaa_callback kind vaa none = err "Proof is not valid!"
  verify_vaa_callback kind vaa (some _) = do
    bytes ← ok_or (codecs.hex_decode vaa) "invalidVaa"
    parsed ← parse codecs.keccak256 bytes
    first ← index parsed.payload 0
    if kind_to_u8 kind == first then as_result kind parsed else err "Invalid proof kind"
