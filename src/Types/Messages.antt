-- ===== src/Types/Messages.antt =====
-- The messages of near/omni-types: transfer messages (lib.rs), prover results (prover_result.rs),
-- arguments (locker_args.rs), payloads to sign, the UTXO connector's types (btc.rs) and events
-- (near_events.rs).
use omni_bridge.Prelude.{ℕ, String, Option, List}
use omni_bridge.Types.Chain.{ChainKind}
use omni_bridge.Types.Codecs.{Bytes, AccountId}
use omni_bridge.Types.Address.{OmniAddress}
use omni_bridge.Types.Transfer.{
  Fee, TransferId, UtxoId, TransferIdKind, UnifiedTransferId, TransferMessage, FastTransfer,
}

pub record InitTransferMsg : Type 0 where
  pub recipient : OmniAddress
  pub fee : ℕ
  pub native_token_fee : ℕ
  pub msg : Option String

pub record FastFinTransferMsg : Type 0 where
  pub transfer_id : UnifiedTransferId
  pub recipient : OmniAddress
  pub fee : Fee
  pub msg : String
  pub amount : ℕ
  pub storage_deposit_amount : Option ℕ
  pub relayer : AccountId

pub record UtxoFinTransferMsg : Type 0 where
  pub utxo_id : UtxoId
  pub recipient : OmniAddress
  pub relayer_fee : ℕ
  pub msg : String

-- `UtxoFinTransferMsg::get_transfer_id`.
abbrev pub utxo_transfer_id : UtxoFinTransferMsg → ChainKind → UnifiedTransferId
utxo_transfer_id m c = record { origin_chain = c; kind = TransferIdKind.utxo m.utxo_id }

abbrev pub from_utxo_transfer : UtxoFinTransferMsg → AccountId → ℕ → ChainKind → FastTransfer
from_utxo_transfer m token_id amount c = record {
  transfer_id = record { origin_chain = c; kind = TransferIdKind.utxo m.utxo_id };
  token_id = token_id;
  amount = amount;
  fee = record { fee = m.relayer_fee; native_fee = 0 };
  recipient = m.recipient;
  msg = m.msg;
}

pub data BridgeOnTransferMsg : Type 0 where
  init_transfer : InitTransferMsg → BridgeOnTransferMsg
  fast_fin_transfer : FastFinTransferMsg → BridgeOnTransferMsg
  utxo_fin_transfer : UtxoFinTransferMsg → BridgeOnTransferMsg
  swap_migrated_token : BridgeOnTransferMsg

pub data UpdateFee : Type 0 where
  fee : Fee → UpdateFee
  proof : Bytes → UpdateFee

pub record BasicMetadata : Type 0 where
  pub name : String
  pub symbol : String
  pub decimals : ℕ

pub record InitTransferMessage : Type 0 where
  pub origin_nonce : ℕ
  pub token : OmniAddress
  pub amount : ℕ
  pub recipient : OmniAddress
  pub fee : Fee
  pub sender : OmniAddress
  pub msg : String
  pub emitter_address : OmniAddress

pub record FinTransferMessage : Type 0 where
  pub transfer_id : TransferId
  pub fee_recipient : Option AccountId
  pub amount : ℕ
  pub emitter_address : OmniAddress

pub record DeployTokenMessage : Type 0 where
  pub token : AccountId
  pub token_address : OmniAddress
  pub decimals : ℕ
  pub origin_decimals : ℕ
  pub emitter_address : OmniAddress

pub record LogMetadataMessage : Type 0 where
  pub token_address : OmniAddress
  pub name : String
  pub symbol : String
  pub decimals : ℕ
  pub emitter_address : OmniAddress

pub data ProverResult : Type 0 where
  init_transfer : InitTransferMessage → ProverResult
  fin_transfer : FinTransferMessage → ProverResult
  deploy_token : DeployTokenMessage → ProverResult
  log_metadata : LogMetadataMessage → ProverResult

pub record StorageDepositAction : Type 0 where
  pub token_id : AccountId
  pub account_id : AccountId
  pub storage_deposit_amount : Option ℕ

pub record FinTransferArgs : Type 0 where
  pub chain_kind : ChainKind
  pub storage_deposit_actions : List StorageDepositAction
  pub prover_args : Bytes

-- `ClaimFeeArgs`, `BindTokenArgs` and `DeployTokenArgs` have the same two fields.
pub record ProofArgs : Type 0 where
  pub chain_kind : ChainKind
  pub prover_args : Bytes

pub record AddDeployedTokenArgs : Type 0 where
  pub token_id : AccountId
  pub token_address : OmniAddress
  pub decimals : ℕ

pub data PayloadType : Type 0 where
  transfer_message metadata claim_native_fee : PayloadType

pub record TransferMessagePayload : Type 0 where
  pub prefix : PayloadType
  pub destination_nonce : ℕ
  pub transfer_id : TransferId
  pub token_address : OmniAddress
  pub amount : ℕ
  pub recipient : OmniAddress
  pub fee_recipient : Option AccountId

pub record MetadataPayload : Type 0 where
  pub prefix : PayloadType
  pub token : String
  pub name : String
  pub symbol : String
  pub decimals : ℕ

pub record SignRequest : Type 0 where
  pub payload : Bytes
  pub path : String
  pub key_version : ℕ

-- `SignatureResponse` of mpc_types.rs, with its one-field records `AffinePoint` and `Scalar`.
pub record SignatureResponse : Type 0 where
  pub big_r : String
  pub s : String
  pub recovery_id : ℕ

pub record TxOut : Type 0 where
  pub value : ℕ
  pub script_pubkey : String

pub data TokenReceiverMessage : Type 0 where
  deposit_protocol_fee : TokenReceiverMessage
  -- the target address, the inputs, the outputs and `max_gas_fee`
  withdraw : String → List String → List TxOut → Option ℕ → TokenReceiverMessage

pub record UtxoChainConfig : Type 0 where
  pub connector : AccountId
  pub token_id : AccountId

pub data OmniBridgeEvent : Type 0 where
  init_transfer_event : TransferMessage → OmniBridgeEvent
  sign_transfer_event : SignatureResponse → TransferMessagePayload → OmniBridgeEvent
  fin_transfer_event : TransferMessage → OmniBridgeEvent
  failed_fin_transfer_event : TransferMessage → OmniBridgeEvent
  update_fee_event : TransferMessage → OmniBridgeEvent
  log_metadata_event : SignatureResponse → MetadataPayload → OmniBridgeEvent
  claim_fee_event : TransferMessage → OmniBridgeEvent
  deploy_token_event : AccountId → OmniAddress → BasicMetadata → OmniBridgeEvent
  bind_token_event : AccountId → OmniAddress → ℕ → ℕ → OmniBridgeEvent
  fast_transfer_event : FastTransfer → Option TransferId → OmniBridgeEvent
  utxo_transfer_event : AccountId → ℕ → UtxoFinTransferMsg → Option TransferId → OmniBridgeEvent
