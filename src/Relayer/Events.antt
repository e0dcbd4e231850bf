-- ===== src/Relayer/Events.antt =====
-- What the workers of the relayer read and write: the events of omni-relayer/src/workers/mod.rs,
-- near.rs and utxo.rs, with the messages that they hold.
use omni_bridge.Prelude.{ℕ, String, Option, List}
use omni_bridge.Types.Chain.{ChainKind}
use omni_bridge.Types.Codecs.{Bytes, AccountId}
use omni_bridge.Types.Address.{H160, OmniAddress}
use omni_bridge.Types.Transfer.{Fee, TransferId, UnifiedTransferId, TransferMessage}
use omni_bridge.Types.Messages.{UtxoFinTransferMsg, OmniBridgeEvent}

-- `CryptoHash` of a NEAR transaction, by its text.
abbrev pub CryptoHash : Type 0
CryptoHash = String

-- A Unix time in seconds; the source's `i64` is not negative here.
abbrev pub Timestamp : Type 0
Timestamp = ℕ

pub record RetryableEvent (E : Type 0) : Type 0 where
  pub event : E
  pub creation_timestamp : Timestamp
  pub last_updated_timestamp : Timestamp
  pub retries : ℕ

unfoldable pub new_event : {E : Type 0} → E → Timestamp → RetryableEvent E
new_event event now = record {
  event = event;
  creation_timestamp = now;
  last_updated_timestamp = now;
  retries = 0;
}

pub data EventAction : Type 0 where
  retry remove : EventAction

-- `InitTransferMessage` of omni-relayer/src/utils/evm.rs.
pub record InitTransferLog : Type 0 where
  pub sender : H160
  pub token_address : H160
  pub origin_nonce : ℕ
  pub amount : ℕ
  pub fee : ℕ
  pub native_fee : ℕ
  pub recipient : OmniAddress
  pub message : String

pub record EvmTransfer : Type 0 where
  pub chain_kind : ChainKind
  pub tx_hash : Bytes
  pub log : InitTransferLog
  pub creation_timestamp : Timestamp
  pub expected_finalization_time : ℕ

pub record SolanaTransfer : Type 0 where
  pub amount : ℕ
  pub token : Bytes
  pub sender : OmniAddress
  pub recipient : OmniAddress
  pub fee : ℕ
  pub native_fee : ℕ
  pub message : String
  pub emitter : Bytes
  pub sequence : ℕ

-- `DepositMsg` of the Bitcoin connector, with its post actions and its safe deposit.
pub record PostAction : Type 0 where
  pub receiver_id : AccountId
  pub amount : ℕ
  pub memo : Option String
  pub msg : String
  pub gas : Option ℕ

pub record DepositMsg : Type 0 where
  pub recipient_id : AccountId
  pub post_actions : Option (List PostAction)
  pub extra_msg : Option String
  pub safe_deposit : Option String

pub record UtxoToNearTransfer : Type 0 where
  pub chain : ChainKind
  pub btc_tx_hash : String
  pub vout : ℕ
  pub deposit_msg : DepositMsg

pub record NearToUtxoTransfer : Type 0 where
  pub chain : ChainKind
  pub btc_pending_id : String
  pub sign_index : ℕ

pub record FastTransferEvent : Type 0 where
  pub block_number : ℕ
  pub tx_hash : String
  pub token : String
  pub amount : ℕ
  pub transfer_id : TransferId
  pub recipient : OmniAddress
  pub fee : Fee
  pub msg : String
  pub storage_deposit_amount : Option ℕ
  pub safe_confirmations : ℕ

-- The variants with more than two fields hold a record of them.
pub data Transfer : Type 0 where
  near : TransferMessage → Transfer
  evm : EvmTransfer → Transfer
  solana : SolanaTransfer → Transfer
  utxo : UtxoFinTransferMsg → UnifiedTransferId → Transfer
  near_to_utxo : NearToUtxoTransfer → Transfer
  utxo_to_near : UtxoToNearTransfer → Transfer
  fast : FastTransferEvent → Transfer

pub record EvmTransaction : Type 0 where
  pub chain_kind : ChainKind
  pub tx_hash : Bytes
  pub creation_timestamp : Timestamp
  pub expected_finalization_time : ℕ

-- `FinTransfer` and `DeployToken`: a transaction of an EVM chain, or a Wormhole message of Solana.
pub data FinTransfer : Type 0 where
  evm : EvmTransaction → FinTransfer
  solana : String → ℕ → FinTransfer

pub data DeployToken : Type 0 where
  evm : EvmTransaction → DeployToken
  solana : String → ℕ → DeployToken

pub record SignUtxoTransaction : Type 0 where
  pub chain : ChainKind
  pub near_tx_hash : String
  pub relayer : AccountId

pub record ConfirmedTxHash : Type 0 where
  pub chain : ChainKind
  pub btc_tx_hash : String

-- `UnverifiedTrasfer`; the original event is JSON.
pub record UnverifiedTransfer (Value : Type 0) : Type 0 where
  pub tx_hash : CryptoHash
  pub signer : AccountId
  pub specific_errors : Option (List String)
  pub original_key : String
  pub original_event : Value

-- `PendingTransaction` of omni-relayer/src/utils/pending_transactions.rs.
pub record PendingTransaction : Type 0 where
  pub tx_hash : String
  pub nonce : ℕ
  pub sent_timestamp : Timestamp
  pub last_bump_timestamp : Option Timestamp
  pub chain_kind : ChainKind
  pub source_event_id : String
  pub source_event : OmniBridgeEvent

-- `TransferFee` of omni-relayer/src/utils/bridge_api.rs; the dollars by the bits of the `f64`.
pub record TransferFee : Type 0 where
  pub native_token_fee : Option ℕ
  pub transferred_token_fee : Option ℕ
  pub usd_fee : ℕ
