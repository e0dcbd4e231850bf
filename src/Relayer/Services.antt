-- ===== src/Relayer/Services.antt =====
-- What the relayer is given: the clients of the chains, the Redis server, the clock, JSON and the
-- configuration (omni-relayer/src/config.rs). A call of a client changes the world outside.
use omni_bridge.Prelude.{ℕ, String, Bool, Option, List}
use omni_bridge.Prelude.Result.{Result}
use omni_bridge.Types.Chain.{ChainKind}
use omni_bridge.Types.Codecs.{Bytes, AccountId, Codecs}
use omni_bridge.Types.Address.{H160, OmniAddress}
use omni_bridge.Types.Transfer.{
  Fee, TransferId, TransferMessage, UnifiedTransferId, UtxoId, FastTransfer, FastTransferId,
  FastTransferStatus,
}
use omni_bridge.Types.Messages.{OmniBridgeEvent, StorageDepositAction, ProofArgs}
use omni_bridge.Provers.Evm.{ProofKind, EvmProof}
use omni_bridge.Relayer.Nonces.{NearAnswer}
use omni_bridge.Relayer.Events.{
  CryptoHash, Timestamp, RetryableEvent, Transfer, FinTransfer, DeployToken, SignUtxoTransaction,
  ConfirmedTxHash, UnverifiedTransfer, PendingTransaction, TransferFee, DepositMsg,
}

-- `NearRpcError`: whether a query or a transaction failed in transport.
pub data NearRpcError : Type 0 where
  nonce_error finalization_error broadcast_error : NearRpcError
  query_error transaction_error : Bool → NearRpcError
  other : String → NearRpcError

-- `BridgeSdkError`, as far as the workers tell its cases apart. A Solana error holds the code of
-- the custom error of a failed preflight, if it is one.
pub data SdkError : Type 0 where
  near_rpc : NearRpcError → SdkError
  light_client_not_synced : ℕ → SdkError
  eth_client : String → SdkError
  evm_gas_estimate : String → SdkError
  solana_rpc : Option ℕ → SdkError
  insufficient_utxo_balance : SdkError
  insufficient_utxo_gas_fee utxo_client utxo_rpc : String → SdkError
  other : String → SdkError

pub data SdkResult (A : Type 0) : Type 0 where
  ok : A → SdkResult A
  err : SdkError → SdkResult A

pub data TxExecutionStatus : Type 0 where
  included final : TxExecutionStatus

-- `TransactionOptions`, whose time limit is never set.
pub record TransactionOptions : Type 0 where
  pub nonce : Option ℕ
  pub wait_until : TxExecutionStatus

-- The finalisations that the workers ask for, `omni_connector::FinTransferArgs`.
pub data Finalisation : Type 0 where
  -- chain and destination chain
  near_with_vaa :
      ChainKind → ChainKind → List StorageDepositAction → String → TransactionOptions → Finalisation
  near_with_evm_proof :
      ChainKind → ChainKind → Bytes → List StorageDepositAction → TransactionOptions → Finalisation
  near_btc : ChainKind → String → ℕ → DepositMsg → TransactionOptions → Finalisation
  evm : ChainKind → OmniBridgeEvent → Option ℕ → Finalisation
  solana : OmniBridgeEvent → Bytes → Finalisation

-- A call of a client.
abbrev pub Ask : Type 0 → Type 0 → Type 0
Ask Net A = Net → A × Net

-- `OmniConnector`, for one account on NEAR.
pub record Connector (Net : Type 0) : Type 0 where
  pub near_account_id : SdkResult AccountId
  pub near_client_configured : Bool
  pub utxo_chain_token : ChainKind → SdkResult AccountId
  pub near_get_transfer_message : TransferId → Ask Net (SdkResult TransferMessage)
  pub is_transfer_finalised : Option ChainKind → ChainKind → ℕ → Ask Net (SdkResult Bool)
  pub near_is_transfer_finalised : TransferId → Ask Net (SdkResult Bool)
  pub near_get_fast_transfer_status :
      FastTransferId → Ask Net (SdkResult (Option FastTransferStatus))
  pub near_get_token_id : OmniAddress → Ask Net (SdkResult AccountId)
  pub near_get_native_token_id : ChainKind → Ask Net (SdkResult AccountId)
  pub near_get_required_storage_deposit : AccountId → AccountId → Ask Net (SdkResult ℕ)
  pub get_required_balance_for_fast_fin_transfer : Ask Net (SdkResult ℕ)
  pub evm_get_last_block_number : ChainKind → Ask Net (SdkResult ℕ)
  pub wormhole_get_vaa : ℕ → String → ℕ → Ask Net (SdkResult String)
  pub wormhole_get_vaa_by_tx_hash : String → Ask Net (SdkResult String)
  pub get_proof_for_event : Bytes → ProofKind → ChainKind → Ask Net (SdkResult EvmProof)
  -- the calls that send transactions
  pub near_sign_transfer :
      TransferId
      → Option AccountId
      → Option Fee
      → TransactionOptions
      → Ask Net (SdkResult CryptoHash)
  pub near_submit_btc_transfer :
      ChainKind
      → String
      → ℕ
      → TransferId
      → TransactionOptions
      → Option ℕ
      → Ask Net (SdkResult CryptoHash)
  pub fin_transfer : Finalisation → Ask Net (SdkResult String)
  pub near_claim_fee : ProofArgs → TransactionOptions → Ask Net (SdkResult CryptoHash)
  pub bind_token : ProofArgs → TransactionOptions → Ask Net (SdkResult String)
  pub deposit_storage_if_required : ℕ → TransactionOptions → Ask Net (SdkResult Bool)
  pub near_fast_transfer :
      ChainKind → String → Option ℕ → TransactionOptions → Ask Net (SdkResult CryptoHash)
  pub near_sign_btc_transaction :
      ChainKind → String → ℕ → TransactionOptions → Ask Net (SdkResult CryptoHash)
  pub near_storage_deposit_for_token :
      AccountId → ℕ → AccountId → TransactionOptions → Ask Net (SdkResult CryptoHash)
  pub btc_fin_transfer : ChainKind → CryptoHash → Option AccountId → Ask Net (SdkResult String)
  pub near_btc_verify_withdraw :
      ChainKind → String → TransactionOptions → Ask Net (SdkResult CryptoHash)

-- A Redis server with hashes and sorted sets: a request is served or not.
pub record RedisServer (Db : Type 0) : Type 0 where
  pub hset : String → String → String → Db → Bool × Db
  pub hget : String → String → Db → Option (Option String) × Db
  pub hdel : String → String → Db → Bool × Db
  pub hscan : String → Db → Option (List (String × String)) × Db
  pub zadd : String → ℕ → String → Db → Bool × Db
  pub zrange : String → ℕ → ℕ → Db → Option (List String) × Db
  pub zrem : String → String → Db → Option ℕ × Db

-- `serde_json`. An event is written to a value or a text, and a value is read as an event.
pub record Json (Value : Type 0) : Type 0 where
  pub transfer_value : Transfer → Option Value
  pub bridge_event_value : OmniBridgeEvent → Option Value
  pub confirmed_value : ConfirmedTxHash → Option Value
  pub unverified_value : UnverifiedTransfer Value → Option Value
  pub as_transfer : Value → Option Transfer
  pub read_bridge_event : String → Option OmniBridgeEvent
  pub as_bridge_event : Value → Option OmniBridgeEvent
  pub as_fin_transfer : Value → Option FinTransfer
  pub as_deploy_token : Value → Option DeployToken
  pub as_sign_utxo : Value → Option SignUtxoTransaction
  pub as_confirmed : Value → Option ConfirmedTxHash
  pub as_unverified : Value → Option (UnverifiedTransfer Value)
  pub write_retryable : RetryableEvent Value → Option String
  pub read_retryable : String → Option (RetryableEvent Value)
  pub write_fee : TransferFee → Option String
  pub read_fee : String → Option TransferFee
  pub write_transfer_id : TransferId → Option String
  pub write_unified_id : UnifiedTransferId → Option String
  pub write_pending : PendingTransaction → Option String
  pub read_pending : String → Option PendingTransaction
  -- `UTXOChainMsg::MaxGasFee` in the message of a transfer
  pub read_max_gas_fee : String → Option ℕ

pub record FeeBumping : Type 0 where
  pub min_pending_time_seconds : ℕ
  pub min_since_last_bump_seconds : ℕ
  pub min_fee_increase_percent : ℕ
  pub max_fee_in_wei : ℕ

pub record Evm : Type 0 where
  pub error_selectors_to_remove : List String
  pub fee_bumping : Option FeeBumping

-- The settings that the workers read, with the numbers of `rust_decimal`: `powu` panics when the
-- power overflows, which is `none` here, and a number is read as a `u64` if it is in range.
pub record Config : Type 1 where
  pub Decimal : Type 0
  pub powu : Decimal → ℕ → Option Decimal
  pub to_u64 : Decimal → Option ℕ
  pub sleep_time_after_events_process_secs : ℕ
  pub query_retry_attempts : ℕ
  pub fee_retry_base_secs : Decimal
  pub fee_retry_max_sleep_secs : ℕ
  pub keep_transfers_for_secs : ℕ
  pub api_url : Option String
  pub fee_discount : ℕ
  pub omni_bridge_id : AccountId
  pub sign_without_checking_fee : Option (List OmniAddress)
  pub evm : ChainKind → Option Evm
  pub solana_chain_id : ℕ

pub record Services : Type 1 where
  pub Net : Type 0
  pub Db : Type 0
  pub Value : Type 0
  pub omni_connector : Connector Net
  pub fast_connector : Connector Net
  pub redis : RedisServer Db
  pub json : Json Value
  pub codecs : Codecs
  pub config : Config
  -- `chrono::Utc::now`
  pub now : Ask Net Timestamp
  -- the attempts to read the nonce of the account on NEAR, and of the account on an EVM chain
  pub near_answers : Ask Net (ℕ → NearAnswer)
  pub evm_answers : ChainKind → Ask Net (ℕ → Option ℕ)
  -- `reqwest` to the fee API: sender, recipient, token
  pub fetch_fee : String → OmniAddress → OmniAddress → OmniAddress → Ask Net (Result TransferFee)
  -- the receipts of a transaction that failed, by the text of the error
  pub transaction_status : CryptoHash → AccountId → Ask Net (Option (Option (List (Option String))))
  -- `borsh::to_vec` of the arguments of the provers, and the hash of a fast transfer
  pub wormhole_args : ProofKind → String → Option Bytes
  pub evm_args : ProofKind → EvmProof → Option Bytes
  pub fast_transfer_id : FastTransfer → FastTransferId
  -- texts: of an address with its check sum, of hashes and keys, and of numbers
  pub print_address : H160 → String
  pub print_hash : Bytes → String
  pub print_key : Bytes → String
  pub print_nonce : ℕ → String
  pub print_utxo_id : UtxoId → String
  pub parse_key : String → Option Bytes
  pub parse_hash : String → Option CryptoHash
  pub contains : String → String → Bool
  pub print_sdk_error : SdkError → String
  -- the product and quotient of the `f64` of dollars
  pub discount_usd : ℕ → ℕ → ℕ
