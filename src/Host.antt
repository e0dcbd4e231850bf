-- ===== src/Host.antt =====
-- What a NEAR contract is given: the libraries and the host functions it calls (`Host`), the
-- receipt that it runs in (`Env`), and the promises that it may make.
use omni_bridge.Prelude.{ℕ, String, Bool, Option, List}
use omni_bridge.Types.Chain.{ChainKind}
use omni_bridge.Types.Codecs.{Bytes, AccountId, Codecs}
use omni_bridge.Types.Address.{OmniAddress}
use omni_bridge.Types.Transfer.{
  Fee, TransferId, UnifiedTransferId, TransferMessage, TransferMessageStorageAccount, UtxoId,
  FastTransfer, FastTransferId,
}
use omni_bridge.Types.Messages.{
  UtxoFinTransferMsg, BasicMetadata, StorageDepositAction, TransferMessagePayload, MetadataPayload,
  SignRequest, TokenReceiverMessage, TxOut, BridgeOnTransferMsg, InitTransferMsg, ProverResult,
}
use omni_bridge.Types.Stored.{TransferMessageStorage, FastTransferStatusStorage}

-- `enum Role` of near/omni-bridge/src/lib.rs.
pub data Role : Type 0 where
  dao pause_manager unrestricted_deposit upgradable_code_stager upgradable_code_deployer : Role
  metadata_manager unrestricted_relayer token_controller_updater native_fee_restricted : Role
  rbf_operator token_upgrader : Role

-- `StorageBalance` of near-contract-standards.
pub record StorageBalance : Type 0 where
  pub total : ℕ
  pub available : ℕ

-- Functions of other crates and of the NEAR runtime. The `_len` fields are lengths of Borsh
-- encodings, the `parse_` fields are readers of JSON and Borsh.
pub record Host : Type 0 where
  pub codecs : Codecs
  pub storage_byte_cost : ℕ
  -- the growth of `env::storage_usage()` when a record is written under a fresh key, from the
  -- lengths of the key (with its prefix) and of the value; its removal gives the same back
  pub record_bytes : ℕ → ℕ → ℕ
  pub account_id_len : AccountId → ℕ
  pub transfer_id_len : TransferId → ℕ
  pub unified_id_len : UnifiedTransferId → ℕ
  pub transfer_storage_len : TransferMessageStorage → ℕ
  pub storage_balance_len : StorageBalance → ℕ
  pub fast_id_len : FastTransferId → ℕ
  pub fast_status_len : FastTransferStatusStorage → ℕ
  pub utxo_key_len : ChainKind → UtxoId → ℕ
  pub chain_account_len : ChainKind → AccountId → ℕ
  pub address_len : OmniAddress → ℕ
  pub decimals_len : ℕ
  pub yield_id_len : ℕ
  pub fast_transfer_borsh : FastTransfer → Bytes
  pub storage_account_borsh : TransferMessageStorageAccount → Bytes
  pub transfer_payload_borsh : TransferMessagePayload → Bytes
  pub metadata_payload_borsh : MetadataPayload → Bytes
  pub parse_bridge_msg : String → Option BridgeOnTransferMsg
  pub parse_init_transfer_msg : String → Option InitTransferMsg
  pub parse_token_receiver_message : String → Option TokenReceiverMessage
  pub parse_max_gas_fee : String → Option ℕ
  pub parse_prover_result : Bytes → Option ProverResult
  pub parse_storage_balance : Bytes → Option (Option StorageBalance)
  pub parse_u128 : Bytes → Option ℕ
  pub parse_h160 : String → Option Bytes
  -- the order in which `HashMap<ChainKind, _>` is iterated; it is not documented
  pub hash_map_order : List ChainKind

pub data PromiseResult : Type 0 where
  successful : Bytes → PromiseResult
  failed : PromiseResult

-- The receipt: who calls, with what deposit, and the results that a callback reads. The roles and
-- the paused features belong to near-plugins.
pub record Env : Type 0 where
  pub host : Host
  pub open host use *
  pub predecessor : AccountId
  pub signer : AccountId
  pub current : AccountId
  pub attached_deposit : ℕ
  pub promise_results : List PromiseResult
  pub acl_has_role : Role → AccountId → Bool
  pub is_paused : String → Bool
  -- the id in the register after `promise_yield_create`, and whether a resumption is accepted
  pub yield_id : Bytes
  pub promise_yield_resume : Bytes → Bool

-- The calls that the contract makes: of tokens, connectors, provers, the signer and the token
-- deployer, then its own callbacks. Gas is not modelled.
pub data Call : Type 0 where
  ft_metadata : Call
  ft_transfer : AccountId → ℕ → Call
  ft_transfer_call : AccountId → ℕ → String → Call
  storage_deposit : AccountId → Call
  storage_balance_of : AccountId → Call
  mint : AccountId → ℕ → Option String → Call
  burn : ℕ → Call
  set_metadata :
      Option String → Option String → Option String → Option Bytes → Option ℕ → Option String → Call
  near_withdraw : ℕ → Call
  sign : SignRequest → Call
  verify_proof : Bytes → Call
  deploy_token : AccountId → BasicMetadata → Call
  set_controller_for_tokens : List AccountId → Call
  withdraw_rbf : String → List TxOut → Call
  log_metadata_callback : AccountId → Call
  sign_log_metadata_callback : MetadataPayload → Call
  sign_transfer_callback : TransferMessagePayload → Fee → Call
  fin_transfer_callback : List StorageDepositAction → AccountId → Call
  fin_transfer_send_tokens_callback : TransferMessage → AccountId → Bool → AccountId → Call
  fast_fin_transfer_to_near_callback : FastTransfer → AccountId → AccountId → Call
  resolve_fast_transfer : AccountId → FastTransferId → ℕ → Bool → Call
  utxo_fin_transfer_to_near_callback :
      AccountId → AccountId → ℕ → UtxoFinTransferMsg → ChainKind → AccountId → Call
  resolve_utxo_fin_transfer : AccountId → ℕ → UtxoFinTransferMsg → ChainKind → AccountId → Call
  near_withdraw_callback : AccountId → ℕ → Call
  claim_fee_callback : AccountId → Call
  deploy_token_callback : ℕ → Call
  bind_token_callback : ℕ → Call
  bind_token_refund : AccountId → Call
  submit_transfer_to_btc_connector_callback : TransferMessage → AccountId → AccountId → Call
  resume_promise : AccountId → Call

pub data Promise : Type 0 where
  -- a function call on an account, with an attached deposit
  call : AccountId → ℕ → Call → Promise
  transfer : AccountId → ℕ → Promise
  and : Promise → Promise → Promise
  then : Promise → Promise → Promise

-- `PromiseOrPromiseIndexOrValue` of helpers.rs, and near-sdk's `PromiseOrValue`. A yielded call
-- is shown by the arguments of its resumption, `init_transfer_resume`.
pub data Returned (A : Type 0) : Type 0 where
  promise : Promise → Returned A
  promise_index : TransferMessage → AccountId → AccountId → Returned A
  value : A → Returned A
