-- ===== src/Bridge/State.antt =====
-- `Contract` of near/omni-bridge/src/lib.rs, and what one call of it produces.
use omni_bridge.Prelude.{ℕ, none, List, [], ◌∷◌, ◌++◌, false}
use omni_bridge.Prelude.Maps.{LookupMap, LookupSet}
use omni_bridge.Types.Chain.{ChainKind}
use omni_bridge.Types.Codecs.{Bytes, AccountId}
use omni_bridge.Types.Address.{OmniAddress}
use omni_bridge.Types.Transfer.{TransferId, UnifiedTransferId, FastTransferId}
use omni_bridge.Types.Messages.{UtxoChainConfig, OmniBridgeEvent}
use omni_bridge.Types.Stored.{TransferMessageStorage, FastTransferStatusStorage, Decimals}
use omni_bridge.Host.{StorageBalance, Promise}
use omni_bridge.Exec.{Exec, gets, modify}

pub record Contract : Type 0 where
  pub factories : LookupMap ChainKind OmniAddress
  pub pending_transfers : LookupMap TransferId TransferMessageStorage
  pub finalised_transfers : LookupSet TransferId
  pub finalised_utxo_transfers : LookupSet UnifiedTransferId
  pub fast_transfers : LookupMap FastTransferId FastTransferStatusStorage
  pub token_id_to_address : LookupMap (ChainKind × AccountId) OmniAddress
  pub token_address_to_id : LookupMap OmniAddress AccountId
  pub token_decimals : LookupMap OmniAddress Decimals
  pub deployed_tokens : LookupSet AccountId
  pub token_deployer_accounts : LookupMap ChainKind AccountId
  pub mpc_signer : AccountId
  pub current_origin_nonce : ℕ
  pub destination_nonces : LookupMap ChainKind ℕ
  pub accounts_balances : LookupMap AccountId StorageBalance
  pub wnear_account_id : AccountId
  pub provers : LookupMap ChainKind AccountId
  pub init_transfer_promises : LookupMap AccountId Bytes
  pub utxo_chain_connectors : LookupMap ChainKind UtxoChainConfig
  pub migrated_tokens : LookupMap AccountId AccountId

-- The contract during a call, with the promises detached and the events logged so far.
pub record State : Type 0 where
  pub contract : Contract
  pub open contract use *
  pub detached : List Promise
  pub events : List OmniBridgeEvent

abbrev pub Action : Type 0 → Type 0
Action A = Exec State A

-- The state in which a call begins.
abbrev pub start : Contract → State
start c = record { contract = c; detached = []; events = [] }

unfoldable pub update : (Contract → Contract) → Action Unit
update f = modify (λ s. record s { contract = f s.contract })

unfoldable pub view : {A : Type 0} → (Contract → A) → Action A
view f = gets (λ s. f s.contract)

-- `promise.detach()`.
unfoldable pub detach : Promise → Action Unit
detach p = modify (λ s. record s { detached = s.detached ++ p ∷ [] })

-- `env::log_str(&event.to_log_string())`. Other log lines are not modelled.
unfoldable pub log_event : OmniBridgeEvent → Action Unit
log_event e = modify (λ s. record s { events = s.events ++ e ∷ [] })

-- `Contract::new`; the roles granted there belong to near-plugins.
unfoldable pub new : AccountId → AccountId → Contract
new mpc_signer wnear_account_id = record {
  factories = λ _. none;
  pending_transfers = λ _. none;
  finalised_transfers = λ _. false;
  finalised_utxo_transfers = λ _. false;
  fast_transfers = λ _. none;
  token_id_to_address = λ _. none;
  token_address_to_id = λ _. none;
  token_decimals = λ _. none;
  deployed_tokens = λ _. false;
  token_deployer_accounts = λ _. none;
  mpc_signer = mpc_signer;
  current_origin_nonce = 0;
  destination_nonces = λ _. none;
  accounts_balances = λ _. none;
  wnear_account_id = wnear_account_id;
  provers = λ _. none;
  init_transfer_promises = λ _. none;
  utxo_chain_connectors = λ _. none;
  migrated_tokens = λ _. none;
}
