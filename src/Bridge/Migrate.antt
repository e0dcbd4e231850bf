-- ===== src/Bridge/Migrate.antt =====
-- The migration of the stored contract: near/omni-bridge/src/migrate.rs.
use omni_bridge.Prelude.{ℕ, Option, none, some, false}
use omni_bridge.Prelude.Maps.{LookupMap, LookupSet}
use omni_bridge.Prelude.Equality.{◌==◌, string_eq}
use omni_bridge.Prelude.Result.{Result, ok, err}
use omni_bridge.Prelude.{if◌then◌else◌}
use omni_bridge.Types.Chain.{ChainKind}
use omni_bridge.Types.Codecs.{Bytes, AccountId}
use omni_bridge.Types.Address.{OmniAddress}
use omni_bridge.Types.Transfer.{TransferId, FastTransferId}
use omni_bridge.Types.Messages.{UtxoChainConfig}
use omni_bridge.Types.Stored.{TransferMessageStorage, FastTransferStatusStorage, Decimals}
use omni_bridge.Host.{Env, StorageBalance}
use omni_bridge.Bridge.State.{Contract}

pub record OldState : Type 0 where
  pub factories : LookupMap ChainKind OmniAddress
  pub pending_transfers : LookupMap TransferId TransferMessageStorage
  pub finalised_transfers : LookupSet TransferId
  pub fast_transfers : LookupMap FastTransferId FastTransferStatusStorage
  pub token_id_to_address : LookupMap (ChainKind × AccountId) OmniAddress
  pub token_address_to_id : LookupMap OmniAddress AccountId
  pub token_decimals : LookupMap OmniAddress Decimals
  pub deployed_tokens : LookupSet AccountId
  pub token_deployer_accounts : LookupMap ChainKind AccountId
  pub mpc_signer : AccountId
  pub current_origin_nonce : ℕ
  pub destination_nonces : LookupMap ChainKind ℕ
  pub accounts_balances : LookupMap AccountId StorageBalance
  pub wnear_account_id : AccountId
  pub provers : LookupMap ChainKind AccountId
  pub init_transfer_promises : LookupMap AccountId Bytes
  pub utxo_chain_connectors : LookupMap ChainKind UtxoChainConfig

abbrev pub migrated : OldState → Contract
migrated old = record {
  factories = old.factories;
  pending_transfers = old.pending_transfers;
  finalised_transfers = old.finalised_transfers;
  finalised_utxo_transfers = λ _. false;
  fast_transfers = old.fast_transfers;
  token_id_to_address = old.token_id_to_address;
  token_address_to_id = old.token_address_to_id;
  token_decimals = old.token_decimals;
  deployed_tokens = old.deployed_tokens;
  token_deployer_accounts = old.token_deployer_accounts;
  mpc_signer = old.mpc_signer;
  current_origin_nonce = old.current_origin_nonce;
  destination_nonces = old.destination_nonces;
  accounts_balances = old.accounts_balances;
  wnear_account_id = old.wnear_account_id;
  provers = old.provers;
  init_transfer_promises = old.init_transfer_promises;
  utxo_chain_connectors = old.utxo_chain_connectors;
  migrated_tokens = λ _. none;
}

-- With what `env::state_read` finds.
unfoldable pub migrate : Env → Option OldState → Result Contract
migrate env found =
    if env.predecessor == env.current
    then (elim found [
      | none ↦ err "Old state not found. Migration is not needed."
      | some old ↦ ok (migrated old)
    ])
    else err "Method migrate is private"
