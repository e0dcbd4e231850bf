-- ===== src/Relayer/Workers/Storage.antt =====
-- The token and the storage deposits of a finalisation on NEAR: omni-relayer/src/utils/storage.rs,
-- and the arguments of a prover in utils/evm.rs.
use omni_bridge.Prelude.{ℕ, String, Option, none, some, List, [], ◌∷◌, ◌++◌, ltb, if◌then◌else◌}
use omni_bridge.Prelude.Result.{Result, ok, ok_or, ◌>>=◌ as ◌>>?◌}
use omni_bridge.Types.Chain.{ChainKind}
use omni_bridge.Types.Codecs.{Bytes, AccountId}
use omni_bridge.Types.Address.{OmniAddress, new_from_evm_address, new_from_slice}
use omni_bridge.Types.Messages.{StorageDepositAction}
use omni_bridge.Types.Parse.{parse_h160}
use omni_bridge.Provers.Evm.{ProofKind, EvmProof}
use omni_bridge.Relayer.Services.{Services, Connector, SdkResult}
use omni_bridge.Relayer.Task.{Job, pure, lift, ask, bail, ◌>>=◌}

module _ (services : Services) where
  open services use {Net, codecs}

  unfoldable pub string_to_evm_omniaddress : ChainKind → String → Result OmniAddress
  string_to_evm_omniaddress chain_kind address =
      parse_h160 codecs address >>? λ a. new_from_evm_address chain_kind a

  token_address : ChainKind → String → Result OmniAddress
  token_address ChainKind.near text =
      ok_or (codecs.parse_account_id text) "Failed to parse token address as AccountId" >>? λ a.
      ok (OmniAddress.near a)
  token_address ChainKind.sol text =
      ok_or (services.parse_key text) "Failed to parse token address as Pubkey" >>? λ key.
      new_from_slice codecs ChainKind.sol key
  token_address ChainKind.btc text = ok (OmniAddress.btc text)
  token_address ChainKind.zcash text = ok (OmniAddress.zcash text)
  token_address chain_kind text = string_to_evm_omniaddress chain_kind text

  -- `map_err(..)?` of a client.
  abbrev or_error : {A : Type 0} → SdkResult A → String → Job services A
  or_error (SdkResult.ok a) e = pure a
  or_error (SdkResult.err _) e = bail e

  unfoldable pub get_token_id : Connector Net → ChainKind → String → Job services AccountId
  unfolding token_address
  get_token_id connector chain_kind text = do
    address ← lift (token_address chain_kind text)
    found ← ask services (connector.near_get_token_id address)
    or_error found "Failed to get token id by omni token address"

  -- The action that is added to the list.
  storage_deposit_action : Connector Net → AccountId → AccountId → Job services StorageDepositAction
  storage_deposit_action connector token_id account_id = do
    found ← ask services (connector.near_get_required_storage_deposit token_id account_id)
    amount ← or_error found "Failed to get required storage deposit"
    pure (record {
      token_id = token_id;
      account_id = account_id;
      storage_deposit_amount = if ltb 0 amount then some amount else none;
    })

  -- The actions for the recipient, the fee and the native fee.
  recipient_actions :
      Connector Net → ChainKind → OmniAddress → String → Job services (List StorageDepositAction)
  recipient_actions connector chain_kind (OmniAddress.near recipient) token = do
    token_id ← get_token_id connector chain_kind token
    action ← storage_deposit_action connector token_id recipient
    pure (action ∷ [])
  recipient_actions connector chain_kind _ token = pure []

  fee_actions :
      Connector Net → ChainKind → AccountId → String → ℕ → Job services (List StorageDepositAction)
  fee_actions connector chain_kind fee_recipient token fee =
      if ltb 0 fee
      then (do
        token_id ← get_token_id connector chain_kind token
        action ← storage_deposit_action connector token_id fee_recipient
        pure (action ∷ []))
      else pure []

  native_fee_actions :
      Connector Net → ChainKind → AccountId → ℕ → Job services (List StorageDepositAction)
  native_fee_actions connector chain_kind fee_recipient native_fee =
      if ltb 0 native_fee
      then (do
        found ← ask services (connector.near_get_native_token_id chain_kind)
        token_id ← or_error found "Failed to get native token id by chain kind"
        action ← storage_deposit_action connector token_id fee_recipient
        pure (action ∷ []))
      else pure []

  unfoldable pub get_storage_deposit_actions :
      Connector Net
      → ChainKind
      → OmniAddress
      → AccountId
      → String
      → ℕ
      → ℕ
      → Job services (List StorageDepositAction)
  unfolding recipient_actions fee_actions native_fee_actions storage_deposit_action
  get_storage_deposit_actions connector chain_kind recipient fee_recipient token fee native_fee = do
    for_recipient ← recipient_actions connector chain_kind recipient token
    for_fee ← fee_actions connector chain_kind fee_recipient token fee
    for_native_fee ← native_fee_actions connector chain_kind fee_recipient native_fee
    pure (for_recipient ++ (for_fee ++ for_native_fee))

  evm_prover_args : ProofKind → SdkResult EvmProof → Option Bytes
  evm_prover_args kind (SdkResult.ok proof) = services.evm_args kind proof
  evm_prover_args kind (SdkResult.err _) = none

  unfoldable pub construct_prover_args :
      Option String → Bytes → ProofKind → Job services (Option Bytes)
  unfolding evm_prover_args
  construct_prover_args (some vaa) tx_hash kind = pure (services.wormhole_args kind vaa)
  construct_prover_args none tx_hash kind = do
    found ← ask services (services.omni_connector.get_proof_for_event tx_hash kind ChainKind.eth)
    pure (evm_prover_args kind found)
