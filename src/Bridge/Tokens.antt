-- ===== src/Bridge/Tokens.antt =====
-- The registry of tokens and chains, and the promises that move tokens: near/omni-bridge/src/lib.rs
-- and the getters of btc.rs.
pub mod Registry
use omni_bridge.Prelude.{
  ℕ, ◌+◌, String, Bool, true, false, not, ◌&&◌, Option, none, some, List, [], ◌∷◌, is_none,
  get_elem?, nat_beq, if◌then◌else◌,
}
use omni_bridge.Prelude.Equality.{◌==◌, string_eq, pair_eq}
use omni_bridge.Prelude.Maps.{insert}
use omni_bridge.Prelude.Words.{saturating_mul, checked_sub}
use omni_bridge.Prelude.Result.{Result, ok, err}
use omni_bridge.Types.Chain.{ChainKind, chain_eq}
use omni_bridge.Types.Codecs.{Bytes, AccountId}
use omni_bridge.Types.Address.{OmniAddress, get_chain, new_zero, address_eq}
use omni_bridge.Types.Messages.{StorageDepositAction, ProverResult, UtxoChainConfig}
use omni_bridge.Types.Stored.{Decimals}
use omni_bridge.Host.{Env, Promise, Call, PromiseResult}
use omni_bridge.Exec.{pure, panic, expect, unwrap, require, skip, on_option, ◌>>=◌, ◌>>◌}
use omni_bridge.Bridge.State.{Contract, Action, update, view, detach}

abbrev pub one_yocto : ℕ
one_yocto = 1

abbrev pub get_token_address : Contract → ChainKind → AccountId → Option OmniAddress
get_token_address c chain token = c.token_id_to_address (chain, token)

unfoldable pub get_token_id : OmniAddress → Action AccountId
get_token_id (OmniAddress.near token) = pure token
get_token_id address = do
  found ← view (λ c. c.token_address_to_id address)
  expect found "ERR_TOKEN_NOT_REGISTERED"

unfoldable pub bridged_near : Contract → AccountId → ChainKind → Option OmniAddress
bridged_near c near_id ChainKind.near = some (OmniAddress.near near_id)
bridged_near c near_id chain = c.token_id_to_address (chain, near_id)

unfoldable pub bridged_foreign : Contract → Option AccountId → ChainKind → Option OmniAddress
bridged_foreign c none chain = none
bridged_foreign c (some near_id) chain = bridged_near c near_id chain

unfoldable pub get_bridged_token : Contract → OmniAddress → ChainKind → Option OmniAddress
get_bridged_token c (OmniAddress.near near_id) chain = bridged_near c near_id chain
get_bridged_token c address chain = bridged_foreign c (c.token_address_to_id address) chain

unfoldable pub get_decimals : OmniAddress → Action Decimals
get_decimals address = do
  found ← view (λ c. c.token_decimals address)
  expect found "ERR_TOKEN_DECIMALS_NOT_FOUND"

unfoldable pub get_utxo_chain_connector : ChainKind → Action AccountId
get_utxo_chain_connector chain = do
  found ← view (λ c. c.utxo_chain_connectors chain)
  config ← expect found "Connector has not been set up for this chain"
  pure config.connector

unfoldable pub get_utxo_chain_token : ChainKind → Action AccountId
get_utxo_chain_token chain = do
  found ← view (λ c. c.utxo_chain_connectors chain)
  config ← expect found "UTXO Token has not been set up for this chain"
  pure config.token_id

unfoldable pub has_token : Option UtxoChainConfig → AccountId → Bool
has_token none token = false
has_token (some config) token = config.token_id == token

-- The loop over the entries of the map, in the order of its iteration.
unfoldable pub find_chain : Contract → AccountId → List ChainKind → Option ChainKind
find_chain c token [] = none
find_chain c token (chain ∷ rest) =
    if has_token (c.utxo_chain_connectors chain) token then some chain else find_chain c token rest

-- `self.token_id_to_address.insert(...)`, which answers what was there.
unfoldable pub add_token : AccountId → OmniAddress → ℕ → ℕ → Action Unit
add_token token_id address decimals origin_decimals = do
  let key : ChainKind × AccountId = (get_chain address, token_id)
  old_address ← view (λ c. c.token_id_to_address key)
  require (is_none old_address) "ERR_TOKEN_EXIST"
  update (λ c. record c { token_id_to_address = insert key address c.token_id_to_address })
  old_id ← view (λ c. c.token_address_to_id address)
  require (is_none old_id) "ERR_TOKEN_EXIST"
  update (λ c. record c { token_address_to_id = insert address token_id c.token_address_to_id })
  old_decimals ← view (λ c. c.token_decimals address)
  require (is_none old_decimals) "ERR_TOKEN_EXIST"
  update (λ c. record c {
    token_decimals =
        insert address (record { decimals = decimals; origin_decimals = origin_decimals })
          c.token_decimals;
  })

module _ (env : Env) where
  open env use {
    current, codecs, promise_results, parse_prover_result, parse_storage_balance, parse_u128,
    record_bytes, chain_account_len, address_len, account_id_len, decimals_len, hash_map_order,
  }

  unfoldable pub get_native_token_id : ChainKind → Action AccountId
  get_native_token_id chain = do
    zero_address ← unwrap (new_zero codecs chain) "ERR_FAILED_TO_GET_ZERO_ADDRESS"
    get_token_id zero_address

  unfoldable pub get_utxo_chain_by_token : Contract → AccountId → Option ChainKind
  get_utxo_chain_by_token c token = find_chain c token hash_map_order

  -- The growth of the storage in `add_token`.
  unfoldable pub token_bytes : AccountId → OmniAddress → ℕ
  token_bytes token_id address =
      record_bytes (1 + chain_account_len (get_chain address) token_id) (address_len address)
      + record_bytes (1 + address_len address) (account_id_len token_id)
      + record_bytes (1 + address_len address) decimals_len

  -- `env::promise_result`.
  unfoldable pub promise_result : ℕ → Action PromiseResult
  promise_result i = expect (get_elem? promise_results i) "invalid promise index"

  unfoldable pub decoded : PromiseResult → Action (Option ProverResult)
  decoded (PromiseResult.successful bytes) = do
    result ← expect (parse_prover_result bytes) "Invalid proof"
    pure (some result)
  decoded PromiseResult.failed = pure none

  -- `none` is `Err(PromiseError::Failed)`.
  unfoldable pub decode_prover_result : ℕ → Action (Option ProverResult)
  decode_prover_result i = do result ← promise_result i; decoded result

  unfoldable pub balance_found : Option PromiseResult → Bool
  balance_found none = false
  balance_found (some PromiseResult.failed) = false
  balance_found (some (PromiseResult.successful bytes)) = elim (parse_storage_balance bytes) [
    | none ↦ false
    | some balance ↦ not (is_none balance)
  ]

  unfoldable pub check_storage_balance_result : ℕ → Bool
  check_storage_balance_result i = balance_found (get_elem? promise_results i)

  -- The amount that `ft_transfer_call` reports as used.
  unfoldable pub used_nothing : PromiseResult → Bool
  used_nothing (PromiseResult.successful bytes) = elim (parse_u128 bytes) [
    | none ↦ false
    | some used ↦ nat_beq used 0
  ]
  used_nothing PromiseResult.failed = false

  unfoldable pub refund_of_call : Action Bool
  refund_of_call = do result ← promise_result 0; pure (used_nothing result)

  unfoldable pub is_refund_required : Bool → Action Bool
  is_refund_required is_ft_transfer_call =
      if is_ft_transfer_call then refund_of_call else pure false

  unfoldable pub burn_tokens_if_needed : AccountId → ℕ → Action Unit
  burn_tokens_if_needed token amount = do
    deployed ← view (λ c. c.deployed_tokens token)
    if deployed then detach (Promise.call token 0 (Call.burn amount)) else skip

  unfoldable pub send_tokens : Contract → AccountId → AccountId → ℕ → String → Promise
  send_tokens c token recipient amount msg =
      if token == c.wnear_account_id && msg == ""
      then Promise.then (Promise.call c.wnear_account_id one_yocto (Call.near_withdraw amount))
          (Promise.call current 0 (Call.near_withdraw_callback recipient amount))
      else if c.deployed_tokens token
      then Promise.call token (if msg == "" then 0 else one_yocto)
          (Call.mint recipient amount (if msg == "" then none else some msg))
      else if msg == ""
      then Promise.call token one_yocto (Call.ft_transfer recipient amount)
      else Promise.call token one_yocto (Call.ft_transfer_call recipient amount msg)

  -- The promise, and what is left of the deposit.
  unfoldable pub check_or_pay_ft_storage : StorageDepositAction → ℕ → Action (Promise × ℕ)
  check_or_pay_ft_storage action deposit =
      on_option action.storage_deposit_amount
        (pure (Promise.call action.token_id 0 (Call.storage_balance_of action.account_id), deposit))
        λ amount.
          expect (checked_sub deposit amount) "The attached deposit is less than required"
          >>= λ left.
              pure
                (Promise.call action.token_id amount (Call.storage_deposit action.account_id), left)

  unfoldable pub verify_proof : ChainKind → Bytes → Action Promise
  verify_proof chain prover_args = do
    found ← view (λ c. c.provers chain)
    prover ← expect found "ERR_PROVER_FOR_CHAIN_KIND_NOT_REGISTERED"
    pure (Promise.call prover 0 (Call.verify_proof prover_args))
