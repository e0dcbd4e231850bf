-- ===== src/Bridge/Balances.antt =====
-- Storage balances and the cost of storage: near/omni-bridge/src/storage.rs, and the balance
-- functions of lib.rs.
pub mod Accounts
pub mod MessageAccounts
use omni_bridge.Prelude.{
  ℕ, ◌+◌, ◌*◌, ◌-◌, String, Bool, true, false, not, Option, none, some, leb, ltb, nat_beq,
  unwrap_or, if◌then◌else◌,
}
use omni_bridge.Prelude.Equality.{string_eq}
use omni_bridge.Prelude.Maps.{insert, remove}
use omni_bridge.Prelude.Words.{saturating_add, saturating_mul, saturating_sub, checked_sub}
use omni_bridge.Prelude.Result.{Result, ok, err}
use omni_bridge.Types.Chain.{ChainKind}
use omni_bridge.Types.Codecs.{AccountId}
use omni_bridge.Types.Address.{OmniAddress, zeros}
use omni_bridge.Types.Transfer.{
  Fee, TransferIdKind, UnifiedTransferId, UtxoId, TransferMessage, get_transfer_id,
}
use omni_bridge.Types.Stored.{TransferMessageStorage, FastTransferStatusStorage}
use omni_bridge.Host.{Env, StorageBalance, Promise, Call}
use omni_bridge.Exec.{pure, lift, expect, require, skip, on_option, ◌>>=◌, ◌>>◌}
use omni_bridge.Bridge.State.{Action, update, view, detach}
use omni_bridge.Bridge.Guards.{deny_deposit, is_private}

abbrev pub nep141_deposit : ℕ
nep141_deposit = 1_250_000_000_000_000_000_000

abbrev pub max_account_id : AccountId
max_account_id = "aaaaaaaaaaaaaaaaaaaaaaaaaaaaaaaaaaaaaaaaaaaaaaaaaaaaaaaaaaaaaaaa"

abbrev pub get_basic_storage : ℕ
get_basic_storage = 40 + 1

unfoldable pub set_balance : AccountId → StorageBalance → Action Unit
set_balance a b = update (λ c. record c { accounts_balances = insert a b c.accounts_balances })

unfoldable pub storage_balance_of : AccountId → Action (Option StorageBalance)
storage_balance_of a = view (λ c. c.accounts_balances a)

-- `storage.available = storage.available.saturating_add(refund)`, if the account is registered.
unfoldable pub credit : AccountId → ℕ → Action Unit
credit a refund = do
  balance ← view (λ c. c.accounts_balances a)
  on_option balance skip
      λ b. set_balance a (record b { available = saturating_add b.available refund })

-- `Self::refund`.
unfoldable pub refund : AccountId → ℕ → Action Unit
refund a amount = if nat_beq amount 0 then skip else detach (Promise.transfer a amount)

-- The `Err` branches write nothing.
unfoldable pub try_update_storage_balance : AccountId → ℕ → ℕ → Action (Result Unit)
try_update_storage_balance a required_balance attached_deposit =
    if leb required_balance attached_deposit
    then refund a (saturating_sub attached_deposit required_balance) >> pure (ok tt)
    else do
      let required = saturating_sub required_balance attached_deposit
      balance ← view (λ c. c.accounts_balances a)
      on_option balance (pure (err "Account is not registered")) λ b.
          if leb required b.available
          then set_balance a (record b { available = saturating_sub b.available required })
            >> pure (ok tt)
          else pure (err "Not enough storage deposited")

unfoldable pub update_storage_balance : AccountId → ℕ → ℕ → Action Unit
update_storage_balance a required_balance attached_deposit = do
  result ← try_update_storage_balance a required_balance attached_deposit
  lift result

unfoldable pub has_storage_balance : AccountId → ℕ → Action Bool
has_storage_balance a amount = do
  balance ← view (λ c. c.accounts_balances a)
  pure (elim balance [ none ↦ false | some b ↦ leb amount b.available ])

-- `payer`, when its balance covers the storage and the fee once the message account is added.
unfoldable pub pay_from :
    AccountId → StorageBalance → AccountId → StorageBalance → ℕ → Action (Result Unit)
pay_from account balance payer storage needed =
    let available = saturating_add storage.available balance.total in
    if ltb available needed then pure (err "ERR_SIGNER_NOT_ENOUGH_BALANCE") else do
      set_balance payer (record storage { available = available })
      update (λ c. record c { accounts_balances = remove account c.accounts_balances })
      pure (ok tt)

unfoldable pub try_to_transfer_balance_from_message_account :
    AccountId → ℕ → AccountId → ℕ → Action (Result Unit)
try_to_transfer_balance_from_message_account account native_fee payer required = do
  found ← view (λ c. c.accounts_balances account)
  paying ← view (λ c. c.accounts_balances payer)
  on_option found (pure (err "ERR_MESSAGE_ACCOUNT_NOT_REGISTERED")) λ balance.
      if ltb balance.total native_fee
      then pure (err "ERR_NOT_ENOUGH_BALANCE_FOR_FEE")
      else on_option paying (pure (err "ERR_SIGNER_NOT_REGISTERED"))
          λ storage. pay_from account balance payer storage (saturating_add required native_fee)

module _ (env : Env) where
  open env use {
    predecessor, attached_deposit, storage_byte_cost, account_id_len, transfer_id_len,
    transfer_storage_len, storage_balance_len, fast_id_len, fast_status_len, utxo_key_len,
    chain_account_len, address_len, promise_yield_resume, current,
  }

  unfoldable pub required_balance_for_account : ℕ
  required_balance_for_account = saturating_mul storage_byte_cost (
      get_basic_storage
      + account_id_len max_account_id
      + storage_balance_len (record { total = 0; available = 0 }))

  unfoldable pub required_balance_for_init_transfer_message : TransferMessage → ℕ
  required_balance_for_init_transfer_message m = saturating_mul storage_byte_cost (
      get_basic_storage
      + transfer_id_len (get_transfer_id m)
      + transfer_storage_len
          (TransferMessageStorage.v2 (record { message = m; owner = max_account_id })))

  abbrev pub max_utxo_id : UtxoId
  max_utxo_id = record { tx_hash = max_account_id; vout = 0 }

  unfoldable pub required_balance_for_init_transfer : Option String → ℕ
  required_balance_for_init_transfer msg = required_balance_for_init_transfer_message (record {
    origin_nonce = 0;
    token = OmniAddress.near max_account_id;
    amount = 0;
    recipient = OmniAddress.near max_account_id;
    fee = record { fee = 0; native_fee = 0 };
    sender = OmniAddress.near max_account_id;
    msg = unwrap_or msg "";
    destination_nonce = 0;
    origin_transfer_id =
        some (record { origin_chain = ChainKind.eth; kind = TransferIdKind.utxo max_utxo_id });
  })

  unfoldable pub required_balance_for_fin_transfer : ℕ
  required_balance_for_fin_transfer =
      saturating_add
        (saturating_mul storage_byte_cost
          (get_basic_storage + utxo_key_len ChainKind.eth max_utxo_id))
        2

  unfoldable pub required_balance_for_fast_transfer : ℕ
  required_balance_for_fast_transfer =
      saturating_add
        (saturating_mul storage_byte_cost (
          get_basic_storage
          + fast_id_len (zeros 32)
          + fast_status_len (
              FastTransferStatusStorage.v0 (record {
                finalised = false;
                relayer = max_account_id;
                storage_owner = max_account_id;
              }))))
        1

  unfoldable pub required_balance_for_bind_token : ℕ
  required_balance_for_bind_token = saturating_mul storage_byte_cost (
      3
      * (get_basic_storage
          + chain_account_len ChainKind.near max_account_id
          + address_len (OmniAddress.near max_account_id)))

  unfoldable pub required_balance_for_deploy_token : ℕ
  required_balance_for_deploy_token =
      saturating_add
        (saturating_add required_balance_for_bind_token
          (saturating_mul storage_byte_cost (get_basic_storage + account_id_len max_account_id)))
        nep141_deposit

  unfoldable pub deposited : ℕ → Option StorageBalance → Action StorageBalance
  deposited amount none = do
    available ←
        expect (checked_sub amount required_balance_for_account)
          "The attached deposit is less than the minimum storage balance"
    pure (record { total = amount; available = available })
  deposited amount (some b) = pure (record {
    total = saturating_add b.total amount;
    available = saturating_add b.available amount;
  })

  -- `resume_promise` as a step of `storage_deposit`: a refused resumption is tried again by a
  -- call of the contract to itself. An accepted one leads to the call `init_transfer_resume`.
  unfoldable pub resume_promise : AccountId → Action Unit
  resume_promise account = do
    promise_id ← view (λ c. c.init_transfer_promises account)
    on_option promise_id skip λ id.
        if promise_yield_resume id
        then skip
        else detach (Promise.call current 0 (Call.resume_promise account))

  unfoldable pub storage_deposit : Option AccountId → Action StorageBalance
  storage_deposit account_id = do
    let account = unwrap_or account_id predecessor
    old ← view (λ c. c.accounts_balances account)
    storage ← deposited attached_deposit old
    set_balance account storage
    resume_promise account
    pure storage

  abbrev assert_one_yocto : Action Unit
  assert_one_yocto =
      require (nat_beq attached_deposit 1) "Requires attached deposit of exactly 1 yoctoNEAR"

  unfoldable pub storage_withdraw : Option ℕ → Action StorageBalance
  storage_withdraw amount = do
    assert_one_yocto
    found ← storage_balance_of predecessor
    storage ← expect found "The account is not registered"
    let to_withdraw = unwrap_or amount storage.available
    total ←
        expect (checked_sub storage.total to_withdraw)
          "The amount is greater than the total storage balance"
    available ←
        expect (checked_sub storage.available to_withdraw)
          "The amount is greater than the available storage balance"
    let left : StorageBalance = record { total = total; available = available }
    set_balance predecessor left
    detach (Promise.transfer predecessor to_withdraw)
    pure left

  unfoldable pub close_account : StorageBalance → Bool → Action Bool
  close_account storage force = do
    require
        (if force
          then true
          else nat_beq (saturating_sub storage.total storage.available)
              required_balance_for_account)
        "This account owns some pending transfers, use `force=true` to ignore them."
    update (λ c. record c { accounts_balances = remove predecessor c.accounts_balances })
    detach (
        Promise.transfer predecessor
          (saturating_add required_balance_for_account storage.available))
    pure true

  unfoldable pub storage_unregister : Option Bool → Action Bool
  storage_unregister force = do
    assert_one_yocto
    found ← storage_balance_of predecessor
    on_option found (pure false) λ storage. close_account storage (unwrap_or force false)
