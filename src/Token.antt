-- ===== src/Token.antt =====
-- The bridged token on NEAR: near/omni-token/src/lib.rs. The library near-contract-standards keeps
-- the balances: what it stores is one value of type `T`, and its methods are functions of it, which
-- may fail.
pub mod Calls
pub mod Control
pub mod Deployer
mod Witnesses
use text.Mathlib.Text.{starts_with}
use omni_bridge.Prelude.{
  ℕ, String, Bool, true, false, ◌&&◌, Option, none, some, if◌then◌else◌, unwrap_or,
}
use omni_bridge.Prelude.Equality.{◌==◌, string_eq}
use omni_bridge.Types.Codecs.{Bytes, AccountId}
use omni_bridge.Types.Messages.{BasicMetadata}
use omni_bridge.Exec.{Exec, pure, expect, require, gets, modify, on_option, ◌>>=◌, ◌>>◌}

pub record FungibleTokenMetadata : Type 0 where
  pub spec : String
  pub name : String
  pub symbol : String
  pub icon : Option String
  pub reference : Option String
  pub reference_hash : Option Bytes
  pub decimals : ℕ

-- What a method returns: nothing, an amount, a promise with an access key, the promise of a
-- transfer with a call, or an answer of the storage methods.
pub data Answer : Type 0 where
  nothing : Answer
  value : ℕ → Answer
  full_access_key : Bytes → Answer
  transfer_call : AccountId → ℕ → String → Answer
  storage : Option ℕ → Answer

-- `FungibleToken`. The methods of users read the predecessor, and get it as their first argument.
pub record FungibleToken (T : Type 0) : Type 0 where
  pub metadata_spec : String
  pub fresh : T
  pub internal_deposit : AccountId → ℕ → T → Option T
  pub internal_withdraw : AccountId → ℕ → T → Option T
  pub ft_transfer : AccountId → AccountId → ℕ → Option String → T → Option T
  pub ft_transfer_call :
      AccountId → AccountId → ℕ → Option String → String → T → Option (Answer × T)
  pub internal_ft_resolve_transfer : AccountId → AccountId → ℕ → T → Option (ℕ × T)
  pub storage_deposit : AccountId → Option AccountId → Option Bool → T → Option (Answer × T)
  pub storage_withdraw : AccountId → Option ℕ → T → Option (Answer × T)
  pub internal_storage_unregister : AccountId → Option Bool → T → Option (Answer × T)

-- The contract, with the relayer that is stored under its own key.
pub record OmniToken (T : Type 0) : Type 0 where
  pub controller : AccountId
  pub token : T
  pub metadata : Option FungibleTokenMetadata
  pub withdraw_relayer : Option AccountId

-- The receipt, with the parent of the contract's account.
pub record Receipt : Type 0 where
  pub predecessor : AccountId
  pub current : AccountId
  pub parent : Option AccountId

abbrev pub withdraw_memo_prefix : String
withdraw_memo_prefix = "WITHDRAW_TO:"

-- `if let Some(v) = o { field = v }`, and the same into an optional field.
abbrev pub replace : {A : Type 0} → Option A → A → A
replace none old = old
replace (some v) old = v

abbrev pub replace_some : {A : Type 0} → Option A → Option A → Option A
replace_some none old = old
replace_some (some v) old = some v

abbrev pub is_withdrawal : Option String → Bool
is_withdrawal none = false
is_withdrawal (some memo) = starts_with memo withdraw_memo_prefix

-- `ft_metadata`.
abbrev pub ft_metadata : String → Option FungibleTokenMetadata → FungibleTokenMetadata
ft_metadata metadata_spec found = unwrap_or found record {
  spec = metadata_spec;
  name = "";
  symbol = "";
  icon = none;
  reference = none;
  reference_hash = none;
  decimals = 0;
}

module _ {T : Type 0} (lib : FungibleToken T) (receipt : Receipt) where
  open lib use {
    metadata_spec, fresh, internal_deposit, internal_withdraw, internal_ft_resolve_transfer,
    internal_storage_unregister,
  }
  open receipt use {predecessor, current, parent}

  -- A method of the library, and one with an answer.
  unfoldable pub call : (T → Option T) → Exec (OmniToken T) Answer
  call method = do
    token ← gets (λ s. s.token)
    after ← expect (method token) "near-contract-standards"
    modify (λ s. record s { token = after })
    pure Answer.nothing

  unfoldable pub ask : {A : Type 0} → (T → Option (A × T)) → Exec (OmniToken T) A
  ask method = do
    token ← gets (λ s. s.token)
    (answer, after) ← expect (method token) "near-contract-standards"
    modify (λ s. record s { token = after })
    pure answer

  unfoldable pub new : AccountId → BasicMetadata → Option (OmniToken T)
  new controller m = elim parent [
    | none ↦ none
    | some deployer ↦
        if predecessor == deployer
        then some record {
          controller = controller;
          token = fresh;
          metadata = some record {
            spec = metadata_spec;
            name = m.name;
            symbol = m.symbol;
            icon = none;
            reference = none;
            reference_hash = none;
            decimals = m.decimals;
          };
          withdraw_relayer = none;
        }
        else none
  ]

  unfoldable pub assert_controller : Exec (OmniToken T) (Unit {0})
  assert_controller = do
    controller ← gets (λ s. s.controller)
    require (predecessor == controller) "ERR_MISSING_PERMISSION"

  unfoldable pub attach_full_access_key : Bytes → Exec (OmniToken T) Answer
  attach_full_access_key key = do assert_controller; pure (Answer.full_access_key key)

  unfoldable pub set_withdraw_relayer_address : AccountId → Exec (OmniToken T) Answer
  set_withdraw_relayer_address relayer = do
    assert_controller
    modify (λ s. record s { withdraw_relayer = some relayer })
    pure Answer.nothing

  unfoldable pub ft_transfer_call :
      AccountId → ℕ → Option String → String → Exec (OmniToken T) Answer
  ft_transfer_call receiver_id amount memo msg =
      ask (lib.ft_transfer_call predecessor receiver_id amount memo msg)

  unfoldable pub mint : AccountId → ℕ → Option String → Exec (OmniToken T) Answer
  mint account_id amount msg = do
    assert_controller
    on_option msg (call (internal_deposit account_id amount) >> pure (Answer.value amount)) (λ text.
        call (internal_deposit predecessor amount) >> ft_transfer_call account_id amount none text)

  unfoldable pub burn : ℕ → Exec (OmniToken T) Answer
  burn amount = do assert_controller; call (internal_withdraw predecessor amount)

  unfoldable pub set_metadata :
      Option String
      → Option String
      → Option String
      → Option Bytes
      → Option ℕ
      → Option String
      → Exec (OmniToken T) Answer
  set_metadata name symbol reference reference_hash decimals icon = do
    assert_controller
    found ← gets (λ s. s.metadata)
    let m = ft_metadata metadata_spec found
    modify (λ s. record s {
      metadata = some record {
        spec = m.spec;
        name = replace name m.name;
        symbol = replace symbol m.symbol;
        icon = replace_some icon m.icon;
        reference = replace_some reference m.reference;
        reference_hash = replace_some reference_hash m.reference_hash;
        decimals = replace decimals m.decimals;
      };
    })
    pure Answer.nothing

  -- A withdrawal of the legacy flow goes to the relayer, if there is one.
  unfoldable pub ft_transfer : AccountId → ℕ → Option String → Exec (OmniToken T) Answer
  ft_transfer receiver_id amount memo = do
    relayer ← gets (λ s. s.withdraw_relayer)
    let receiver =
        if receiver_id == current && is_withdrawal memo
        then unwrap_or relayer receiver_id
        else receiver_id
    call (lib.ft_transfer predecessor receiver amount memo)

  unfoldable pub ft_resolve_transfer : AccountId → AccountId → ℕ → Exec (OmniToken T) Answer
  ft_resolve_transfer sender_id receiver_id amount = do
    require (predecessor == current) "Method is private"
    used ← ask (internal_ft_resolve_transfer sender_id receiver_id amount)
    pure (Answer.value used)

  unfoldable pub storage_deposit : Option AccountId → Option Bool → Exec (OmniToken T) Answer
  storage_deposit account_id registration_only =
      ask (lib.storage_deposit predecessor account_id registration_only)

  unfoldable pub storage_withdraw : Option ℕ → Exec (OmniToken T) Answer
  storage_withdraw amount = ask (lib.storage_withdraw predecessor amount)

  unfoldable pub storage_unregister : Option Bool → Exec (OmniToken T) Answer
  storage_unregister force = ask (internal_storage_unregister predecessor force)
