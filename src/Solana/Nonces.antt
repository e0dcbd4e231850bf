-- ===== src/Solana/Nonces.antt =====
-- The nonces that the Solana program has used, in bitmaps of 1024, and the lamports kept aside for
-- the rent of the next bitmap: state/used_nonces.rs.
pub mod Set
use omni_bridge.Prelude.{
  ℕ, Bool, true, false, not, Option, none, some, ◌+◌, ◌-◌, ◌*◌, ◌/◌, ◌%◌, ltb, if◌then◌else◌,
  unwrap_or,
}
use omni_bridge.Prelude.Equality.{nat_eq}
use omni_bridge.Prelude.Maps.{LookupMap, LookupSet, insert, add}
use omni_bridge.Prelude.Words.{u64_max, checked_mul, checked_add}
use omni_bridge.Exec.{Exec, pure, expect, require, gets, modify, skip, on_option, ◌>>=◌, ◌>>◌}
use omni_bridge.Solana.State.{
  Pubkey, Config, Runtime, Program, invoke, pay, pay_positive, used_nonces_per_account,
  used_nonces_account_size,
}

module _ {L : Type 0} where
  -- The bitmap of an account, which `load_init` finds zeroed.
  unfoldable pub load : ℕ → Exec (Program L) (LookupSet ℕ)
  load account = do found ← gets (λ s. s.used_nonces account); pure (unwrap_or found (λ _. false))

  -- `nonce_slot.replace(true)`, in the bitmap of the nonce.
  unfoldable pub replace_slot : ℕ → Exec (Program L) Bool
  replace_slot nonce = do
    used ← load (nonce / used_nonces_per_account)
    modify (λ s. record s {
      used_nonces =
          insert (nonce / used_nonces_per_account) (add (nonce % used_nonces_per_account) used)
            s.used_nonces;
    })
    pure (used (nonce % used_nonces_per_account))

-- `config.max_used_nonce` after its update.
unfoldable pub raise_nonce : ℕ → Config → Config
raise_nonce nonce c = if ltb c.max_used_nonce nonce then record c { max_used_nonce = nonce } else c

module _ {L : Type 0} (rt : Runtime L) where
  open rt use {minimum_balance, authority, lamports, create_used_nonces}

  unfoldable pub full_rent : ℕ
  full_rent = minimum_balance used_nonces_account_size

  unfoldable pub rent_level : ℕ → Option ℕ
  rent_level nonce = elim (checked_mul u64_max (nonce % used_nonces_per_account + 1) full_rent) [
    | none ↦ none
    | some share ↦ some (share / used_nonces_per_account)
  ]

  -- What the authority should hold once `nonce` is the last one.
  unfoldable pub expected_reserve : ℕ → Option ℕ
  expected_reserve nonce = elim (rent_level nonce) [
    | none ↦ none
    | some level ↦ checked_add u64_max (minimum_balance 0) level
  ]

  -- The payer fills the reserve up, or gets back what it has too much.
  unfoldable pub settle_reserve : ℕ → Pubkey → Exec (Program L) (Unit {0})
  settle_reserve expected payer = do
    current ← gets (λ s. lamports s.ledger authority)
    if ltb current expected
        then pay rt payer authority (expected - current)
        else pay_positive rt authority payer (current - expected)

  -- The constraint `init_if_needed` of the account `used_nonces`.
  unfoldable pub open_used_nonces : ℕ → Pubkey → Exec (Program L) (Unit {0})
  open_used_nonces nonce payer = do
    found ← gets (λ s. s.used_nonces (nonce / used_nonces_per_account))
    on_option found
        (invoke "init"
          (create_used_nonces (nonce / used_nonces_per_account) used_nonces_account_size payer))
        (λ _. skip)

  -- The configuration is changed in place; the caller has it written back, or not.
  unfoldable pub use_nonce : ℕ → Pubkey → Config → Exec (Program L) Config
  use_nonce nonce payer config = do
    let raised = raise_nonce nonce config
    expected ← expect (expected_reserve raised.max_used_nonce) "attempt to add with overflow"
    settle_reserve expected payer
    was_used ← replace_slot nonce
    require (not was_used) "NonceAlreadyUsed"
    pure raised
