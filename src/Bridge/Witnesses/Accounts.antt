-- ===== src/Bridge/Witnesses/Accounts.antt =====
-- Amounts, nonces and balances on concrete data.
use omni_bridge.Prelude.{ℕ, ◌≡◌, ◌≢◌, ◌↔◌, refl, some, [], ◌∷◌, ◌++◌, ◌≤◌, ◌+◌, unwrap_or}
use omni_bridge.Prelude.Equality.{string_eq}
use omni_bridge.Prelude.Maps.{insert}
use omni_bridge.Prelude.Words.{u64_max}
use omni_bridge.Prelude.Result.{ok}
use omni_bridge.Types.Chain.{ChainKind, chain_eq, to_u8, try_from, try_from_iff}
use omni_bridge.Types.Address.{address_eq}
use omni_bridge.Types.Transfer.{transfer_id_eq}
use omni_bridge.Host.{StorageBalance, Promise}
use omni_bridge.Exec.{◌>>=◌}
use omni_bridge.Bridge.State.{State, new, update, view, detach}
use omni_bridge.Bridge.Decimals.{scale, normalize_amount, denormalize_amount}
use omni_bridge.Bridge.Decimals.Conversion.{normalize-denormalize}
use omni_bridge.Bridge.Balances.{storage_withdraw, storage_balance_of, set_balance}
use omni_bridge.Bridge.Balances.Accounts.{storage_withdraw-ok}
use omni_bridge.Bridge.Records.{get_next_destination_nonce, next_nonce}
use omni_bridge.Bridge.Records.Nonces.{get_next_destination_nonce-ok}
use omni_bridge.Bridge.Witnesses.Sample.{
  alice_env, token_decimals, empty, contract, state, eth_is_not_near,
}

denormalize_run : denormalize_amount 123 token_decimals state ≡ ok (12_300, state)
unfolding denormalize_amount scale ◌>>=◌
denormalize_run = refl

normalize-denormalize_example : normalize_amount 12_300 token_decimals state ≡ ok (123, state)
normalize-denormalize_example = normalize-denormalize 123 token_decimals state denormalize_run

abbrev next_state : State
next_state = record state {
  contract = record contract {
    destination_nonces = insert ChainKind.eth 1 empty.destination_nonces;
  };
}

nonce_run : get_next_destination_nonce ChainKind.eth state ≡ ok (1, next_state)
unfolding get_next_destination_nonce next_nonce ◌>>=◌ view update new
nonce_run = refl

get_next_destination_nonce-ok_example :
    (1 ≡ unwrap_or (state.destination_nonces ChainKind.eth) 0 + 1)
    × (1 ≤ u64_max)
    × (next_state.destination_nonces ChainKind.eth ≡ some 1)
    × ((other : ChainKind)
        → other ≢ ChainKind.eth
        → next_state.destination_nonces other ≡ state.destination_nonces other)
get_next_destination_nonce-ok_example =
    get_next_destination_nonce-ok ChainKind.eth state eth_is_not_near nonce_run

abbrev withdrawn_balance : StorageBalance
withdrawn_balance = record { total = 1_400; available = 400 }

abbrev withdrawn_state : State
withdrawn_state = record state {
  contract = record contract {
    accounts_balances = insert "alice" withdrawn_balance contract.accounts_balances;
  };
  detached = Promise.transfer "alice" 600 ∷ [];
}

withdraw_run : storage_withdraw alice_env (some 600) state ≡ ok (withdrawn_balance, withdrawn_state)
unfolding storage_withdraw storage_balance_of set_balance ◌>>=◌ view update detach
withdraw_run = refl

storage_withdraw-ok_example :
    (old : StorageBalance) × (paid : ℕ) × (state.accounts_balances "alice" ≡ some old)
    × (withdrawn_state.accounts_balances "alice" ≡ some withdrawn_balance)
    × (paid ≡ unwrap_or (some 600) old.available)
    × (withdrawn_balance.total + paid ≡ old.total)
    × (withdrawn_balance.available + paid ≡ old.available)
    × (withdrawn_state.detached ≡ state.detached ++ Promise.transfer "alice" paid ∷ [])
storage_withdraw-ok_example = storage_withdraw-ok alice_env (some 600) state withdraw_run

try_from_iff_example : (try_from 7 ≡ ok ChainKind.zcash) ↔ (7 ≡ to_u8 ChainKind.zcash)
try_from_iff_example = try_from_iff 7 ChainKind.zcash
