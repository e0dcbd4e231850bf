-- ===== src/Relayer/Witnesses.antt =====
-- Concrete runs of the relayer.
use omni_bridge.Prelude.{ℕ, ◌≡◌, refl, zero, suc, Option, none, some, List, [], ◌∷◌, ◌<◌, arith}
use omni_bridge.Prelude.Result.{ok}
use omni_bridge.Types.Chain.{ChainKind}
use omni_bridge.Relayer.Nonces.{
  EvmNonceManagers, reserve_nonce, reserve_all, get_current_nonce_evm, resync_nonces,
}
use omni_bridge.Relayer.Nonces.Order.{Increases, reserve_all-Increases, get_current_nonce_evm-finds}
use omni_bridge.Relayer.Nonces.Resync.{resync_nonces-all}

-- The chain lags behind, and then another program has used the account.
abbrev answers : List ℕ
answers = 7 ∷ 7 ∷ 12 ∷ []

reserved : reserve_all answers 0 ≡ 7 ∷ 8 ∷ 12 ∷ []
unfolding reserve_all reserve_nonce
reserved = refl

reserve_all-Increases_example : Increases 0 answers (reserve_all answers 0)
reserve_all-Increases_example =
    reserve_all-Increases answers 0 (omega arith) (omega arith, (omega arith, (omega arith, tt)))

abbrev managers : EvmNonceManagers
managers = record { eth = some 3; base = none; arb = some 4; bnb = none; pol = some 9 }

abbrev chain_nonce : ChainKind → ℕ
chain_nonce c = 5

resync_nonces-all_example :
    resync_nonces (λ c. ok (chain_nonce c)) managers
    ≡ (record { eth = some 5; base = none; arb = some 5; bnb = none; pol = some 9 }, ok tt)
resync_nonces-all_example = resync_nonces-all chain_nonce managers

abbrev node : ℕ → Option ℕ
node zero = none
node (suc _) = some 21

silent : (j : ℕ) → j < 1 → node j ≡ none
silent zero h = refl
silent (suc j) h = absurd (omega arith)

get_current_nonce_evm-finds_example : get_current_nonce_evm node ≡ ok 21
get_current_nonce_evm-finds_example =
    get_current_nonce_evm-finds node 1 21 (omega arith) refl silent
