-- ===== src/Relayer/Nonces/Resync.antt =====
-- Which managers a resynchronisation reaches.
use omni_bridge.Prelude.{ℕ, ◌≡◌, refl, Option, none, some}
use omni_bridge.Prelude.Result.{ok}
use omni_bridge.Types.Chain.{ChainKind}
use omni_bridge.Relayer.Nonces.{EvmNonceManagers, resync_nonce, resync_nonces}

-- The local nonce after a chain's answer, where it has a manager.
abbrev pub synced : Option ℕ → ℕ → Option ℕ
synced none n = none
synced (some _) n = some n

resync_nonce-ok : (m : Option ℕ) (n : ℕ) → resync_nonce m (ok n) ≡ ok (synced m n)
unfolding resync_nonce
resync_nonce-ok none n = refl
resync_nonce-ok (some _) n = refl

-- When every chain answers, a resynchronisation succeeds and takes over the answers for Ethereum,
-- Base, Arbitrum and BNB; the manager of Polygon keeps the nonce that it had.
pub resync_nonces-all :
    (answer : ChainKind → ℕ) (m : EvmNonceManagers)
    → resync_nonces (λ c. ok (answer c)) m ≡ (
      record {
        eth = synced m.eth (answer ChainKind.eth);
        base = synced m.base (answer ChainKind.base);
        arb = synced m.arb (answer ChainKind.arb);
        bnb = synced m.bnb (answer ChainKind.bnb);
        pol = m.pol;
      },
      ok tt,
    )
unfolding resync_nonces
resync_nonces-all answer m =
    rw
      (
        resync_nonce-ok m.eth (answer ChainKind.eth),
        resync_nonce-ok m.base (answer ChainKind.base),
        resync_nonce-ok m.arb (answer ChainKind.arb),
        resync_nonce-ok m.bnb (answer ChainKind.bnb),
      )
      refl
