-- ===== src/Bridge/Records/Nonces.antt =====
-- The nonces of the destinations: `get_next_destination_nonce` of near/omni-bridge/src/lib.rs.
use omni_bridge.Prelude.{ℕ, ◌+◌, ◌≤◌, ◌≡◌, ◌≢◌, sym, inl, inr, Option-cases, some, arith, unwrap_or}
use omni_bridge.Prelude.Equality.{beq_ne}
use omni_bridge.Prelude.Maps.{insert, insert_self, insert_ne}
use omni_bridge.Prelude.Words.{u64_max}
use omni_bridge.Prelude.Result.{ok}
use omni_bridge.Types.Chain.{ChainKind, chain_eq}
use omni_bridge.Exec.{◌>>=◌}
use omni_bridge.Bridge.State.{State, update, view}
use omni_bridge.Bridge.Records.{next_nonce, get_next_destination_nonce}

next_nonce-ok :
    (chain : ChainKind) (s : State) {n : ℕ} {t : State}
    → next_nonce chain s ≡ ok (n, t)
    → (n ≡ unwrap_or (s.destination_nonces chain) 0 + 1)
      × (n ≤ u64_max)
      × (t.destination_nonces ≡ insert chain n s.destination_nonces)
unfolding next_nonce ◌>>=◌ view update
next_nonce-ok chain s h = elim (Option-cases (s.destination_nonces chain)) [
  | inl e ↦ let h1 = rw e at h in rw e (ground arith)
  | inr (n, e) ↦ let h1 = rw e at h in rw e (ground arith)
]

-- A new transfer to a chain other than NEAR gets the nonce after the last one of that chain, which
-- fits 64 bits, and the nonces of the other chains stay.
pub get_next_destination_nonce-ok :
    (chain : ChainKind) (s : State) {n : ℕ} {t : State}
    → chain ≢ ChainKind.near
    → get_next_destination_nonce chain s ≡ ok (n, t)
    → (n ≡ unwrap_or (s.destination_nonces chain) 0 + 1)
      × (n ≤ u64_max)
      × (t.destination_nonces chain ≡ some n)
      × ((other : ChainKind)
          → other ≢ chain
          → t.destination_nonces other ≡ s.destination_nonces other)
unfolding get_next_destination_nonce
get_next_destination_nonce-ok chain s {n} {t} far h =
    let (value, fits, nonces) = next_nonce-ok chain s (rw (beq_ne chain ChainKind.near far) at h) in
    (
      value,
      fits,
      rw nonces (insert_self chain n s.destination_nonces),
      (λ other ne. rw nonces (insert_ne chain other n s.destination_nonces (λ e. ne (sym e)))),
    )
