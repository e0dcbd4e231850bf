-- ===== src/Bridge/Balances/Accounts.antt =====
-- Withdrawals from a storage balance: `storage_withdraw` of near/omni-bridge/src/storage.rs.
use omni_bridge.Prelude.{
  ℕ, ◌+◌, ◌≡◌, refl, sym, ap, ◌∙◌, Option, some, [], ◌∷◌, ◌++◌, arith, unwrap_or, nat_beq,
}
use omni_bridge.Prelude.Maps.{insert_self}
use omni_bridge.Prelude.Words.{checked_sub}
use omni_bridge.Prelude.Result.{ok}
use omni_bridge.Prelude.Equality.{string_eq}
use omni_bridge.Types.Codecs.{AccountId}
use omni_bridge.Host.{Env, StorageBalance, Promise}
use omni_bridge.Exec.{pure, ◌>>=◌}
use omni_bridge.Exec.Triples.{expect-ok, require-ok}
use omni_bridge.Bridge.State.{State, update, detach}
use omni_bridge.Bridge.Runs.{bind-read, view-ok, checked_sub-some, ok-pair}
use omni_bridge.Bridge.Balances.{storage_withdraw, storage_balance_of, set_balance}

pay-ok :
    (a : AccountId) (b : StorageBalance) (paid : ℕ) (s : State) {left : StorageBalance} {t : State}
    → (set_balance a b >>= λ _. detach (Promise.transfer a paid) >>= λ _. pure b) s ≡ ok (left, t)
    → (b ≡ left)
      × (t.accounts_balances a ≡ some b)
      × (t.detached ≡ s.detached ++ Promise.transfer a paid ∷ [])
unfolding set_balance ◌>>=◌ update detach
pay-ok a b paid s h =
    let (value, state) = ok-pair h in
    (value, rw (← state) (insert_self a b s.accounts_balances), rw (← state) refl)

-- A withdrawal pays out exactly what it takes off the total and off the available balance of the
-- caller; with no amount given, it pays all that is available.
pub storage_withdraw-ok :
    (env : Env) (amount : Option ℕ) (s : State) {left : StorageBalance} {t : State}
    → storage_withdraw env amount s ≡ ok (left, t)
    → (old : StorageBalance) × (paid : ℕ) × (s.accounts_balances env.predecessor ≡ some old)
      × (t.accounts_balances env.predecessor ≡ some left)
      × (paid ≡ unwrap_or amount old.available)
      × (left.total + paid ≡ old.total)
      × (left.available + paid ≡ old.available)
      × (t.detached ≡ s.detached ++ Promise.transfer env.predecessor paid ∷ [])
unfolding storage_withdraw storage_balance_of
storage_withdraw-ok env amount s {left} {t} h =
    let (_, _, h1) =
      bind-read (λ _. Unit) _ _ s
        (λ a t e. ((require-ok (nat_beq env.attached_deposit 1) _ s e).1, tt)) h in
    let (found, is_found, h2) =
      bind-read _ _ _ s (view-ok (λ c. c.accounts_balances env.predecessor) s) h1 in
    let (old, is_old, h3) =
      bind-read (λ a. found ≡ some a) _ _ s (λ a t e. swap (expect-ok found _ s e)) h2 in
    let paid = unwrap_or amount old.available in
    let (total, is_total, h4) =
      bind-read (λ a. checked_sub old.total paid ≡ some a) _ _ s
        (λ a t e. swap (expect-ok (checked_sub old.total paid) _ s e)) h3 in
    let (available, is_available, h5) =
      bind-read (λ a. checked_sub old.available paid ≡ some a) _ _ s
        (λ a t e. swap (expect-ok (checked_sub old.available paid) _ s e)) h4 in
    let (value, account, promises) = pay-ok env.predecessor _ paid s h5 in
    let (le1, eq1) = checked_sub-some old.total paid is_total in
    let (le2, eq2) = checked_sub-some old.available paid is_available in
    (
      old,
      paid,
      is_found ∙ is_old,
      account ∙ ap some value,
      refl,
      ap (λ b. b.total + paid) (sym value) ∙ omega (arith, le1, eq1),
      ap (λ b. b.available + paid) (sym value) ∙ omega (arith, le2, eq2),
      promises,
    )
  where
    swap : {P Q : Type 0} → P × Q → Q × P
    swap x = (x.1, x.0)
