-- ===== src/Bridge/Init/Resume.antt =====
-- A transfer that is resumed when its message account is paid for, and the balance that it leaves:
-- `init_transfer_resume` of near/omni-bridge/src/lib.rs, and `storage_withdraw` of storage.rs.
use omni_bridge.Prelude.{
  ℕ, inl, inr, Option-cases, Option, ◌+◌, ◌-◌, ◌≤◌, ◌<◌, ◌≡◌, ◌≢◌, refl, sym, ap, ◌∙◌, none, some,
  arith,
}
use omni_bridge.Prelude.Equality.{string_eq}
use omni_bridge.Prelude.Maps.{LookupMap, insert_ne}
use omni_bridge.Prelude.Words.{saturating_add, u128_max, checked_sub}
use omni_bridge.Prelude.Result.{Result, ok, err}
use omni_bridge.Types.Codecs.{AccountId}
use omni_bridge.Types.Address.{OmniAddress}
use omni_bridge.Types.Transfer.{TransferMessage}
use omni_bridge.Host.{Env, StorageBalance}
use omni_bridge.Exec.{◌>>=◌}
use omni_bridge.Exec.Triples.{bind-ok, require-ok}
use omni_bridge.Bridge.State.{State, update, view}
use omni_bridge.Bridge.Guards.{is_private, deny_deposit}
use omni_bridge.Bridge.Runs.{ok-pair, pure-ok}
use omni_bridge.Bridge.Balances.{
  try_to_transfer_balance_from_message_account, set_balance, credit, storage_withdraw,
  storage_balance_of, required_balance_for_init_transfer,
}
use omni_bridge.Bridge.Balances.MessageAccounts.{pay_from-ok}
use omni_bridge.Bridge.Records.{remove_promise}
use omni_bridge.Bridge.Init.{init_transfer_resume, init_transfer_internal, resume_paid}
use omni_bridge.Bridge.Init.Outcome.{full_cost, Outcome, init_transfer_internal-Outcome}

more_than_total :
    (total available more cost : ℕ)
    → available + more ≤ u128_max
    → total + cost < available + more
    → checked_sub total (saturating_add available more - cost) ≡ none
more_than_total total available more cost fits exceeds = ground arith

withdraw_too_much :
    (env : Env) (t : State) (owner : AccountId) (b : StorageBalance)
    → env.predecessor ≡ owner
    → env.attached_deposit ≡ 1
    → t.accounts_balances owner ≡ some b
    → checked_sub b.total b.available ≡ none
    → storage_withdraw env none t ≡ err "The amount is greater than the total storage balance"
unfolding storage_withdraw storage_balance_of ◌>>=◌ view
withdraw_too_much env t owner b caller yocto found exceeds =
    rw caller (rw yocto (rw found (rw exceeds refl)))

taken :
    (m : TransferMessage) (owner : AccountId) (required : ℕ)
    {before after : LookupMap AccountId StorageBalance} {b : StorageBalance}
    → 0 < m.amount
    → before owner ≡ some b
    → Outcome m owner required 0 before after
    → after owner ≡ some (record b { available = b.available - required })
taken m owner required some_amount found (Outcome.paid b' _ found' _ left) =
    left ∙ ap charge (same found' found)
  where
    charge : StorageBalance → Option StorageBalance
    charge b = some (record b { available = b.available - required })

    same : {o : Option StorageBalance} {x y : StorageBalance} → o ≡ some x → o ≡ some y → x ≡ y
    same h k = cc
taken m owner required some_amount found (Outcome.refunded back _) = absurd (omega arith)

module _ (env : Env) where
  credit-others :
      (account a : AccountId) (n : ℕ) (s : State) {u : Unit {0}} {t : State}
      → account ≢ a
      → credit account n s ≡ ok (u, t)
      → t.accounts_balances a ≡ s.accounts_balances a
  unfolding credit set_balance ◌>>=◌ update view
  credit-others account a n s differs h = elim (Option-cases (s.accounts_balances account)) [
    | inl e ↦ ap (λ t. t.accounts_balances a) (sym (ok-pair (rw e at h)).1)
    | inr (b, e) ↦
        ap (λ t. t.accounts_balances a) (sym (ok-pair (rw e at h)).1)
        ∙ insert_ne account a _ s.accounts_balances differs
  ]

  -- The promise pays its storage back to the contract's own account.
  remove_promise-others :
      (account a : AccountId) (s : State) {u : Unit {0}} {t : State}
      → env.current ≢ a
      → remove_promise env account s ≡ ok (u, t)
      → t.accounts_balances a ≡ s.accounts_balances a
  unfolding remove_promise ◌>>=◌ update view
  remove_promise-others account a s differs h = credit-others env.current a _ _ differs h

  -- The resumed call up to the payment.
  resumed :
      (m : TransferMessage) (account owner : AccountId) (s : State) {r : ℕ} {t : State}
      → env.current ≢ account
      → env.current ≢ owner
      → init_transfer_resume env m account owner s ≡ ok (r, t)
      → (s' : State) × (s'.accounts_balances account ≡ s.accounts_balances account)
        × (s'.accounts_balances owner ≡ s.accounts_balances owner)
        × (paid : Result (Unit {0})) × (s2 : State) × (try_to_transfer_balance_from_message_account
              account m.fee.native_fee owner
              (required_balance_for_init_transfer env (some m.msg))
              s'
            ≡ ok (paid, s2))
        × (resume_paid env m owner paid s2 ≡ ok (r, t))
  unfolding init_transfer_resume is_private deny_deposit
  resumed m account owner s not_account not_owner h =
      let (_, s1, e1, h1) = bind-ok (is_private env) _ s h in
      let (_, s2, e2, h2) = bind-ok (deny_deposit env) _ s1 h1 in
      let (_, s3, e3, h3) = bind-ok (remove_promise env account) _ s2 h2 in
      let (paid, s4, e4, h4) =
        bind-ok
          (try_to_transfer_balance_from_message_account account m.fee.native_fee owner
            (required_balance_for_init_transfer env (some m.msg)))
          (resume_paid env m owner) s3 h3 in
      let same : s2 ≡ s = (require-ok _ _ s1 e2).1 ∙ (require-ok _ _ s e1).1 in
      (
        s3,
        remove_promise-others account account s2 not_account e3
            ∙ ap (λ s. s.accounts_balances account) same,
        remove_promise-others account owner s2 not_owner e3
            ∙ ap (λ s. s.accounts_balances owner) same,
        paid,
        s4,
        e4,
        h4,
      )

  -- The payment is not refused, since nothing goes back.
  paid_for :
      (m : TransferMessage) (owner : AccountId) (paid : Result (Unit {0})) (s : State) {t : State}
      → 0 < m.amount
      → resume_paid env m owner paid s ≡ ok (0, t)
      → (paid ≡ ok tt) × (init_transfer_internal env m owner s ≡ ok (0, t))
  unfolding resume_paid
  paid_for m owner (ok tt) s some_amount h = (refl, h)
  paid_for m owner (err e) s some_amount h = let back = (pure-ok h).0 in absurd (omega arith)

  charged :
      (m : TransferMessage) (owner token : AccountId) (s : State) {b : StorageBalance} {t : State}
      → 0 < m.amount
      → m.token ≡ OmniAddress.near token
      → 0 < full_cost env m owner
      → s.accounts_balances owner ≡ some b
      → init_transfer_internal env m owner s ≡ ok (0, t)
      → t.accounts_balances owner
        ≡ some (record b { available = b.available - full_cost env m owner })
  charged m owner token s some_amount near pos found h =
      taken m owner (full_cost env m owner) some_amount found
        (init_transfer_internal-Outcome env m owner token s near pos h).2

  -- A transfer of a NEAR token, of some amount and at some cost, is resumed, and nothing of it goes
  -- back: it is paid for from its message account, whose total goes to what is available to the
  -- owner and not to the total of the owner. When the total of the owner with the cost of the
  -- transfer is less than what was available with that of the message account, a later withdrawal
  -- by the owner of all that is available, with the balances as the call leaves them, panics; the
  -- sum fits a u128, and the two and the contract are different accounts. The owner's balance
  -- before the call is `p`, that of the message account `b`.
  pub storage_withdraw-init_transfer_resume :
      (m : TransferMessage) (account owner token : AccountId) (s : State) {b p : StorageBalance}
      {t : State}
      → account ≢ owner
      → env.current ≢ account
      → env.current ≢ owner
      → m.token ≡ OmniAddress.near token
      → 0 < m.amount
      → 0 < full_cost env m owner
      → s.accounts_balances account ≡ some b
      → s.accounts_balances owner ≡ some p
      → p.available + b.total ≤ u128_max
      → p.total + full_cost env m owner < p.available + b.total
      → init_transfer_resume env m account owner s ≡ ok (0, t)
      → (later : Env) → later.predecessor ≡ owner
      → later.attached_deposit ≡ 1
      → storage_withdraw later none t ≡ err "The amount is greater than the total storage balance"
  storage_withdraw-init_transfer_resume m account owner token s {b} {p} differ not_account not_owner
        near some_amount pos message paying fits exceeds h later caller yocto =
      let (s1, same, same_owner, paid, s2, transferred, rest) =
        resumed m account owner s not_account not_owner h in
      let (is_paid, stored) = paid_for m owner paid s2 some_amount rest in
      let (raised, _) =
        pay_from-ok account owner m.fee.native_fee
          (required_balance_for_init_transfer env (some m.msg)) s1 (same ∙ message)
          (same_owner ∙ paying) differ (rw is_paid at transferred) in
      let left = charged m owner token s2 some_amount near pos raised stored in
      withdraw_too_much later _ owner _ caller yocto left
        (more_than_total p.total p.available b.total (full_cost env m owner) fits exceeds)
