-- ===== src/Bridge/Balances/MessageAccounts.antt =====
-- Paying for a transfer from the account that was opened for its message:
-- `try_to_transfer_balance_from_message_account` of near/omni-bridge/src/storage.rs.
use omni_bridge.Prelude.{ℕ, String, ◌≡◌, ◌≢◌, ◌∙◌, Bool-cases, inl, inr, none, some, ltb}
use omni_bridge.Prelude.Equality.{string_eq}
use omni_bridge.Prelude.Maps.{insert, insert_self, remove_self, remove_ne}
use omni_bridge.Prelude.Words.{saturating_add}
use omni_bridge.Prelude.Result.{Result, ok, err}
use omni_bridge.Types.Codecs.{AccountId}
use omni_bridge.Host.{StorageBalance}
use omni_bridge.Exec.{◌>>=◌}
use omni_bridge.Bridge.State.{State, update, view}
use omni_bridge.Bridge.Runs.{ok-pair}
use omni_bridge.Bridge.Balances.{
  try_to_transfer_balance_from_message_account, pay_from, set_balance,
}

module _ (account payer : AccountId) (native_fee required : ℕ) (s : State) {b p : StorageBalance}
    (message : s.accounts_balances account ≡ some b)
    (paying : s.accounts_balances payer ≡ some p) where
  -- The whole of the message account goes to what is available to the payer, whose total stays.
  pub pay_from-ok :
      {t : State}
      → account ≢ payer
      → try_to_transfer_balance_from_message_account account native_fee payer required s
        ≡ ok (ok tt, t)
      → (t.accounts_balances payer
          ≡ some (record { total = p.total; available = saturating_add p.available b.total }))
        × (t.accounts_balances account ≡ none)
  unfolding try_to_transfer_balance_from_message_account pay_from set_balance ◌>>=◌ update view
  pay_from-ok differ h =
      let h1 = rw message at h in
      let h2 = rw paying at h1 in
      elim (Bool-cases (ltb b.total native_fee)) [
        | inl low ↦ absurd (refused (ok-pair (rw low at h2)).0)
        | inr high ↦
            elim (Bool-cases
              (ltb (saturating_add p.available b.total) (saturating_add required native_fee))) [
                | inl short ↦ absurd (refused (ok-pair (rw short at (rw high at h2))).0)
                | inr enough ↦
                    let (_, state) = ok-pair (rw enough at (rw high at h2)) in
                    (
                      rw (← state) (
                          remove_ne account payer (insert payer raised s.accounts_balances) differ
                          ∙ insert_self payer raised s.accounts_balances),
                      rw (← state) (remove_self account (insert payer raised s.accounts_balances)),
                    )
              ]
      ]
    where
      raised : StorageBalance
      raised = record { total = p.total; available = saturating_add p.available b.total }

      refused : {x : Unit {0}} {e : String} → ◌≡◌ {A = Result (Unit {0})} (err e) (ok x) → ⊥
      refused h = cc
