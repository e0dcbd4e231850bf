-- ===== src/Solana/Transfers/Payments.antt =====
-- What a transfer out of Solana takes from its sender, within 64 bits: init_transfer.rs and
-- init_transfer_sol.rs.
use omni_bridge.Prelude.{
  ℕ, String, true, ◌≡◌, ◌≤◌, ◌+◌, refl, sym, ap, ◌∙◌, Option, none, some, arith,
}
use omni_bridge.Prelude.Equality.{nat_eq, beq_true}
use omni_bridge.Prelude.Words.{u64_max, fit, checked_add}
use omni_bridge.Prelude.Result.{ok}
use omni_bridge.Exec.{expect, continue, ◌>>=◌}
use omni_bridge.Exec.Triples.{bind-ok, bind-same, expect-ok, require-ok}
use omni_bridge.Solana.State.{default_key, Config, Runtime, Program, invoke, load_config, pay}
use omni_bridge.Solana.Messages.{InitTransferPayload}
use omni_bridge.Solana.Transfers.{
  InitTransferSol, init_allowed, to_u64, post_init_transfer, init_transfer_sol,
}

fit-some : (bound n : ℕ) {m : ℕ} → fit bound n ≡ some m → (n ≤ bound) × (m ≡ n)
fit-some bound n h = ground arith

module _ {L : Type 0} where
  called-ok :
      (e : String) (s : Program L) (o : Option L) {u : Unit {0}} {t : Program L}
      → continue (expect o e s) (λ l s'. ok (tt {0}, record s' { ledger = l })) ≡ ok (u, t)
      → (l : L) × (o ≡ some l) × (t ≡ record s { ledger = l })
  unfolding ◌>>=◌
  called-ok e s none h = cc
  called-ok e s (some l) h = (l, refl, ground (arith, h))

  -- A call of another program that succeeds changes nothing but what the others store.
  invoke-ok :
      (e : String) (call : L → Option L) (s : Program L) {u : Unit {0}} {t : Program L}
      → invoke e call s ≡ ok (u, t)
      → (l : L) × (call s.ledger ≡ some l) × (t ≡ record s { ledger = l })
  unfolding ◌>>=◌ invoke
  invoke-ok e call s h = called-ok e s (call s.ledger) h

  load_config-ok :
      (s : Program L) {c : Config} {t : Program L}
      → load_config s ≡ ok (c, t)
      → (s.config ≡ some c) × (t ≡ s)
  unfolding load_config ◌>>=◌
  load_config-ok s h = expect-ok s.config "AccountNotInitialized" s h

module _ {L : Type 0} (rt : Runtime L) where
  -- A transfer of SOL that succeeds has no token fee, is sent while transfers out are allowed,
  -- takes the amount and the native fee together from the user, a sum of 64 bits, and then posts
  -- the message.
  pub init_transfer_sol-ok :
      (a : InitTransferSol) (p : InitTransferPayload) (s : Program L) {u : Unit {0}} {t : Program L}
      → init_transfer_sol rt a p s ≡ ok (u, t)
      → (c : Config) × (l : L) × (s.config ≡ some c)
        × (init_allowed c ≡ true)
        × (p.fee ≡ 0)
        × (p.native_fee + p.amount ≤ u64_max)
        × (rt.transfer a.user rt.sol_vault (p.native_fee + p.amount) s.ledger ≡ some l)
        × (post_init_transfer rt p a.user default_key a.payer (record s { ledger = l }) ≡ ok (u, t))
  unfolding init_transfer_sol to_u64 pay
  init_transfer_sol-ok a p s h =
      let (c, config, h1) = bind-same (λ c. s.config ≡ some c) _ _ s (λ _ _. load_config-ok s) h in
      let (_, allowed, h2) = bind-same (λ _. _ ≡ true) _ _ s (λ _ _. require-ok _ _ s) h1 in
      let (_, no_fee, h3) = bind-same (λ _. _ ≡ true) _ _ s (λ _ _. require-ok _ _ s) h2 in
      let (amount, fits, h4) =
        bind-same (λ n. fit u64_max p.amount ≡ some n) _ _ s (λ _ _. expect-ok _ _ s) h3 in
      let (total, sums, h5) =
        bind-same (λ n. checked_add u64_max p.native_fee amount ≡ some n) _ _ s
          (λ _ _. expect-ok _ _ s) h4 in
      let (_, s6, paid, h6) = bind-ok _ _ s h5 in
      let (l, moved, same) = invoke-ok _ _ s paid in
      let (amount_fits, amount_same) = fit-some u64_max p.amount fits in
      let (total_fits, total_same) = fit-some u64_max (p.native_fee + amount) sums in
      let sum = total_same ∙ ap (λ n. p.native_fee + n) amount_same in
      (
        c,
        l,
        config,
        allowed,
        beq_true p.fee 0 no_fee,
        ground (arith, amount_same, total_fits),
        ap (λ n. rt.transfer a.user rt.sol_vault n s.ledger) (sym sum) ∙ moved,
        ap (λ x. post_init_transfer rt p a.user default_key a.payer x) (sym same) ∙ h6,
      )
