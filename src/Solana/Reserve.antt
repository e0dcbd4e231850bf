-- ===== src/Solana/Reserve.antt =====
-- The lamports that the Solana program keeps aside, and its record of the greatest nonce:
-- state/used_nonces.rs and instructions/user.
use omni_bridge.Prelude.{
  String, sym, ℕ, Bool, true, false, ◌≡◌, ◌≢◌, refl, ◌+◌, ◌-◌, Option, none, some, ltb, arith,
  if◌then◌else◌,
}
use omni_bridge.Prelude.Result.{ok, Ensures}
use omni_bridge.Exec.{expect, continue, skip, ◌>>=◌}
use omni_bridge.Exec.Keeps.{Keeps, Triple, Triple-bind, keeps_rules, Keeps-require}
use omni_bridge.Exec.Triples.{Triple-after, Triple-fact, Triple-pure}
use omni_bridge.Solana.State.{Pubkey, Config, Runtime, Program, invoke, pay, pay_positive}
use omni_bridge.Solana.Nonces.{
  replace_slot, load, settle_reserve, use_nonce, expected_reserve, raise_nonce,
}

-- `system_program::transfer` moves lamports from one account to another, and fails without them.
abbrev pub MovesLamports : {L : Type 0} → Runtime L → Type 0
MovesLamports {L} rt =
    (source target : Pubkey) (n : ℕ) (before after : L)
    → source ≢ target
    → rt.transfer source target n before ≡ some after
    → (rt.lamports before source ≡ rt.lamports after source + n)
      × (rt.lamports after target ≡ rt.lamports before target + n)

module _ {L : Type 0} where
  -- A call of another program that succeeds.
  invoke-Ensures :
      (Q : Program L → Type 0) (e : String) (call : L → Option L) (s : Program L)
      → ((l : L) → call s.ledger ≡ some l → Q (record s { ledger = l }))
      → Ensures (λ r. Q r.1) (invoke e call s)
  unfolding invoke ◌>>=◌
  invoke-Ensures Q e call s h = called (call s.ledger) refl
    where
      called :
          (o : Option L)
          → call s.ledger ≡ o
          → Ensures (λ r. Q r.1) (continue (expect o e s) (λ l t. ok (tt, record t { ledger = l })))
      called none _ = tt
      called (some l) eq = h l eq

module _ {S A : Type 0} {P : S → Type 0} where
  expect-Triple : (o : Option A) (e : String) → Triple P (expect o e) (λ a _. o ≡ some a)
  unfolding ◌>>=◌
  expect-Triple none e = record { at = λ s h. tt }
  expect-Triple (some a) e = record { at = λ s h. refl }

module _ {L : Type 0} (rt : Runtime L) (moves : MovesLamports rt) where
  open rt use {lamports, authority}

  -- The authority holds this much.
  abbrev Holds : ℕ → Program L → Type 0
  Holds n s = lamports s.ledger authority ≡ n

  settle_reserve-Holds :
      (expected : ℕ) (payer : Pubkey)
      → payer ≢ authority
      → Triple (λ _. Unit {0}) (settle_reserve rt expected payer) (λ _. Holds expected)
  unfolding settle_reserve pay pay_positive ◌>>=◌
  settle_reserve-Holds expected payer ne = record {
    at = λ s _.
        settled s (ltb (lamports s.ledger authority) expected)
          (ltb 0 (lamports s.ledger authority - expected)) refl refl;
  }
    where
      settled :
          (s : Program L) (short over : Bool)
          → ltb (lamports s.ledger authority) expected ≡ short
          → ltb 0 (lamports s.ledger authority - expected) ≡ over
          → Ensures
              (λ r. Holds expected r.1)
              ((if short
                  then pay rt payer authority (expected - lamports s.ledger authority)
                  else (if over
                      then pay rt authority payer (lamports s.ledger authority - expected)
                      else skip))
                s)
      settled s true over hs ho =
          invoke-Ensures (Holds expected) _ _ s
            λ l h. ground (arith, moves payer authority _ s.ledger l ne h)
      settled s false true hs ho =
          invoke-Ensures (Holds expected) _ _ s
            λ l h. ground (arith, moves authority payer _ s.ledger l (λ e. ne (sym e)) h)
      settled s false false hs ho = ground arith

  replace_slot-Holds : (n expected : ℕ) → Keeps (Holds expected) (replace_slot n)
  unfolding replace_slot load ◌>>=◌
  replace_slot-Holds n expected = record { at = λ s h. h }

  -- When the payer is not the authority, a nonce that is used raises the greatest nonce of the
  -- configuration in memory, and leaves the authority with exactly the rent of an empty account and
  -- the rent level of the greatest nonce, whether it held more or less before.
  pub use_nonce-Holds :
      (n : ℕ) (payer : Pubkey) (c : Config)
      → payer ≢ authority
      → Triple
          (λ _. Unit {0})
          (use_nonce rt n payer c)
          (λ d s.
            (d ≡ raise_nonce n c)
            × (expected_reserve rt d.max_used_nonce ≡ some (lamports s.ledger authority)))
  unfolding use_nonce
  use_nonce-Holds n payer c ne =
      Triple-fact (λ e. expected_reserve rt (raise_nonce n c).max_used_nonce ≡ some e) _ _
        (search keeps_rules) (expect-Triple _ _)
        λ expected e.
          Triple-bind (λ _. Holds expected) _ _ (settle_reserve-Holds expected payer ne)
            λ _.
              Triple-after _ _ (replace_slot-Holds n expected)
                λ b. Triple-after _ _ (Keeps-require _ _) λ _. Triple-pure _ λ s h. (refl, rw h e)
