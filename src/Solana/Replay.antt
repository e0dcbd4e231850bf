-- ===== src/Solana/Replay.antt =====
-- No nonce of the Solana program is finalised twice, whatever transactions are sent in whatever
-- order: the bitmaps are the set of the nonces that were accepted.
use omni_bridge.Prelude.{
  ℕ, Bool, true, false, ◌||◌, ◌≡◌, refl, subst, Option, none, some, List, [], ◌∷◌, ◌++◌, arith,
}
use omni_bridge.Prelude.Equality.{◌==◌, nat_eq, beq_self, beq_true}
use omni_bridge.Prelude.Maps.{LookupMap, LookupSet, add_lem}
use omni_bridge.Prelude.Result.{Result, ok, err, Ensures}
use omni_bridge.Exec.Keeps.{Triple, Triple-Keeps}
use omni_bridge.Solana.State.{Runtime, Program}
use omni_bridge.Solana.Nonces.Set.{is_used}
use omni_bridge.Solana.Admin.{set_admin, set_pausable_admin, set_paused, set_metadata_admin}
use omni_bridge.Solana.Calls.{Instruction, nonce_of}
use omni_bridge.Solana.Instructions.{process, after, spent, execute, accepted}
use omni_bridge.Solana.Bystanders.{
  Keeps-init_transfer, Keeps-init_transfer_sol, Keeps-change_config, Keeps-pause, Keeps-initialize,
  Keeps-deploy_token, Keeps-log_metadata, Keeps-update_metadata,
}
use omni_bridge.Solana.Once.{HasNonces, Uses, finalize_transfer-Uses, finalize_transfer_sol-Uses}

abbrev pub member : ℕ → List ℕ → Bool
member n [] = false
member n (x ∷ xs) = x == n || member n xs

abbrev pub AllDifferent : List ℕ → Type 0
AllDifferent [] = Unit
AllDifferent (x ∷ xs) = (member x xs ≡ false) × AllDifferent xs

-- What an instruction that returns does to the bitmaps.
abbrev Spends : {L : Type 0} → Option ℕ → LookupMap ℕ (LookupSet ℕ) → Program L → Type 0
Spends none m t = t.used_nonces ≡ m
Spends (some n) m t = Uses n m t

module _ {L : Type 0} (rt : Runtime L) where
  process-Spends :
      (i : Instruction) (m : LookupMap ℕ (LookupSet ℕ))
      → Triple (HasNonces m) (process rt i) (λ _. Spends (nonce_of i) m)
  unfolding process set_admin set_pausable_admin set_paused set_metadata_admin
  process-Spends (Instruction.finalize_transfer a p) m = finalize_transfer-Uses rt a p m
  process-Spends (Instruction.finalize_transfer_sol a p) m = finalize_transfer_sol-Uses rt a p m
  process-Spends (Instruction.init_transfer a p) m = Triple-Keeps _ (Keeps-init_transfer rt m a p)
  process-Spends (Instruction.init_transfer_sol a p) m =
      Triple-Keeps _ (Keeps-init_transfer_sol rt m a p)
  process-Spends (Instruction.initialize a b c d e f g) m =
      Triple-Keeps _ (Keeps-initialize rt m a b c d e f g)
  process-Spends (Instruction.deploy_token p payer) m =
      Triple-Keeps _ (Keeps-deploy_token rt m p payer)
  process-Spends (Instruction.log_metadata a) m = Triple-Keeps _ (Keeps-log_metadata rt m a)
  process-Spends (Instruction.pause signer) m = Triple-Keeps _ (Keeps-pause rt m signer)
  process-Spends (Instruction.unpause signer n) m = Triple-Keeps _ (Keeps-change_config rt m _ _)
  process-Spends (Instruction.set_admin signer k) m = Triple-Keeps _ (Keeps-change_config rt m _ _)
  process-Spends (Instruction.set_pausable_admin signer k) m =
      Triple-Keeps _ (Keeps-change_config rt m _ _)
  process-Spends (Instruction.set_metadata_admin signer k) m =
      Triple-Keeps _ (Keeps-change_config rt m _ _)
  process-Spends (Instruction.update_metadata signer mint c name symbol uri) m =
      Triple-Keeps _ (Keeps-update_metadata rt m signer mint c name symbol uri)

  -- One transaction: what it spends was free, and is used afterwards.
  spent-used :
      (o : Option ℕ) (r : Result (Unit {0} × Program L)) (s : Program L) (j : ℕ)
      → Ensures (λ x. Spends o s.used_nonces x.1) r
      → is_used (after s r).used_nonces j ≡ (member j (spent o r) || is_used s.used_nonces j)
  spent-used none (ok (_, t)) s j h = rw h refl
  spent-used none (err _) s j h = refl
  spent-used (some n) (err _) s j h = refl
  spent-used (some n) (ok (_, t)) s j h = ground (arith, h.1 j, add_lem n j (is_used s.used_nonces))

  spent-free :
      (o : Option ℕ) (r : Result (Unit {0} × Program L)) (s : Program L) (j : ℕ)
      → Ensures (λ x. Spends o s.used_nonces x.1) r
      → member j (spent o r) ≡ true
      → is_used s.used_nonces j ≡ false
  spent-free none (ok (_, t)) s j h e = ground arith
  spent-free none (err _) s j h e = ground arith
  spent-free (some n) (err _) s j h e = ground arith
  spent-free (some n) (ok (_, t)) s j h e =
      subst (λ k. is_used s.used_nonces k ≡ false) (beq_true n j (ground (arith, e))) h.0

  transaction :
      (i : Instruction) (s : Program L)
      → Ensures (λ x. Spends (nonce_of i) s.used_nonces x.1) (process rt i s)
  transaction i s = (process-Spends i s.used_nonces).at s refl

  member-append : (j : ℕ) (xs ys : List ℕ) → member j (xs ++ ys) ≡ (member j xs || member j ys)
  member-append j [] ys = refl
  member-append j (x ∷ xs) ys = ground (arith, member-append j xs ys)

  -- After any transactions, in any order, a nonce is used exactly when it was used before or is one
  -- of the nonces of the finalisations that succeeded.
  pub execute-used :
      (is : List Instruction) (s : Program L) (j : ℕ)
      → is_used (execute rt is s).used_nonces j
        ≡ (member j (accepted rt is s) || is_used s.used_nonces j)
  unfolding execute accepted
  execute-used [] s j = refl
  execute-used (i ∷ is) s j = ground (
    arith,
    execute-used is (after s (process rt i s)) j,
    spent-used (nonce_of i) (process rt i s) s j (transaction i s),
    member-append j (spent (nonce_of i) (process rt i s))
        (accepted rt is (after s (process rt i s))),
  )

  accepted-free :
      (is : List Instruction) (s : Program L) (j : ℕ)
      → member j (accepted rt is s) ≡ true
      → is_used s.used_nonces j ≡ false
  unfolding accepted
  accepted-free [] s j h = ground arith
  accepted-free (i ∷ is) s j h = ground (
    arith,
    h,
    accepted-free is (after s (process rt i s)) j,
    spent-used (nonce_of i) (process rt i s) s j (transaction i s),
    spent-free (nonce_of i) (process rt i s) s j (transaction i s),
    member-append j (spent (nonce_of i) (process rt i s))
        (accepted rt is (after s (process rt i s))),
  )

  spent-before :
      (o : Option ℕ) (r : Result (Unit {0} × Program L)) (xs : List ℕ)
      → ((j : ℕ) → member j (spent o r) ≡ true → member j xs ≡ false)
      → AllDifferent xs
      → AllDifferent (spent o r ++ xs)
  spent-before none (ok _) xs h d = d
  spent-before none (err _) xs h d = d
  spent-before (some n) (err _) xs h d = d
  spent-before (some n) (ok _) xs h d = (h n (rw (beq_self n) refl), d)

  accepted-AllDifferent : (is : List Instruction) (s : Program L) → AllDifferent (accepted rt is s)
  unfolding accepted
  accepted-AllDifferent [] s = tt
  accepted-AllDifferent (i ∷ is) s =
      let r = process rt i s in
      spent-before (nonce_of i) r (accepted rt is (after s r))
        (λ j h.
          ground (
            arith,
            accepted-free is (after s r) j,
            spent-used (nonce_of i) r s j (transaction i s),
          ))
        (accepted-AllDifferent is (after s r))

  -- Among any transactions, in any order, the nonces of the finalisations that succeed are all
  -- different, and none of them was used before.
  pub accepted-once :
      (is : List Instruction) (s : Program L)
      → AllDifferent (accepted rt is s)
        × ((j : ℕ) → member j (accepted rt is s) ≡ true → is_used s.used_nonces j ≡ false)
  accepted-once is s = (accepted-AllDifferent is s, accepted-free is s)
