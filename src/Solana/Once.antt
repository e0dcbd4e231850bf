-- ===== src/Solana/Once.antt =====
-- Each nonce of the Solana program is used once: use_nonce of state/used_nonces.rs, and the two
-- instructions that finalise a transfer.
use omni_bridge.Prelude.{ℕ, Bool, true, false, not, ◌≡◌, refl, sym}
use omni_bridge.Prelude.Equality.{nat_eq}
use omni_bridge.Prelude.Maps.{LookupMap, LookupSet, add}
use omni_bridge.Exec.{pure, require, ◌>>=◌}
use omni_bridge.Exec.Keeps.{Triple, Triple-bind, keeps_rules, Keeps-require, Keeps-bind}
use omni_bridge.Exec.Triples.{Triple-after, Triple-then}
use omni_bridge.Solana.State.{Pubkey, Config, Runtime, Program}
use omni_bridge.Solana.Messages.{SignedPayload, FinalizeTransferPayload}
use omni_bridge.Solana.Nonces.{replace_slot, load, use_nonce}
use omni_bridge.Solana.Nonces.Set.{is_used, mark, is_used-mark}
use omni_bridge.Solana.Transfers.{
  FinalizeTransfer, FinalizeTransferSol, finalize_transfer, finalize_transfer_sol,
}
use omni_bridge.Solana.Frame.{
  OffLedger, Keeps-load_config, Keeps-store_config, Keeps-invoke, Keeps-pay, Keeps-settle_reserve,
  Keeps-open_used_nonces, Keeps-check_vault, Keeps-give_tokens, Keeps-post_finalized,
  Keeps-verify_signature, Keeps-to_u64,
}

module _ {L : Type 0} where
  -- The bitmaps are these.
  abbrev pub HasNonces : LookupMap ℕ (LookupSet ℕ) → Program L → Type 0
  HasNonces m s = s.used_nonces ≡ m

  -- The nonce was free in these bitmaps, and is the one that is used since.
  abbrev pub Uses : ℕ → LookupMap ℕ (LookupSet ℕ) → Program L → Type 0
  Uses n m t = (is_used m n ≡ false) × ((j : ℕ) → is_used t.used_nonces j ≡ add n (is_used m) j)

  pub HasNonces-OffLedger : (m : LookupMap ℕ (LookupSet ℕ)) → OffLedger (HasNonces m)
  HasNonces-OffLedger m = record { ledger = λ s l h. h }

  Uses-OffLedger : (n : ℕ) (m : LookupMap ℕ (LookupSet ℕ)) → OffLedger (Uses n m)
  Uses-OffLedger n m = record { ledger = λ s l h. h }

  replace_slot-Marks :
      (n : ℕ) (m : LookupMap ℕ (LookupSet ℕ))
      → Triple
          (HasNonces m)
          (replace_slot n)
          (λ b t. (b ≡ is_used m n) × (t.used_nonces ≡ mark n m))
  unfolding replace_slot load ◌>>=◌
  replace_slot-Marks n m = record { at = λ s h. rw h (refl, refl) }

  checked_slot :
      (n : ℕ) (m : LookupMap ℕ (LookupSet ℕ)) (c : Config) (b : Bool)
      → Triple
          (λ t. (b ≡ is_used m n) × (t.used_nonces ≡ mark n m))
          (require (not b) "NonceAlreadyUsed" >>= λ _. pure c)
          (λ _. Uses n m)
  unfolding ◌>>=◌
  checked_slot n m c true = record { at = λ s h. tt }
  checked_slot n m c false = record { at = λ s h. (sym h.0, λ j. rw h.1 (is_used-mark n j m)) }

module _ {L : Type 0} (rt : Runtime L) where
  use_nonce-Uses :
      (n : ℕ) (payer : Pubkey) (c : Config) (m : LookupMap ℕ (LookupSet ℕ))
      → Triple (HasNonces m) (use_nonce rt n payer c) (λ _. Uses n m)
  unfolding use_nonce
  use_nonce-Uses n payer c m = Triple-after _ _ (search keeps_rules) λ expected.
      Triple-after _ _ (Keeps-settle_reserve rt (HasNonces-OffLedger m) expected payer)
        λ _. Triple-bind _ _ _ (replace_slot-Marks n m) (checked_slot n m _)

  pub finalize_transfer-Uses :
      (a : FinalizeTransfer) (p : SignedPayload FinalizeTransferPayload)
      (m : LookupMap ℕ (LookupSet ℕ))
      → Triple (HasNonces m) (finalize_transfer rt a p) (λ _. Uses p.payload.destination_nonce m)
  unfolding finalize_transfer
  finalize_transfer-Uses a p m =
      let off = HasNonces-OffLedger m in
      let off_after = Uses-OffLedger p.payload.destination_nonce m in
      Triple-after _ _ Keeps-load_config λ config.
        Triple-after _ _ (Keeps-open_used_nonces rt off _ _) λ _.
          Triple-after _ _ (Keeps-check_vault rt off _ _) λ _.
            Triple-after _ _ (Keeps-invoke off _ _) λ _. Triple-after _ _ (Keeps-require _ _) λ _.
              Triple-after _ _ (Keeps-verify_signature rt off _ _ _) λ _.
                Triple-then _ _ (use_nonce-Uses _ _ _ m) λ _.
                  Keeps-bind _ _ (Keeps-give_tokens rt off_after _ _ _)
                    (λ _. Keeps-post_finalized rt off_after _ _ _)

  pub finalize_transfer_sol-Uses :
      (a : FinalizeTransferSol) (p : SignedPayload FinalizeTransferPayload)
      (m : LookupMap ℕ (LookupSet ℕ))
      → Triple
          (HasNonces m)
          (finalize_transfer_sol rt a p)
          (λ _. Uses p.payload.destination_nonce m)
  unfolding finalize_transfer_sol
  finalize_transfer_sol-Uses a p m =
      let off = HasNonces-OffLedger m in
      let off_after = Uses-OffLedger p.payload.destination_nonce m in
      Triple-after _ _ Keeps-load_config λ config.
        Triple-after _ _ (Keeps-open_used_nonces rt off _ _) λ _.
          Triple-after _ _ (Keeps-require _ _) λ _.
            Triple-after _ _ (Keeps-verify_signature rt off _ _ _) λ _.
              Triple-then _ _ (use_nonce-Uses _ _ _ m) λ raised.
                Keeps-bind _ _ (search (keeps_rules, Keeps-to_u64)) λ amount.
                  Keeps-bind _ _ (Keeps-pay rt off_after _ _ _) λ _.
                    Keeps-bind _ _ (Keeps-post_finalized rt off_after _ _ _)
                      λ _. Keeps-store_config raised (λ s h. h)
