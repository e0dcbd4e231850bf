-- ===== src/Solana/Nonces/Set.antt =====
-- The bitmaps of state/used_nonces.rs as a set of nonces.
use omni_bridge.Prelude.{
  ℕ, Bool, true, false, ◌≡◌, refl, ◌∙◌, ◌/◌, ◌%◌, ◌&&◌, arith, if◌then◌else◌, unwrap_or,
}
use omni_bridge.Prelude.Equality.{◌==◌, nat_eq, beq_true}
use omni_bridge.Prelude.Maps.{LookupMap, LookupSet, insert, add, insert_lem, add_lem}
use omni_bridge.Solana.State.{used_nonces_per_account as width}

-- A nonce is used when its slot is set in the bitmap of its account.
abbrev pub is_used : LookupMap ℕ (LookupSet ℕ) → LookupSet ℕ
is_used m n = unwrap_or (m (n / width)) (λ _. false) (n % width)

-- The bitmaps after the slot of the nonce is set.
abbrev pub mark : ℕ → LookupMap ℕ (LookupSet ℕ) → LookupMap ℕ (LookupSet ℕ)
mark n m = insert (n / width) (add (n % width) (unwrap_or (m (n / width)) (λ _. false))) m

-- Account and slot determine the nonce.
nonce_of_slot : (n j : ℕ) → n / width ≡ j / width → n % width ≡ j % width → n ≡ j
nonce_of_slot n j h k = omega arith

at_slots :
    (m : LookupMap ℕ (LookupSet ℕ)) (a b c d : ℕ) (same slot : Bool)
    → (a == c) ≡ same
    → (b == d) ≡ slot
    → unwrap_or (insert a (add b (unwrap_or (m a) (λ _. false))) m c) (λ _. false) d
      ≡ (if same && slot then true else unwrap_or (m c) (λ _. false) d)
at_slots m a b c d true true ha hb = rw (insert_lem, ha, add_lem, hb)
at_slots m a b c d true false ha hb = rw (insert_lem, ha, add_lem, hb, beq_true a c ha)
at_slots m a b c d false _ ha hb = rw (insert_lem, ha)

both_slots : (n j : ℕ) → (n / width == j / width && n % width == j % width) ≡ (n == j)
both_slots n j = ground arith

pub is_used-mark :
    (n j : ℕ) (m : LookupMap ℕ (LookupSet ℕ)) → is_used (mark n m) j ≡ add n (is_used m) j
is_used-mark n j m =
    at_slots m (n / width) (n % width) (j / width) (j % width) _ _ refl refl
    ∙ rw (both_slots, add_lem) refl
