-- ===== src/Provers/Trie/Unique.antt =====
-- A root and a key have one value: two proofs that are accepted for them agree, or show a collision
-- of the hash.
use omni_bridge.Prelude.{
  String, ℕ, Bool, true, false, ◌≡◌, ◌≢◌, refl, sym, subst, ap, ◌∙◌, ◌⊎◌, inl, inr, ◌<◌, List, [],
  ◌∷◌, ltb, length, if◌then◌else◌, arith,
}
use omni_bridge.Prelude.Equality.{◌==◌, nat_eq, list_eq, beq_true, beq_self}
use omni_bridge.Prelude.Result.{Result, ok, err, ◌>>=◌}
use omni_bridge.Types.Codecs.{Bytes}
use omni_bridge.Provers.Trie.{
  Rlp, require, is_nil, nibbles, is_expected, visit_branch, visit_leaf, visit_extension,
  visit_short, visit, walk, verify_trie_proof,
}

-- Two texts with one hash.
abbrev pub Collision : (Bytes → Bytes) → Type 0
Collision hash = (a : Bytes) × (b : Bytes) × (a ≢ b) × (hash a ≡ hash b)

abbrev pub Same : (Bytes → Bytes) → Bytes → Bytes → Type 0
Same hash v w = (v ≡ w) ⊎ Collision hash

-- Two results that agree when there are two.
record Agree (hash : Bytes → Bytes) (r s : Result Bytes) : Type 0 where
  at : (v w : Bytes) → r ≡ ok v → s ≡ ok w → Same hash v w

ok_injective : {v w : Bytes} → ok v ≡ ok w → v ≡ w
ok_injective h = ground arith

err_ok : {e : String} {v : Bytes} → err e ≡ ok v → ⊥
err_ok h = cc

true-false : true ≡ false → ⊥
true-false h = cc

module _ {hash : Bytes → Bytes} where
  Agree-refl : (r : Result Bytes) → Agree hash r r
  Agree-refl r = record { at = λ v w h k. inl (ok_injective (sym h ∙ k)) }

  Agree-bind :
      {A : Type 0} (m : Result A) (f g : A → Result Bytes)
      → ((a : A) → Agree hash (f a) (g a))
      → Agree hash (m >>= f) (m >>= g)
  Agree-bind (ok a) f g h = h a
  Agree-bind (err e) f g h = record { at = λ v w p q. absurd (err_ok p) }

  Agree-if :
      (b : Bool) {r s r' s' : Result Bytes}
      → Agree hash r r'
      → Agree hash s s'
      → Agree hash (if b then r else s) (if b then r' else s')
  Agree-if true h k = h
  Agree-if false h k = k

  Agree-require :
      (b c : Bool) {r s : Result Bytes} → Agree hash r s → Agree hash (require b r) (require c s)
  Agree-require true true h = h
  Agree-require true false h = record { at = λ v w p q. absurd (err_ok q) }
  Agree-require false c h = record { at = λ v w p q. absurd (err_ok p) }

module _ (rlp : Rlp) (hash : Bytes → Bytes) (key : List ℕ) where
  ruleset agree_rules = (Agree-refl, Agree-bind, Agree-if, Agree-require)

  module _ (next next' : Bytes → ℕ → Result Bytes)
      (h : (child : Bytes) (i : ℕ) → Agree hash (next child i) (next' child i)) (last last' : Bool)
      (node : Bytes) (i : ℕ) where
    branch-Agree :
        Agree hash
          (visit_branch rlp hash key next last node i)
          (visit_branch rlp hash key next' last' node i)
    unfolding visit_branch
    branch-Agree = search (agree_rules, h) depth 20

    leaf-Agree :
        (path : List ℕ)
        → Agree hash
            (visit_leaf rlp hash key next last node path i)
            (visit_leaf rlp hash key next' last' node path i)
    unfolding visit_leaf
    leaf-Agree path = search agree_rules depth 20

    extension-Agree :
        (path : List ℕ)
        → Agree hash
            (visit_extension rlp hash key next last node path i)
            (visit_extension rlp hash key next' last' node path i)
    unfolding visit_extension
    extension-Agree path = search (agree_rules, h) depth 20

    short-Agree :
        (path : Bytes)
        → Agree hash
            (visit_short rlp hash key next last node i path)
            (visit_short rlp hash key next' last' node i path)
    unfolding visit_short
    short-Agree [] = Agree-refl _
    short-Agree (first ∷ rest) = search (agree_rules, leaf-Agree, extension-Agree) depth 20

    visit-Agree :
        Agree hash (visit rlp hash key next last node i) (visit rlp hash key next' last' node i)
    unfolding visit
    visit-Agree = search (agree_rules, branch-Agree, short-Agree) depth 20

-- A node that is expected has the expected hash, or is short and the expected text itself.
expected-cases :
    (rlp : Rlp) (hash : Bytes → Bytes) (node expected : Bytes) (i : ℕ)
    → is_expected rlp hash node expected i ≡ true
    → (hash node ≡ expected) ⊎ ((node ≡ expected) × (length node < 32))
unfolding is_expected
expected-cases rlp hash node expected i h = cases (i == 0) (ltb (length node) 32) refl h
  where
    cases :
        (first short : Bool)
        → ltb (length node) 32 ≡ short
        → (if first
            then hash node == expected
            else (if short then node == expected else hash node == expected))
          ≡ true
        → (hash node ≡ expected) ⊎ ((node ≡ expected) × (length node < 32))
    cases true short e h = inl (beq_true (hash node) expected h)
    cases false true e h = inr (beq_true node expected h, ground (arith, e))
    cases false false e h = inl (beq_true (hash node) expected h)

module _ (rlp : Rlp) (hash : Bytes → Bytes) (width : (b : Bytes) → length (hash b) ≡ 32) where
  one_hash : (a b : Bytes) → hash a ≡ hash b → Same hash a b
  one_hash a b h = decide (a == b) refl
    where
      decide : (t : Bool) → (a == b) ≡ t → Same hash a b
      decide true e = inl (beq_true a b e)
      decide false e =
          inr (
            a,
            b,
            (λ same. true-false (sym (beq_self b) ∙ subst (λ x. (x == b) ≡ false) same e)),
            h,
          )

  one_node :
      (a b expected : Bytes)
      → (hash a ≡ expected) ⊎ ((a ≡ expected) × (length a < 32))
      → (hash b ≡ expected) ⊎ ((b ≡ expected) × (length b < 32))
      → Same hash a b
  one_node a b expected (inl h) (inl k) = one_hash a b (h ∙ sym k)
  one_node a b expected (inr (h, _)) (inr (k, _)) = inl (h ∙ sym k)
  one_node a b expected (inl h) (inr (k, short)) =
      absurd (ground (arith, ap length (k ∙ sym h), width a, short))
  one_node a b expected (inr (h, short)) (inl k) =
      absurd (ground (arith, ap length (h ∙ sym k), width b, short))

  module _ (key : List ℕ) (a b : Bytes) (p q : List Bytes) (expected : Bytes) (i : ℕ)
      (rest : (e : Bytes) (j : ℕ)
        → Agree hash (walk rlp hash key p e j) (walk rlp hash key q e j)) where
    visited :
        Same hash a b
        → Agree hash
            (visit rlp hash key (walk rlp hash key p) (is_nil p) a i)
            (visit rlp hash key (walk rlp hash key q) (is_nil q) b i)
    visited (inl same) = rw (← same) (visit-Agree rlp hash key _ _ rest _ _ a i)
    visited (inr collision) = record { at = λ v w _ _. inr collision }

    accepted :
        (x y : Bool)
        → is_expected rlp hash a expected i ≡ x
        → is_expected rlp hash b expected i ≡ y
        → Agree hash
            (require x (visit rlp hash key (walk rlp hash key p) (is_nil p) a i))
            (require y (visit rlp hash key (walk rlp hash key q) (is_nil q) b i))
    accepted true true hx hy = visited (
        one_node a b expected (expected-cases rlp hash a expected i hx)
          (expected-cases rlp hash b expected i hy))
    accepted true false hx hy = record { at = λ v w h k. absurd (err_ok k) }
    accepted false y hx hy = record { at = λ v w h k. absurd (err_ok h) }

  walk-Agree :
      (key : List ℕ) (p q : List Bytes) (expected : Bytes) (i : ℕ)
      → Agree hash (walk rlp hash key p expected i) (walk rlp hash key q expected i)
  unfolding walk
  walk-Agree key [] q expected i = record { at = λ v w h k. absurd (err_ok h) }
  walk-Agree key (a ∷ p) [] expected i = record { at = λ v w h k. absurd (err_ok k) }
  walk-Agree key (a ∷ p) (b ∷ q) expected i =
      accepted key a b p q expected i (walk-Agree key p q) _ _ refl refl

  -- When the hash has 32 bytes, two proofs that are accepted for one root and one key give the same
  -- value, or two different texts with the same hash.
  pub verify_trie_proof_unique :
      (root key : Bytes) (p q : List Bytes) (v w : Bytes)
      → verify_trie_proof rlp hash root key p ≡ ok v
      → verify_trie_proof rlp hash root key q ≡ ok w
      → Same hash v w
  unfolding verify_trie_proof
  verify_trie_proof_unique root key p q v w h k = (walk-Agree (nibbles key) p q root 0).at v w h k
