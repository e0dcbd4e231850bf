-- ===== src/Prelude/Maps.antt =====
-- The collections of near-sdk, by what a lookup in them answers: `LookupMap` and `LookupSet`.
use mathlib.Core.Path.{◌≡◌, refl, sym, ◌∙◌}
use mathlib.Core.Logic.{◌≢◌, ◌⊎◌, inl, inr}
use mathlib.Core.Bool.{Bool, true, false}
use mathlib.Core.Option.{Option, none, some}
use native.Mathlib.Omega.{arith}
use omni_bridge.Prelude.Tests.{if◌then◌else◌, Bool-cases}
use omni_bridge.Prelude.Equality.{PartialEq, ◌==◌, beq_self, beq_ne, beq_true}

abbrev pub LookupMap : Type 0 → Type 0 → Type 0
LookupMap K V = K → Option V

abbrev pub LookupSet : Type 0 → Type 0
LookupSet K = K → Bool

some_injective : {A : Type 0} {a b : A} → some a ≡ some b → a ≡ b
some_injective h = cc

nothing_there : {A : Type 0} {a : A} → none ≡ some a → ⊥
nothing_there h = cc

different : {K : Type 0} ⦃e : PartialEq K⦄ (k j : K) → k ≡ j → (k == j) ≡ false → ⊥
different k j h b = true_false (sym (beq_self j) ∙ (rw h at b))
  where
    true_false : true ≡ false → ⊥
    true_false h = cc

module _ {K V : Type 0} ⦃e : PartialEq K⦄ where
  unfoldable pub insert : K → V → LookupMap K V → LookupMap K V
  insert k v m j = if k == j then some v else m j

  unfoldable pub remove : K → LookupMap K V → LookupMap K V
  remove k m j = if k == j then none else m j

  pub insert_lem :
      (k j : K) (v : V) (m : LookupMap K V) → insert k v m j ≡ (if k == j then some v else m j)
  unfolding insert
  insert_lem k j v m = refl

  pub remove_lem : (k j : K) (m : LookupMap K V) → remove k m j ≡ (if k == j then none else m j)
  unfolding remove
  remove_lem k j m = refl

  pub insert_self : (k : K) (v : V) (m : LookupMap K V) → insert k v m k ≡ some v
  unfolding insert
  insert_self k v m = rw (beq_self k)

  pub insert_ne : (k j : K) (v : V) (m : LookupMap K V) → k ≢ j → insert k v m j ≡ m j
  unfolding insert
  insert_ne k j v m h = rw (beq_ne k j h)

  pub insert-cases :
      (k j : K) (v : V) (m : LookupMap K V) {x : V}
      → insert k v m j ≡ some x
      → ((k ≡ j) × (v ≡ x)) ⊎ ((k ≢ j) × (m j ≡ some x))
  unfolding insert
  insert-cases k j v m h = elim (Bool-cases (k == j)) [
    | inl b ↦ inl (beq_true k j b, some_injective (rw b at h))
    | inr b ↦ inr ((λ e. different k j e b), rw b at h)
  ]

  pub remove_self : (k : K) (m : LookupMap K V) → remove k m k ≡ none
  unfolding remove
  remove_self k m = rw (beq_self k)

  pub remove-some :
      (k j : K) (m : LookupMap K V) {x : V} → remove k m j ≡ some x → (k ≢ j) × (m j ≡ some x)
  unfolding remove
  remove-some k j m h = elim (Bool-cases (k == j)) [
    | inl b ↦ absurd (nothing_there (rw b at h))
    | inr b ↦ ((λ e. different k j e b), rw b at h)
  ]

  pub remove_ne : (k j : K) (m : LookupMap K V) → k ≢ j → remove k m j ≡ m j
  unfolding remove
  remove_ne k j m h = rw (beq_ne k j h)

module _ {K : Type 0} ⦃e : PartialEq K⦄ where
  unfoldable pub add : K → LookupSet K → LookupSet K
  add k s j = if k == j then true else s j

  unfoldable pub erase : K → LookupSet K → LookupSet K
  erase k s j = if k == j then false else s j

  pub add_lem : (k j : K) (s : LookupSet K) → add k s j ≡ (if k == j then true else s j)
  unfolding add
  add_lem k j s = refl

  pub erase_lem : (k j : K) (s : LookupSet K) → erase k s j ≡ (if k == j then false else s j)
  unfolding erase
  erase_lem k j s = refl

  pub add_self : (k : K) (s : LookupSet K) → add k s k ≡ true
  unfolding add
  add_self k s = rw (beq_self k)

  pub add_mono : (k j : K) (s : LookupSet K) → s j ≡ true → add k s j ≡ true
  unfolding add
  add_mono k j s h = ground arith
