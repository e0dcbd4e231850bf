-- ===== src/Relayer/Nonces/Order.antt =====
-- No nonce is reserved twice between two resynchronisations, and the loops over the node's answers.
use omni_bridge.Prelude.{
  ℕ, zero, suc, ◌≡◌, refl, ap, ◌∙◌, subst, Bool-cases, nat_beq, nat_beq_iff, inl, inr, ◌+◌, ◌^◌,
  ◌≤◌, ◌<◌, Option, none, some, List, [], ◌∷◌, length, arith,
}
use omni_bridge.Prelude.Result.{Result, ok}
use omni_bridge.Relayer.Nonces.{reserve_nonce, reserve_all, try_evm, get_current_nonce_evm}

-- Each number is at least the one it is paired with, and greater than all before it.
abbrev pub Increases : ℕ → List ℕ → List ℕ → Type 0
Increases low [] [] = Unit
Increases low (c ∷ cs) (n ∷ ns) = (low ≤ n) × (c ≤ n) × Increases (n + 1) cs ns
Increases low _ _ = ⊥

-- There is room for as many reservations as the list has, from each of its answers.
abbrev pub HasRoom : List ℕ → Type 0
HasRoom [] = Unit
HasRoom (c ∷ cs) = (c + suc (length cs) < 2 ^ 64) × HasRoom cs

next_nonce :
    (c n room : ℕ)
    → n + suc room < 2 ^ 64
    → c + suc room < 2 ^ 64
    → (n ≤ (reserve_nonce c n).0)
      × (c ≤ (reserve_nonce c n).0)
      × ((reserve_nonce c n).1 ≡ (reserve_nonce c n).0 + 1)
      × ((reserve_nonce c n).1 + room < 2 ^ 64)
unfolding reserve_nonce
next_nonce c n room h k = ground arith

-- While no manager is resynchronised, and there is room in 64 bits: the nonces that are reserved
-- one after another, by whatever tasks, grow strictly, are at least the nonce that the chain
-- answered each time, and none is below the local nonce at the start.
pub reserve_all-Increases :
    (cs : List ℕ) (n : ℕ) → n + length cs < 2 ^ 64 → HasRoom cs → Increases n cs (reserve_all cs n)
unfolding reserve_all
reserve_all-Increases [] n h room = tt
reserve_all-Increases (c ∷ cs) n h room =
    let (low, answer, next, left) = next_nonce c n (length cs) h room.0 in
    (
      low,
      answer,
      subst (λ k. Increases k cs (reserve_all cs (reserve_nonce c n).1)) next
          (reserve_all-Increases cs (reserve_nonce c n).1 left room.1),
    )

answered : Option ℕ → Result ℕ → Result ℕ
answered (some nonce) later = ok nonce
answered none later = later

try_evm-step :
    (left attempt : ℕ) (answers : ℕ → Option ℕ) (o : Option ℕ)
    → answers attempt ≡ o
    → try_evm (suc left) attempt answers ≡ answered o (try_evm left (attempt + 1) answers)
unfolding try_evm answered
try_evm-step left attempt answers none h = rw (try_evm, h) refl
try_evm-step left attempt answers (some n) h = rw (try_evm, h) refl

try_evm-finds :
    (left attempt i : ℕ) (answers : ℕ → Option ℕ) (n : ℕ)
    → attempt ≤ i
    → i < attempt + left
    → answers i ≡ some n
    → ((j : ℕ) → j < i → answers j ≡ none)
    → try_evm left attempt answers ≡ ok n
unfolding try_evm answered
try_evm-finds zero attempt i answers n low high found before = absurd (omega arith)
try_evm-finds (suc left) attempt i answers n low high found before =
    elim (Bool-cases (nat_beq attempt i)) [
      | inl same ↦
          try_evm-step left attempt answers (some n)
            (ap answers ((nat_beq_iff attempt i).0 same) ∙ found)
      | inr other ↦
          let less : attempt < i = ground (arith, other, low) in
          try_evm-step left attempt answers none (before attempt less)
          ∙ try_evm-finds left (attempt + 1) i answers n (omega arith) (omega arith) found before
    ]

-- The first answer of an EVM node that is not an error, if it is one of the ten attempts, is the
-- nonce.
pub get_current_nonce_evm-finds :
    (answers : ℕ → Option ℕ) (i n : ℕ)
    → i < 10
    → answers i ≡ some n
    → ((j : ℕ) → j < i → answers j ≡ none)
    → get_current_nonce_evm answers ≡ ok n
get_current_nonce_evm-finds answers i n high found before =
    try_evm-finds 10 0 i answers n (omega arith) (omega arith) found before
