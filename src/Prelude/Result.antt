-- ===== src/Prelude/Result.antt =====
-- Rust's `Result<A, String>`. A panic of the contract is an error with the panic's message.
use Prim.Native.String.{String}
use mathlib.Core.Path.{◌≡◌, refl, subst}
use mathlib.Core.Bool.{Bool, true, false}
use mathlib.Core.Option.{Option, none, some}
use omni_bridge.Prelude.Tests.{if◌then◌else◌}

pub data Result {ℓ} (A : Type ℓ) : Type ℓ where
  ok : A → Result A
  err : String → Result A

infixl 10 ◌>>=◌
abbrev pub ◌>>=◌ {ℓ κ} : {A : Type ℓ} {B : Type κ} → Result A → (A → Result B) → Result B
ok a >>= f = f a
err e >>= f = err e

module _ {ℓ} {A : Type ℓ} where
  -- `Option::ok_or`.
  abbrev pub ok_or : Option A → String → Result A
  ok_or none e = err e
  ok_or (some a) _ = ok a

  -- What a successful result satisfies; a failed one satisfies it vacuously.
  abbrev pub Ensures {κ} : (A → Type κ) → Result A → Type κ
  Ensures Q (ok a) = Q a
  Ensures Q (err _) = Unit

  pub Ensures-ok {κ} : (Q : A → Type κ) (r : Result A) {a : A} → Ensures Q r → r ≡ ok a → Q a
  Ensures-ok Q r h e = subst (Ensures Q) e h

-- A sequence that succeeds, taken apart at its first result.
pub then-ok :
    {T V : Type 0} {v : V} (first : Result T) (next : T → Result V)
    → first >>= next ≡ ok v
    → (t : T) × (first ≡ ok t) × (next t ≡ ok v)
then-ok (err _) next returned = cc
then-ok (ok t) next returned = (t, refl, returned)

module _ {A : Type 0} where
  pub ok_or-ok : (o : Option A) (e : String) {a : A} → ok_or o e ≡ ok a → o ≡ some a
  ok_or-ok none e h = cc
  ok_or-ok (some a) e h = cc

  -- A result behind a test.
  pub if-ok :
      (b : Bool) (e : String) {r : Result A} {a : A}
      → (if b then r else err e) ≡ ok a
      → (b ≡ true) × (r ≡ ok a)
  if-ok true e h = (refl, h)
  if-ok false e h = cc
