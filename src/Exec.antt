-- ===== src/Exec.antt =====
-- Calls of a contract. A call ends with a value and a new state, or panics with a message, and
-- then the runtime drops all that it wrote and all the promises that it made.
pub mod Keeps
pub mod Triples
use omni_bridge.Prelude.{String, Bool, true, false, Option, none, some}
use omni_bridge.Prelude.Result.{Result, ok, err}

abbrev pub Exec : Type 0 → Type 0 → Type 0
Exec S A = S → Result (A × S)

module _ {S A : Type 0} where
  pub pure : A → Exec S A
  pure a s = ok (a, s)

  -- `env::panic_str`.
  pub panic : String → Exec S A
  panic e s = err e

  -- `sdk_expect` on an `Option`, and on a `Result`.
  pub expect : Option A → String → Exec S A
  expect none e s = err e
  expect (some a) e s = ok (a, s)

  pub unwrap : Result A → String → Exec S A
  unwrap (ok a) e s = ok (a, s)
  unwrap (err _) e s = err e

  -- `unwrap_or_else(|err| env::panic_str(&err))`.
  pub lift : Result A → Exec S A
  lift (ok a) s = ok (a, s)
  lift (err e) s = err e

  pub gets : (S → A) → Exec S A
  gets f s = ok (f s, s)

module _ {S : Type 0} where
  pub modify : (S → S) → Exec S Unit
  modify f s = ok (tt, f s)

  -- `require!`.
  pub require : Bool → String → Exec S Unit
  require true e s = ok (tt, s)
  require false e s = err e

  pub skip : Exec S Unit
  skip s = ok (tt, s)

module _ {S A B : Type 0} where
  -- `if let Some(a) = o { f } else { n }`.
  pub on_option : Option A → Exec S B → (A → Exec S B) → Exec S B
  on_option none n f = n
  on_option (some a) n f = f a

  abbrev pub continue : Result (A × S) → (A → Exec S B) → Result (B × S)
  continue (ok (a, s)) f = f a s
  continue (err e) f = err e

  infixl 10 ◌>>=◌ ◌>>◌
  -- Opening this opens the actions above.
  unfoldable pub ◌>>=◌ : Exec S A → (A → Exec S B) → Exec S B
  unfolding pure panic expect unwrap lift gets modify require skip on_option
  ◌>>=◌ m f s = continue (m s) f

  abbrev pub ◌>>◌ : Exec S A → Exec S B → Exec S B
  m >> n = m >>= λ _. n
