-- ===== src/Exec/Triples.antt =====
-- Rules for conditions before and after a call that is a sequence.
use omni_bridge.Prelude.{
  String, ◌≡◌, refl, sym, ap, ◌∙◌, Bool, true, false, Option, none, some, arith,
}
use omni_bridge.Prelude.Result.{Result, ok, err, Ensures}
use omni_bridge.Exec.{Exec, pure, expect, require, continue, ◌>>=◌}
use omni_bridge.Exec.Keeps.{Triple, Keeps, Triple-bind, Triple-Keeps}

module _ {S A B : Type 0} {R : B → S → Type 0} where
  -- The first part keeps the condition.
  pub Triple-after :
      {P : S → Type 0} (m : Exec S A) (f : A → Exec S B)
      → Keeps P m
      → ((a : A) → Triple P (f a) R)
      → Triple P (m >>= f) R
  Triple-after {P} m f km t = Triple-bind (λ _. P) m f (Triple-Keeps m km) t

  -- The first part is of no matter.
  pub Triple-skip :
      {P : S → Type 0} (m : Exec S A) (f : A → Exec S B)
      → ((a : A) → Triple (λ _. Unit) (f a) R)
      → Triple P (m >>= f) R
  Triple-skip m f t = Triple-bind (λ _ _. Unit) m f (record { at = λ s h. any (m s) }) t
    where
      any : (r : Result (A × S)) → Ensures (λ _. Unit {0}) r
      any (ok _) = tt
      any (err _) = tt

  -- The first part returns a known value and writes nothing.
  pub Triple-value :
      {P : S → Type 0} (m : Exec S A) (f : A → Exec S B) (a : A)
      → ((s : S) → m s ≡ ok (a, s))
      → Triple P (f a) R
      → Triple P (m >>= f) R
  unfolding ◌>>=◌
  Triple-value m f a e t = record { at = λ s h. rw (e s) (t.at s h) }

  -- The second part needs only what the first part's value satisfies.
  pub Triple-fact :
      {P : S → Type 0} (F : A → Type 0) (m : Exec S A) (f : A → Exec S B)
      → Keeps P m
      → Triple P m (λ a _. F a)
      → ((a : A) → F a → Triple P (f a) R)
      → Triple P (m >>= f) R
  Triple-fact {P} F m f km fm t =
      Triple-bind (λ a s. P s × F a) m f (record { at = λ s h. both (m s) (km.at s h) (fm.at s h) })
        (λ a. record { at = λ s h. (t a h.1).at s h.0 })
    where
      both :
          (r : Result (A × S))
          → Ensures (λ x. P x.1) r
          → Ensures (λ x. F x.0) r
          → Ensures (λ x. P x.1 × F x.0) r
      both (ok _) p q = (p, q)
      both (err _) _ _ = tt

module _ {S A B : Type 0} where
  -- What the first part establishes and the second part keeps.
  pub Triple-then :
      {P R : S → Type 0} (m : Exec S A) (f : A → Exec S B)
      → Triple P m (λ _. R)
      → ((a : A) → Keeps R (f a))
      → Triple P (m >>= f) (λ _. R)
  Triple-then {R} m f t k = Triple-bind (λ _. R) m f t (λ a. Triple-Keeps (f a) (k a))

module _ {S A : Type 0} {P : S → Type 0} where
  pub Triple-pure : {Q : A → S → Type 0} (a : A) → ((s : S) → P s → Q a s) → Triple P (pure a) Q
  unfolding pure
  Triple-pure a h = record { at = h }

-- A run of a sequence that returns, in parts.
module _ {S A B : Type 0} (m : Exec S A) (f : A → Exec S B) (s : S) where
  pub bind-ok :
      {b : B} {t : S}
      → (m >>= f) s ≡ ok (b, t)
      → (a : A) × (s' : S) × (m s ≡ ok (a, s')) × (f a s' ≡ ok (b, t))
  unfolding ◌>>=◌
  bind-ok e = parts (m s) e
    where
      parts :
          {b : B} {t : S} (r : Result (A × S))
          → continue r f ≡ ok (b, t)
          → (a : A) × (s' : S) × (r ≡ ok (a, s')) × (f a s' ≡ ok (b, t))
      parts (ok (a, s')) h = (a, s', refl, h)
      parts (err _) h = cc

  pub bind-run :
      {a : A} {s' : S} {r : Result (B × S)} → m s ≡ ok (a, s') → f a s' ≡ r → (m >>= f) s ≡ r
  unfolding ◌>>=◌
  bind-run e h = rw e h

module _ {S A B : Type 0} where
  -- The same when the first part writes nothing.
  pub bind-same :
      (F : A → Type 0) (m : Exec S A) (f : A → Exec S B) (s : S)
      → ((a : A) (t : S) → m s ≡ ok (a, t) → F a × (t ≡ s))
      → {b : B} {t : S} → (m >>= f) s ≡ ok (b, t)
      → (a : A) × F a × (f a s ≡ ok (b, t))
  bind-same F m f s reads h =
      let (a, s', e, rest) = bind-ok m f s h in
      let (fact, same) = reads a s' e in (a, fact, ap (f a) (sym same) ∙ rest)

module _ {S A : Type 0} where
  pub expect-ok :
      (o : Option A) (e : String) (s : S) {a : A} {t : S}
      → expect o e s ≡ ok (a, t)
      → (o ≡ some a) × (t ≡ s)
  unfolding expect
  expect-ok none e s h = cc
  expect-ok (some a) e s h = ground arith

  pub expect-run :
      {o : Option A} {a : A} (e : String) (s : S) → o ≡ some a → expect o e s ≡ ok (a, s)
  unfolding expect
  expect-run e s h = rw h

module _ {S : Type 0} where
  pub require-ok :
      (b : Bool) (e : String) (s : S) {u : Unit {0}} {t : S}
      → require b e s ≡ ok (u, t)
      → (b ≡ true) × (t ≡ s)
  unfolding require
  require-ok true e s h = ground arith
  require-ok false e s h = cc
