-- ===== src/Exec/Keeps.antt =====
-- Conditions before and after a call, with a rule for each way to build one.
use omni_bridge.Prelude.{String, ◌≡◌, Bool, true, false, Option, none, some, if◌then◌else◌}
use omni_bridge.Prelude.Result.{Result, ok, err, Ensures, Ensures-ok}
use omni_bridge.Exec.{
  Exec, pure, panic, expect, unwrap, lift, gets, modify, require, skip, on_option, continue, ◌>>=◌,
}

-- From a state with `P`, the call panics or ends with `Q` of its value and its state.
pub record Triple {S A : Type 0} (P : S → Type 0) (m : Exec S A) (Q : A → S → Type 0) : Type 0 where
  pub at : (s : S) → P s → Ensures (λ r. Q r.0 r.1) (m s)

-- The call keeps `P`.
pub record Keeps {S A : Type 0} (P : S → Type 0) (m : Exec S A) : Type 0 where
  pub at : (s : S) → P s → Ensures (λ r. P r.1) (m s)

module _ {S : Type 0} {P : S → Type 0} where
  pub Keeps-require : (b : Bool) (e : String) → Keeps P (require b e)
  unfolding require
  Keeps-require true e = record { at = λ _ kept. kept }
  Keeps-require false e = record { at = λ _ _. tt }

  pub Keeps-skip : Keeps P skip
  unfolding skip
  Keeps-skip = record { at = λ _ kept. kept }

  pub Keeps-modify : (f : S → S) → ((s : S) → P s → P (f s)) → Keeps P (modify f)
  unfolding modify
  Keeps-modify f h = record { at = h }

module _ {S A : Type 0} {P : S → Type 0} where
  pub Keeps-if :
      (test : Bool) (first second : Exec S A)
      → Keeps P first
      → Keeps P second
      → Keeps P (if test then first else second)
  Keeps-if true first second kept _ = kept
  Keeps-if false first second _ kept = kept

  pub Keeps-unwrap : (o : Result A) (e : String) → Keeps P (unwrap o e)
  unfolding unwrap
  Keeps-unwrap (err _) e = record { at = λ _ _. tt }
  Keeps-unwrap (ok a) e = record { at = λ _ kept. kept }

  pub Keeps-panic : (e : String) → Keeps P (panic {A = A} e)
  unfolding panic
  Keeps-panic e = record { at = λ _ _. tt }

  pub Keeps-expect : (o : Option A) (e : String) → Keeps P (expect o e)
  unfolding expect
  Keeps-expect none e = record { at = λ _ _. tt }
  Keeps-expect (some a) e = record { at = λ _ kept. kept }

  pub Keeps-gets : (f : S → A) → Keeps P (gets f)
  unfolding gets
  Keeps-gets f = record { at = λ _ kept. kept }

  pub Keeps-lift : (o : Result A) → Keeps P (lift o)
  unfolding lift
  Keeps-lift (err _) = record { at = λ _ _. tt }
  Keeps-lift (ok a) = record { at = λ _ kept. kept }

  pub Keeps-pure : (a : A) → Keeps P (pure a)
  unfolding pure
  Keeps-pure a = record { at = λ _ kept. kept }

module _ {S A B : Type 0} {P : S → Type 0} where
  pub Keeps-option :
      (o : Option A) (n : Exec S B) (f : A → Exec S B)
      → Keeps P n
      → ((a : A) → Keeps P (f a))
      → Keeps P (on_option o n f)
  unfolding on_option
  Keeps-option none n f kn kf = kn
  Keeps-option (some a) n f kn kf = kf a

module _ {S A B : Type 0} where
  continue-Ensures :
      (P : A → S → Type 0) (Q : B → S → Type 0) (f : A → Exec S B)
      → ((a : A) → Triple (P a) (f a) Q)
      → (r : Result (A × S)) → Ensures (λ x. P x.0 x.1) r
      → Ensures (λ x. Q x.0 x.1) (continue r f)
  continue-Ensures P Q f k (ok (a, s)) h = (k a).at s h
  continue-Ensures P Q f k (err e) h = tt

  pub Triple-bind :
      {P : S → Type 0} (Q : A → S → Type 0) {R : B → S → Type 0} (m : Exec S A) (f : A → Exec S B)
      → Triple P m Q
      → ((a : A) → Triple (Q a) (f a) R)
      → Triple P (m >>= f) R
  unfolding ◌>>=◌
  Triple-bind Q {R} m f t k = record { at = λ s h. continue-Ensures Q R f k (m s) (t.at s h) }

  pub Keeps-bind :
      {P : S → Type 0} (m : Exec S A) (f : A → Exec S B)
      → Keeps P m
      → ((a : A) → Keeps P (f a))
      → Keeps P (m >>= f)
  unfolding ◌>>=◌
  Keeps-bind {P} m f km kf = record {
    at = λ s h.
        continue-Ensures (λ _. P) (λ _. P) f (λ a. record { at = (kf a).at }) (m s) (km.at s h);
  }

module _ {S A : Type 0} where
  pub Triple-Keeps : {P : S → Type 0} (m : Exec S A) → Keeps P m → Triple P m (λ _. P)
  Triple-Keeps m k = record { at = k.at }

  -- A condition after the call, read off a run that returned.
  pub Triple-ok :
      {P : S → Type 0} {Q : A → S → Type 0} {m : Exec S A} (s : S) {a : A} {t : S}
      → Triple P m Q
      → P s
      → m s ≡ ok (a, t)
      → Q a t
  Triple-ok {Q} {m} s h p e = Ensures-ok (λ r. Q r.0 r.1) (m s) (h.at s p) e

  -- What holds of a run that cannot end: it panics.
  Panics : Result (A × S) → Type 0
  Panics (ok _) = ⊥
  Panics (err _) = Unit

pub ruleset keeps_rules = (
  Keeps-pure, Keeps-panic, Keeps-expect, Keeps-unwrap, Keeps-lift, Keeps-gets, Keeps-if,
  Keeps-require, Keeps-skip, Keeps-bind, Keeps-option,
)
