-- ===== src/Relayer/Rules.antt =====
-- Conditions on the state and the result of a task, with a rule for each way to build one.
use omni_bridge.Prelude.{ℕ, ◌+◌, ◌%◌, ◌^◌, ◌≡◌, refl, String, Bool, true, false, if◌then◌else◌}
use omni_bridge.Prelude.Result.{Result, ok, err}
use omni_bridge.Relayer.Events.{EventAction}
use omni_bridge.Relayer.Nonces.{reserve_nonce}
use omni_bridge.Relayer.Services.{Services, SdkResult, SdkError, Ask}
use omni_bridge.Relayer.Task.{
  State, Task, pure, bail, lift, continue, or_return, or_action, ◌>>=◌, ask, reserve_near_nonce,
  take_near_nonce,
}
use omni_bridge.Relayer.Workers.Common.{retry_or_bail, unless_finalised, on_answer}

-- From a state with `P`, the task ends with `Q` of its result and its state.
pub record Ends {S A : Type 0} (P : S → Type 0) (m : Task S A) (Q : Result A → S → Type 0)
    : Type 0 where
  pub at : (s : S) → P s → Q (m s).0 (m s).1

-- The task keeps `P`, also when it fails.
module _ {S A : Type 0} where
  abbrev pub Keeps : (S → Type 0) → Task S A → Type 0
  Keeps P m = Ends P m (λ _. P)

module _ {S A B : Type 0} {P : S → Type 0} where
  continue-Ends :
      {Q : Result B → S → Type 0} (f : A → Task S B)
      → ((e : String) (s : S) → P s → Q (err e) s)
      → ((a : A) → Ends P (f a) Q)
      → (r : Result A × S) → P r.1
      → Q (continue r f).0 (continue r f).1
  continue-Ends f refuse k (ok a, s) p = (k a).at s p
  continue-Ends f refuse k (err e, s) p = refuse e s p

  -- A step that keeps `P`, and the rest of the task.
  pub Ends-bind :
      {Q : Result B → S → Type 0} (m : Task S A) (f : A → Task S B)
      → ((e : String) (s : S) → P s → Q (err e) s)
      → Keeps P m
      → ((a : A) → Ends P (f a) Q)
      → Ends P (m >>= f) Q
  unfolding ◌>>=◌
  Ends-bind {Q} m f refuse keep k = record {
    at = λ s p. continue-Ends {Q = Q} f refuse k (m s) (keep.at s p);
  }

  -- A step with a condition of its own, and the rest of the task.
  pub Ends-seq :
      (R : Result A → S → Type 0) {Q : Result B → S → Type 0} (m : Task S A) (f : A → Task S B)
      → Ends P m R
      → ((e : String) (s : S) → R (err e) s → Q (err e) s)
      → ((a : A) → Ends (R (ok a)) (f a) Q)
      → Ends P (m >>= f) Q
  unfolding ◌>>=◌
  Ends-seq R {Q} m f first refuse k = record { at = λ s p. after (m s) (first.at s p) }
    where
      after : (r : Result A × S) → R r.0 r.1 → Q (continue r f).0 (continue r f).1
      after (ok a, s) q = (k a).at s q
      after (err e, s) q = refuse e s q

  pub Keeps-bind :
      (m : Task S A) (f : A → Task S B) → Keeps P m → ((a : A) → Keeps P (f a)) → Keeps P (m >>= f)
  Keeps-bind m f keep k = Ends-bind m f (λ _ s p. p) keep k

module _ {S A : Type 0} {P : S → Type 0} where
  pub Keeps-pure : (a : A) → Keeps P (pure a)
  unfolding pure
  Keeps-pure a = record { at = λ s p. p }

  pub Keeps-lift : (r : Result A) → Keeps P (lift r)
  unfolding lift
  Keeps-lift r = record { at = λ s p. p }

  pub Keeps-bail : (e : String) → Keeps P (bail {A = A} e)
  unfolding bail
  Keeps-bail e = record { at = λ s p. p }

  pub Keeps-if : (b : Bool) (m n : Task S A) → Keeps P m → Keeps P n → Keeps P (if b then m else n)
  Keeps-if true m n km kn = km
  Keeps-if false m n km kn = kn

-- A condition on Redis alone.
pub record OnDb {services : Services} (R : services.Db → Type 0) (s : State services) : Type 0 where
  pub at : R s.db

-- A condition on Redis and on the local nonce, after a step that changes the world outside.
module _ (services : Services) (R : services.Db → ℕ → Type 0) where
  abbrev pub OnNonce : State services → Type 0
  OnNonce s = R s.db s.near_omni_nonce

  -- A client gave this answer, and nothing was asked of one since.
  abbrev pub Told : {A : Type 0} → Ask services.Net A → Result A → State services → Type 0
  Told call (ok answer) s =
      (net : services.Net) × ((call net).0 ≡ answer) × (s.net ≡ (call net).1) × OnNonce s
  Told call (err e) s = ⊥

  pub Ends-ask :
      {A : Type 0} (call : Ask services.Net A) → Ends OnNonce (ask services call) (Told call)
  unfolding ask
  Ends-ask call = record { at = λ s p. (s.net, refl, refl, p) }

module _ (services : Services) {R : services.Db → Type 0} where
  pub Keeps-ask :
      {A : Type 0} (call : Ask services.Net A)
      → Keeps (OnDb {services = services} R) (ask services call)
  unfolding ask
  Keeps-ask call = record { at = λ s p. record { at = p.at } }

  Keeps-take_near_nonce :
      (n : ℕ) → Keeps (OnDb {services = services} R) (take_near_nonce services n)
  unfolding take_near_nonce
  Keeps-take_near_nonce n = record { at = λ s p. record { at = p.at } }

  pub Keeps-reserve_near_nonce : Keeps (OnDb {services = services} R) (reserve_near_nonce services)
  unfolding reserve_near_nonce
  Keeps-reserve_near_nonce = search (Keeps-bind, Keeps-ask, Keeps-lift, Keeps-take_near_nonce)

-- The local nonce is the one after this, which was reserved.
abbrev pub IsReserved : ℕ → ℕ → Type 0
IsReserved nonce local_nonce = local_nonce ≡ (nonce + 1) % 2 ^ 64

module _ (services : Services) (R : services.Db → Type 0) where
  abbrev pub Reserved : Result ℕ → State services → Type 0
  Reserved (ok nonce) s = IsReserved nonce s.near_omni_nonce × R s.db
  Reserved (err e) s = R s.db

  pub Ends-reserve_near_nonce :
      Ends (OnDb {services = services} R) (reserve_near_nonce services) Reserved
  unfolding reserve_near_nonce take_near_nonce reserve_nonce
  Ends-reserve_near_nonce =
      Ends-bind _ _ (λ e s p. p.at) (Keeps-ask services _)
        λ answers.
          Ends-bind _ _ (λ e s p. p.at) (Keeps-lift _)
            λ current. record { at = λ s p. (refl, p.at) }

-- The handlers: what holds of an error, and of an event to be tried again, is shared by all steps.
module _ {S : Type 0} {P : S → Type 0} {Q : Result EventAction → S → Type 0}
    (refuse : (e : String) (s : S) → P s → Q (err e) s)
    (again : (s : S) → P s → Q (ok EventAction.retry) s) where
  pub Ends-bail : (e : String) → Ends P (bail e) Q
  unfolding bail
  Ends-bail e = record { at = refuse e }

  pub Ends-retry : Ends P (pure EventAction.retry) Q
  unfolding pure
  Ends-retry = record { at = again }

  pub Ends-retry_or_bail : (b : Bool) (e : String) → Ends P (retry_or_bail b e) Q
  unfolding retry_or_bail
  Ends-retry_or_bail true e = Ends-retry
  Ends-retry_or_bail false e = Ends-bail e

  module _ {A : Type 0} where
    pub Ends-or_return :
        (r : SdkResult A) (f : A → Task S EventAction)
        → ((a : A) → Ends P (f a) Q)
        → Ends P (or_return r EventAction.retry f) Q
    unfolding or_return
    Ends-or_return (SdkResult.ok a) f k = k a
    Ends-or_return (SdkResult.err e) f k = Ends-retry

    pub Ends-or_action :
        (r : Result A) (f : A → Task S EventAction)
        → ((a : A) → Ends P (f a) Q)
        → Ends P (or_action r EventAction.retry f) Q
    unfolding or_action
    Ends-or_action (ok a) f k = k a
    Ends-or_action (err e) f k = Ends-retry

  pub Ends-unless_finalised :
      (r : SdkResult Bool) (e : String) (rest : Task S EventAction)
      → Ends P rest Q
      → Ends P (unless_finalised r e rest) Q
  unfolding unless_finalised
  Ends-unless_finalised (SdkResult.ok true) e rest k = Ends-bail e
  Ends-unless_finalised (SdkResult.ok false) e rest k = k
  Ends-unless_finalised (SdkResult.err _) e rest k = Ends-retry

pub Ends-on_answer :
    {S A : Type 0} {P : S → Type 0} {Q : Result EventAction → S → Type 0} (r : SdkResult A)
    (accepted : A → Task S EventAction) (failed : SdkError → Task S EventAction)
    → ((a : A) → Ends P (accepted a) Q)
    → ((e : SdkError) → Ends P (failed e) Q)
    → Ends P (on_answer r accepted failed) Q
unfolding on_answer
Ends-on_answer (SdkResult.ok a) accepted failed ka kf = ka a
Ends-on_answer (SdkResult.err e) accepted failed ka kf = kf e
