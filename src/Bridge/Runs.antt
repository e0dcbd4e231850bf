-- ===== src/Bridge/Runs.antt =====
-- Runs of the contract's actions in parts: look-ups, checks and writes.
use omni_bridge.Prelude.{
  ℕ, String, Bool, true, false, ◌-◌, ◌≤◌, ◌≡◌, refl, ◌∙◌, Option, some, arith,
}
use omni_bridge.Prelude.Words.{checked_sub}
use omni_bridge.Prelude.Result.{Result, ok}
use omni_bridge.Exec.{expect, require, pure, ◌>>=◌}
use omni_bridge.Exec.Triples.{bind-ok, expect-ok, expect-run}
use omni_bridge.Bridge.State.{Contract, State, Action, view}

-- A run from a state that is another one.
pub at_state : {A : Type 0} (f : State → A) {s t : State} {r : A} → t ≡ s → f t ≡ r → f s ≡ r
at_state f e h = rw (← e) h

pub checked_sub-some : (a b : ℕ) {c : ℕ} → checked_sub a b ≡ some c → (b ≤ a) × (c ≡ a - b)
checked_sub-some a b h = ground arith

-- The parts of a sequence that returns and whose first part writes nothing.
pub bind-read :
    {A B : Type 0} (F : A → Type 0) (m : Action A) (k : A → Action B) (s : State)
    → ((a : A) (t : State) → m s ≡ ok (a, t) → (t ≡ s) × F a)
    → {b : B} {s' : State} → (m >>= k) s ≡ ok (b, s')
    → (a : A) × F a × (k a s ≡ ok (b, s'))
bind-read F m k s reads h =
    let (a, t, e, rest) = bind-ok m k s h in
    let (unchanged, fact) = reads a t e in (a, fact, at_state (k a) unchanged rest)

pub view-ok :
    {V : Type 0} (read : Contract → V) (s : State) (v : V) (t : State)
    → view read s ≡ ok (v, t)
    → (t ≡ s) × (read s.contract ≡ v)
unfolding view ◌>>=◌
view-ok read s v t h = ground arith

pub view-run :
    {V : Type 0} (read : Contract → V) (s : State) → view read s ≡ ok (read s.contract, s)
unfolding view ◌>>=◌
view-run read s = refl

pub checked_sub-le : (a b : ℕ) → b ≤ a → checked_sub a b ≡ some (a - b)
checked_sub-le a b h = ground arith

pub checked_pure-ok :
    {A : Type 0} (b : Bool) (e : String) (v : A) (s : State) {w : A} {t : State}
    → (require b e >>= λ _. pure v) s ≡ ok (w, t)
    → (b ≡ true) × (v ≡ w)
unfolding ◌>>=◌
checked_pure-ok true e v s h = ground arith
checked_pure-ok false e v s h = cc

-- A look-up that succeeds in one state, in another state with the same entry.
pub look_up-same :
    {V : Type 0} (read : Contract → Option V) (e : String) (s t : State) {v : V} {s' : State}
    → read t.contract ≡ read s.contract
    → (view read >>= λ found. expect found e) s ≡ ok (v, s')
    → (s' ≡ s)
      × (read s.contract ≡ some v)
      × ((view read >>= λ found. expect found e) t ≡ ok (v, t))
unfolding view ◌>>=◌
look_up-same read e s t {v} same h =
    let (found, unchanged) = expect-ok (read s.contract) e s h in
    (unchanged, found, expect-run e t (same ∙ found))

pub ok-pair :
    {A : Type 0} {a b : A} {s t : State}
    → ◌≡◌ {A = Result (A × State)} (ok (a, s)) (ok (b, t))
    → (a ≡ b) × (s ≡ t)
ok-pair h = ground arith

pub pure-ok : {A : Type 0} {a b : A} {s t : State} → pure a s ≡ ok (b, t) → (a ≡ b) × (s ≡ t)
unfolding ◌>>=◌
pure-ok h = ok-pair h
