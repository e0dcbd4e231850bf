-- ===== src/Relayer/Task.antt =====
-- A task of the relayer: it changes the state step by step and may end with an error, which does
-- not take back what it did before.
use omni_bridge.Prelude.{ℕ, String, Option, none, some}
use omni_bridge.Prelude.Result.{Result, ok, err}
use omni_bridge.Types.Chain.{ChainKind}
use omni_bridge.Relayer.Events.{EventAction, Timestamp}
use omni_bridge.Relayer.Nonces.{
  EvmNonceManagers, get_current_nonce_near, get_current_nonce_evm, reserve_nonce, reserve_for,
}
use omni_bridge.Relayer.Services.{Services, SdkResult, Ask}

-- The world outside, Redis, and the local nonces of the managers.
pub record State (services : Services) : Type 0 where
  pub net : services.Net
  pub db : services.Db
  pub near_omni_nonce : ℕ
  pub near_fast_nonce : Option ℕ
  pub evm_nonces : EvmNonceManagers

module _ (S : Type 0) where
  abbrev pub Task : Type 0 → Type 0
  Task A = S → Result A × S

module _ {S A : Type 0} where
  unfoldable pub pure : A → Task S A
  pure a s = (ok a, s)

  -- `anyhow::bail!`; the arguments of the message are left out.
  unfoldable pub bail : String → Task S A
  bail e s = (err e, s)

  -- `result?`
  unfoldable pub lift : Result A → Task S A
  lift r s = (r, s)

module _ {S A B : Type 0} where
  abbrev pub continue : Result A × S → (A → Task S B) → Result B × S
  continue (ok a, s) f = f a s
  continue (err e, s) f = (err e, s)

  infixl 10 ◌>>=◌ ◌>>◌
  unfoldable pub ◌>>=◌ : Task S A → (A → Task S B) → Task S B
  unfolding pure bail lift
  ◌>>=◌ m f s = continue (m s) f

  abbrev pub ◌>>◌ : Task S A → Task S B → Task S B
  m >> n = m >>= λ _. n

module _ {S A : Type 0} where
  -- `let Ok(a) = result else { return Ok(action) };` and the rest of the function.
  unfoldable pub or_return :
      SdkResult A → EventAction → (A → Task S EventAction) → Task S EventAction
  or_return (SdkResult.ok a) action f = f a
  or_return (SdkResult.err _) action f = pure action

  -- The same for the other results.
  unfoldable pub or_action : Result A → EventAction → (A → Task S EventAction) → Task S EventAction
  or_action (ok a) action f = f a
  or_action (err _) action f = pure action

  -- `result?`, of a client.
  unfoldable pub lift_sdk : SdkResult A → Task S A
  lift_sdk (SdkResult.ok a) = pure a
  lift_sdk (SdkResult.err _) = bail "bridge sdk error"

  -- `result.context(..)?` of an `Option`.
  unfoldable pub or_bail : Option A → String → Task S A
  or_bail none e = bail e
  or_bail (some a) e = pure a

module _ (services : Services) where
  abbrev pub Job : Type 0 → Type 0
  Job = Task (State services)

  unfoldable pub ask : {A : Type 0} → Ask services.Net A → Job A
  ask call s = let (answer, net) = call s.net in (ok answer, record s { net = net })

  abbrev pub timestamp : Job Timestamp
  timestamp = ask services.now

  -- The critical section of `near_omni_nonce.reserve_nonce()`, and the request before it.
  unfoldable pub take_near_nonce : ℕ → Job ℕ
  take_near_nonce current s =
      let (reserved, next) = reserve_nonce current s.near_omni_nonce in
      (ok reserved, record s { near_omni_nonce = next })

  unfoldable pub reserve_near_nonce : Job ℕ
  reserve_near_nonce = do
    answers ← ask services.near_answers
    current ← lift (get_current_nonce_near answers)
    take_near_nonce current

  store_nonces : State services → Result (EvmNonceManagers × ℕ) → Result ℕ × State services
  store_nonces s (ok (managers, reserved)) = (ok reserved, record s { evm_nonces = managers })
  store_nonces s (err e) = (err e, s)

  -- `evm_nonces.reserve_nonce(chain_kind)`, from the answers of the chain on.
  unfoldable pub take_evm_nonce : ChainKind → (ℕ → Option ℕ) → Job ℕ
  unfolding store_nonces
  take_evm_nonce chain_kind answers s =
      store_nonces s (reserve_for chain_kind (get_current_nonce_evm answers) s.evm_nonces)

  unfoldable pub reserve_evm_nonce : ChainKind → Job ℕ
  reserve_evm_nonce chain_kind = do
    answers ← ask (services.evm_answers chain_kind)
    take_evm_nonce chain_kind answers
