-- ===== src/Relayer/Nonces.antt =====
-- The nonces of the relayer's transactions: omni-relayer/src/utils/nonce.rs. A node of the chain
-- answers what it likes: its answers are arguments. The number that a mutex guards is a state, so a
-- run is the sequence of the critical sections, in any order of the tasks.
pub mod Order
pub mod Resync
use omni_bridge.Prelude.{
  ℕ, String, zero, suc, ◌+◌, ◌%◌, ◌^◌, Option, none, some, List, [], ◌∷◌, ltb, if◌then◌else◌,
}
use omni_bridge.Prelude.Result.{Result, ok, err, ◌>>=◌}
use omni_bridge.Types.Chain.{ChainKind}

abbrev pub retry_attempts : ℕ
retry_attempts = 10

-- What the node of NEAR answers: an access key, something else, or an error of the call.
pub data NearAnswer : Type 0 where
  access_key : ℕ → NearAnswer
  other_kind : NearAnswer
  call_failed : NearAnswer

-- The loops of `get_current_nonce_near` and `get_current_nonce_evm`, from an attempt on.
unfoldable pub try_near : ℕ → ℕ → (ℕ → NearAnswer) → Result ℕ
try_near zero attempt answers = err "Failed to get current nonce"
try_near (suc left) attempt answers = elim (answers attempt) [
  | NearAnswer.access_key nonce ↦ ok (nonce + 1)
  | NearAnswer.other_kind ↦ try_near left (attempt + 1) answers
  | NearAnswer.call_failed ↦ err "call"
]

unfoldable pub try_evm : ℕ → ℕ → (ℕ → Option ℕ) → Result ℕ
try_evm zero attempt answers = err "Failed to get current nonce"
try_evm (suc left) attempt answers = elim (answers attempt) [
  | some nonce ↦ ok nonce
  | none ↦ try_evm left (attempt + 1) answers
]

abbrev pub get_current_nonce_near : (ℕ → NearAnswer) → Result ℕ
get_current_nonce_near answers = try_near retry_attempts 0 answers

abbrev pub get_current_nonce_evm : (ℕ → Option ℕ) → Result ℕ
get_current_nonce_evm answers = try_evm retry_attempts 0 answers

-- The critical section of `reserve_nonce`, with the nonce that the chain answered before: the nonce
-- that is reserved, and the local nonce after it. The release build wraps around.
unfoldable pub reserve_nonce : ℕ → ℕ → ℕ × ℕ
reserve_nonce current_nonce local_nonce =
    let nonce = if ltb local_nonce current_nonce then current_nonce else local_nonce in
    (nonce, (nonce + 1) % 2 ^ 64)

-- The nonces that a sequence of reservations gives, from the answers of the chain to each.
unfoldable pub reserve_all : List ℕ → ℕ → List ℕ
reserve_all [] local_nonce = []
reserve_all (c ∷ cs) local_nonce =
    let (reserved, next) = reserve_nonce c local_nonce in reserved ∷ reserve_all cs next

-- The managers of the five EVM chains, by their local nonces.
pub record EvmNonceManagers : Type 0 where
  pub eth : Option ℕ
  pub base : Option ℕ
  pub arb : Option ℕ
  pub bnb : Option ℕ
  pub pol : Option ℕ

-- `resync_nonce`, where there is a manager: its nonce afterwards, or `none` in place of a failure.
unfoldable pub resync_nonce : Option ℕ → Result ℕ → Result (Option ℕ)
resync_nonce none answer = ok none
resync_nonce (some _) (ok current_nonce) = ok (some current_nonce)
resync_nonce (some _) (err e) = err e

-- A step of `resync_nonces` and the steps after it. A failure ends it, with what is written so far.
abbrev pub sync :
    Result (Option ℕ)
    → EvmNonceManagers
    → (Option ℕ → EvmNonceManagers × Result (Unit {0}))
    → EvmNonceManagers × Result (Unit {0})
sync (ok nonce) m f = f nonce
sync (err e) m f = (m, err e)

-- `EvmNonceManagers::resync_nonces`, with the answer of each chain.
unfoldable pub resync_nonces :
    (ChainKind → Result ℕ) → EvmNonceManagers → EvmNonceManagers × Result (Unit {0})
resync_nonces answer m = sync (resync_nonce m.eth (answer ChainKind.eth)) m λ eth.
    let m1 = record m { eth = eth } in
    sync (resync_nonce m.base (answer ChainKind.base)) m1 λ base.
      let m2 = record m1 { base = base } in
      sync (resync_nonce m.arb (answer ChainKind.arb)) m2 λ arb.
        let m3 = record m2 { arb = arb } in
        sync (resync_nonce m.bnb (answer ChainKind.bnb)) m3 λ bnb. (record m3 { bnb = bnb }, ok tt)

-- `ok_or_else(..)?.reserve_nonce().await`, with the answer of the chain.
abbrev pub reserve_from : Option ℕ → Result ℕ → String → Result (ℕ × ℕ)
reserve_from none answer e = err e
reserve_from (some local) (ok current) e = ok (reserve_nonce current local)
reserve_from (some local) (err failed) e = err failed

-- `EvmNonceManagers::reserve_nonce`: the managers after it, and the nonce.
unfoldable pub reserve_for : ChainKind → Result ℕ → EvmNonceManagers → Result (EvmNonceManagers × ℕ)
reserve_for ChainKind.eth answer m =
    reserve_from m.eth answer "Eth nonce manager is not initialized" >>= λ r.
    ok (record m { eth = some r.1 }, r.0)
reserve_for ChainKind.base answer m =
    reserve_from m.base answer "Base nonce manager is not initialized" >>= λ r.
    ok (record m { base = some r.1 }, r.0)
reserve_for ChainKind.arb answer m =
    reserve_from m.arb answer "Arb nonce manager is not initialized" >>= λ r.
    ok (record m { arb = some r.1 }, r.0)
reserve_for ChainKind.bnb answer m =
    reserve_from m.bnb answer "Bnb nonce manager is not initialized" >>= λ r.
    ok (record m { bnb = some r.1 }, r.0)
reserve_for ChainKind.pol answer m =
    reserve_from m.pol answer "Pol nonce manager is not initialized" >>= λ r.
    ok (record m { pol = some r.1 }, r.0)
reserve_for _ answer m = err "Unsupported chain kind"
