-- ===== src/Bridge/Claim/Once.antt =====
-- The pending transfers under `claim_fee_callback` of near/omni-bridge/src/lib.rs.
use omni_bridge.Prelude.{ℕ, String, ◌≡◌, sym, ap, ◌∙◌, true, Option, none, some}
use omni_bridge.Prelude.Equality.{◌==◌, beq_true, string_eq, option_eq}
use omni_bridge.Prelude.Maps.{remove, remove_self}
use omni_bridge.Prelude.Result.{ok, Ensures-ok}
use omni_bridge.Types.Codecs.{AccountId}
use omni_bridge.Types.Address.{OmniAddress, address_eq, get_chain}
use omni_bridge.Types.Transfer.{
  TransferId, TransferMessage, FastTransferId, FastTransferStatus, UnifiedTransferId,
  transfer_id_eq,
}
use omni_bridge.Types.Messages.{FinTransferMessage, ProverResult}
use omni_bridge.Types.Stored.{TransferMessageStorage, into_main}
use omni_bridge.Host.{Env, Returned}
use omni_bridge.Exec.{◌>>=◌}
use omni_bridge.Exec.Keeps.{Keeps}
use omni_bridge.Exec.Triples.{bind-ok, expect-ok, require-ok}
use omni_bridge.Bridge.State.{Contract, State, update}
use omni_bridge.Bridge.Guards.{is_private}
use omni_bridge.Bridge.Balances.{credit, set_balance}
use omni_bridge.Bridge.Records.{
  get_fast_transfer_status, remove_transfer_message, remove_fast_transfer,
}
use omni_bridge.Bridge.Fin.{check_factory}
use omni_bridge.Bridge.Claim.{
  fee_left, fin_transfer_proof, drop_finalised, close_fast_transfer, send_native_fee,
  send_fee_internal, claim_fee_callback,
}
use omni_bridge.Bridge.Runs.{bind-read, view-ok, ok-pair, pure-ok}
use omni_bridge.Bridge.Frame.{On, frame_rules}
use omni_bridge.Bridge.Frame.Calls.{
  Keeps-get_token_id, Keeps-get_decimals, Keeps-denormalize_amount, Keeps-get_native_token_id,
}

abbrev IsGone : TransferId → Contract → Type 0
IsGone id c = c.pending_transfers id ≡ none

module _ (id : TransferId) where
  Keeps-credit-IsGone : (a : AccountId) (n : ℕ) → Keeps (On (IsGone id)) (credit a n)
  unfolding credit set_balance
  Keeps-credit-IsGone a n = search (frame_rules) depth 7

  Keeps-remove_fast_transfer-IsGone :
      (env : Env) (f : FastTransferId) → Keeps (On (IsGone id)) (remove_fast_transfer env f)
  unfolding remove_fast_transfer
  Keeps-remove_fast_transfer-IsGone env f = search (frame_rules, Keeps-credit-IsGone) depth 7

  Keeps-drop_finalised :
      (env : Env) (f : FastTransferId) (o : Option FastTransferStatus)
      → Keeps (On (IsGone id)) (drop_finalised env f o)
  unfolding drop_finalised
  Keeps-drop_finalised env f none = search frame_rules
  Keeps-drop_finalised env f (some s) = search (frame_rules, Keeps-remove_fast_transfer-IsGone)

  Keeps-close_fast_transfer :
      (env : Env) (m : TransferMessage) (o : Option UnifiedTransferId)
      → Keeps (On (IsGone id)) (close_fast_transfer env m o)
  unfolding close_fast_transfer get_fast_transfer_status
  Keeps-close_fast_transfer env m none = search frame_rules
  Keeps-close_fast_transfer env m (some o) =
      search (frame_rules, Keeps-get_token_id, Keeps-drop_finalised)

  Keeps-fee_left :
      (env : Env) (m : TransferMessage) (n : ℕ) → Keeps (On (IsGone id)) (fee_left env m n)
  unfolding fee_left
  Keeps-fee_left env m n =
      search (frame_rules, Keeps-get_token_id, Keeps-get_decimals, Keeps-denormalize_amount) depth 8

  Keeps-send_native_fee :
      (env : Env) (m : TransferMessage) (a : AccountId)
      → Keeps (On (IsGone id)) (send_native_fee env m a)
  unfolding send_native_fee
  Keeps-send_native_fee env m a = search (frame_rules, Keeps-get_native_token_id) depth 8

  Keeps-send_fee_internal :
      (env : Env) (m : TransferMessage) (a : AccountId) (n : ℕ)
      → Keeps (On (IsGone id)) (send_fee_internal env m a n)
  unfolding send_fee_internal
  Keeps-send_fee_internal env m a n =
      search (frame_rules, Keeps-get_token_id, Keeps-send_native_fee) depth 8

removed :
    (id : TransferId) (s : State) {u : Unit {0}} {t : State}
    → update (λ c. record c { pending_transfers = remove id c.pending_transfers }) s ≡ ok (u, t)
    → t.pending_transfers id ≡ none
unfolding update ◌>>=◌
removed id s e = rw (← (ok-pair e).1) (remove_self id s.pending_transfers)

is_private-ok :
    (env : Env) (s : State) (u : Unit {0}) (t : State)
    → is_private env s ≡ ok (u, t)
    → (t ≡ s) × Unit {0}
unfolding is_private
is_private-ok env s u t e = ((require-ok (env.predecessor == env.current) _ s e).1, tt)

proof-ok :
    (env : Env) (p : FinTransferMessage) (s : State) (a : FinTransferMessage) (t : State)
    → fin_transfer_proof env (some (ProverResult.fin_transfer p)) s ≡ ok (a, t)
    → (t ≡ s) × (p ≡ a)
unfolding fin_transfer_proof ◌>>=◌
proof-ok env p s a t e = let (x, y) = ok-pair e in (sym y, x)

check_factory-ok :
    (a : OmniAddress) (e : String) (s : State) (u : Unit {0}) (t : State)
    → check_factory a e s ≡ ok (u, t)
    → (t ≡ s) × (s.factories (get_chain a) ≡ some a)
unfolding check_factory
check_factory-ok a e s u t h =
    let (found, is_found, h1) = bind-read _ _ _ s (view-ok (λ c. c.factories (get_chain a)) s) h in
    let (same, unchanged) = require-ok (found == some a) e s h1 in
    (unchanged, is_found ∙ beq_true found (some a) same)

-- What the callback does after the removal.
Keeps-claim_rest :
    (id : TransferId) (env : Env) (m : TransferMessage) (a : AccountId) (n : ℕ)
    → Keeps (On (IsGone id)) (
        close_fast_transfer env m m.origin_transfer_id >>= λ _.
        fee_left env m n >>= λ fee. send_fee_internal env m a fee)
Keeps-claim_rest id env m a n =
    search (frame_rules, Keeps-close_fast_transfer, Keeps-fee_left, Keeps-send_fee_internal)

-- What is removed was there, and is gone.
remove_transfer_message-ok :
    (env : Env) (id : TransferId) (s : State) {m : TransferMessage} {t : State}
    → remove_transfer_message env id s ≡ ok (m, t)
    → (v : TransferMessageStorage) × (s.pending_transfers id ≡ some v)
      × ((into_main v).message ≡ m)
      × (t.pending_transfers id ≡ none)
unfolding remove_transfer_message
remove_transfer_message-ok env id s h =
    let (found, is_found, h1) = bind-read _ _ _ s (view-ok (λ c. c.pending_transfers id) s) h in
    let (v, is_v, h2) =
      bind-read (λ a. found ≡ some a) _ _ s (λ a t e. let (x, y) = expect-ok found _ s e in (y, x))
        h1 in
    let (_, s1, e1, h3) = bind-ok _ _ s h2 in
    let (_, s2, e2, h4) = bind-ok _ _ s1 h3 in
    let (value, same) = pure-ok h4 in
    let gone = (Keeps-credit-IsGone id _ _).at s1 (record { at = removed id s e1 }) in
    (v, is_found ∙ is_v, value, rw (← same) (Ensures-ok _ _ gone e2).at)

-- A fee is claimed by its recipient, for a transfer that is still pending, and then the transfer is
-- pending no more. `p` is the prover's message.
pub claim_fee_callback-once :
    (env : Env) (caller : AccountId) (p : FinTransferMessage) (s : State) {r : Returned Unit}
    {t : State}
    → claim_fee_callback env caller (some (ProverResult.fin_transfer p)) s ≡ ok (r, t)
    → (p.fee_recipient ≡ some caller)
      × (s.factories (get_chain p.emitter_address) ≡ some p.emitter_address)
      × ((v : TransferMessageStorage) × (s.pending_transfers p.transfer_id ≡ some v))
      × (t.pending_transfers p.transfer_id ≡ none)
unfolding claim_fee_callback
claim_fee_callback-once env caller p s h =
    let (_, _, h1) = bind-read (λ _. Unit) _ _ s (is_private-ok env s) h in
    let (q, is_q, h2) = bind-read _ _ _ s (proof-ok env p s) h1 in
    let (recipient, is_recipient, h3) =
      bind-read (λ a. q.fee_recipient ≡ some a) _ _ s
        (λ a t e. let (x, y) = expect-ok q.fee_recipient _ s e in (y, x)) h2 in
    let (_, is_caller, h4) =
      bind-read (λ _. (recipient == caller) ≡ true) _ _ s
        (λ a t e. let (x, y) = require-ok (recipient == caller) _ s e in (y, x)) h3 in
    let (_, factory, h5) = bind-read _ _ _ s (check_factory-ok q.emitter_address _ s) h4 in
    let (m, s1, e1, h6) = bind-ok (remove_transfer_message env q.transfer_id) _ s h5 in
    let (v, pending, _, gone) = remove_transfer_message-ok env q.transfer_id s e1 in
    let after =
      Ensures-ok _ _
        ((Keeps-claim_rest q.transfer_id env m recipient q.amount).at s1 (record { at = gone }))
        h6 in
    (
      rw is_q (is_recipient ∙ ap some (beq_true recipient caller is_caller)),
      rw is_q factory,
      rw is_q (v, pending),
      rw is_q after.at,
    )
