-- ===== src/Bridge/Init/Fees.antt =====
-- The change of the fee of a pending transfer: `update_transfer_fee` of
-- near/omni-bridge/src/lib.rs.
use omni_bridge.Prelude.{
  ℕ, String, List, [], ◌∷◌, ◌++◌, ◌+◌, ◌≤◌, ◌<◌, ◌≡◌, refl, ◌∙◌, Bool, true, ◌&&◌, ◌||◌, ◌⊎◌, inl,
  inr, Option, none, some, arith, leb, ltb, nat_beq,
}
use omni_bridge.Prelude.Equality.{◌==◌, beq_true}
use omni_bridge.Prelude.Maps.{insert_self}
use omni_bridge.Prelude.Words.{checked_sub}
use omni_bridge.Prelude.Result.{ok}
use omni_bridge.Types.Codecs.{AccountId}
use omni_bridge.Types.Address.{OmniAddress, address_eq}
use omni_bridge.Types.Transfer.{TransferId, TransferMessage, Fee, get_transfer_id, transfer_id_eq}
use omni_bridge.Types.Messages.{UpdateFee, OmniBridgeEvent}
use omni_bridge.Types.Stored.{TransferMessageStorage, TransferMessageStorageValue, into_main}
use omni_bridge.Host.{Env, Role}
use omni_bridge.Exec.{◌>>=◌}
use omni_bridge.Exec.Triples.{expect-ok, require-ok}
use omni_bridge.Bridge.State.{State, update, view, log_event}
use omni_bridge.Bridge.Guards.{pause_except}
use omni_bridge.Bridge.Runs.{bind-read, view-ok, ok-pair, checked_sub-some}
use omni_bridge.Bridge.Records.{lookup_message, insert_raw_transfer, get_transfer_message_storage}
use omni_bridge.Bridge.Init.{set_fee, update_transfer_fee}

-- What an accepted change of the fee obeys.
pub record IsFeeChange (env : Env) (old : TransferMessage) (fee : Fee) : Type 0 where
  pub not_lower : old.fee.fee ≤ fee.fee
  pub less_than_amount : fee.fee < old.amount
  pub paid : old.fee.native_fee + env.attached_deposit ≡ fee.native_fee
  pub by_sender : (fee.fee ≡ old.fee.fee) ⊎ (OmniAddress.near env.predecessor ≡ old.sender)

fee_bounds : (a b n : ℕ) → (leb a b && ltb b n) ≡ true → (a ≤ b) × (b < n)
fee_bounds a b n h = ground arith

same_or : (a b : ℕ) (c : Bool) → (nat_beq a b || c) ≡ true → (a ≡ b) ⊎ (c ≡ true)
same_or a b c h = ground arith

equal_numbers : (a b : ℕ) → nat_beq a b ≡ true → a ≡ b
equal_numbers a b h = ground arith

stored-ok :
    (env : Env) (m : TransferMessage) (owner : AccountId) (e : OmniBridgeEvent) (s : State)
    {u : Unit {0}} {t : State}
    → (insert_raw_transfer m owner >>= λ _. log_event e) s ≡ ok (u, t)
    → (t.pending_transfers (get_transfer_id m)
        ≡ some (TransferMessageStorage.v2 (record { message = m; owner = owner })))
      × (t.events ≡ s.events ++ e ∷ [])
unfolding insert_raw_transfer ◌>>=◌ update view log_event
stored-ok env m owner e s h =
    let (_, same) = ok-pair h in
    (rw (← same) (insert_self (get_transfer_id m) _ s.pending_transfers), rw (← same) refl)

set_fee-ok :
    (env : Env) (v : TransferMessageStorageValue) (fee : Fee) (s : State) {u : Unit {0}} {t : State}
    → set_fee env v fee s ≡ ok (u, t)
    → IsFeeChange env v.message fee
      × (t.pending_transfers (get_transfer_id (record v.message { fee = fee }))
          ≡ some (
              TransferMessageStorage.v2
                (record { message = record v.message { fee = fee }; owner = v.owner })))
      × (t.events
          ≡ s.events ++ OmniBridgeEvent.update_fee_event (record v.message { fee = fee }) ∷ [])
unfolding set_fee
set_fee-ok env v fee s h =
    let m = v.message in
    let (_, bounds, h1) =
      bind-read (λ _. (leb m.fee.fee fee.fee && ltb fee.fee m.amount) ≡ true) _ _ s
        (λ a t r. let (x, y) = require-ok _ _ s r in (y, x)) h in
    let (_, sender, h2) =
      bind-read
        (λ _. (nat_beq fee.fee m.fee.fee || OmniAddress.near env.predecessor == m.sender) ≡ true) _
        _ s (λ a t r. let (x, y) = require-ok _ _ s r in (y, x)) h1 in
    let (diff, is_diff, h3) =
      bind-read (λ d. checked_sub fee.native_fee m.fee.native_fee ≡ some d) _ _ s
        (λ a t r. let (x, y) = expect-ok _ _ s r in (y, x)) h2 in
    let (_, deposit, h4) =
      bind-read (λ _. nat_beq diff env.attached_deposit ≡ true) _ _ s
        (λ a t r. let (x, y) = require-ok _ _ s r in (y, x)) h3 in
    let (low, high) = fee_bounds m.fee.fee fee.fee m.amount bounds in
    let (le, eq) = checked_sub-some fee.native_fee m.fee.native_fee is_diff in
    let (stored, logged) = stored-ok env (record m { fee = fee }) v.owner _ s h4 in
    (
      record {
        not_lower = low;
        less_than_amount = high;
        paid = omega (arith, le, eq, equal_numbers diff env.attached_deposit deposit);
        by_sender = elim (same_or fee.fee m.fee.fee _ sender) [
          | inl e ↦ inl e
          | inr e ↦ inr (beq_true (OmniAddress.near env.predecessor) m.sender e)
        ];
      },
      stored,
      logged,
    )

some_injective : {A : Type 0} {a b : A} → some a ≡ some b → a ≡ b
some_injective h = cc

looked_up :
    (o : Option TransferMessageStorage) {v : TransferMessageStorageValue}
    → lookup_message o ≡ some v
    → (stored : TransferMessageStorage) × (o ≡ some stored) × (into_main stored ≡ v)
looked_up none h = cc
looked_up (some stored) h = (stored, refl, some_injective h)

found_message-ok :
    (id : TransferId) (s : State) (v : TransferMessageStorageValue) (t : State)
    → get_transfer_message_storage id s ≡ ok (v, t)
    → (t ≡ s)
      × ((stored : TransferMessageStorage) × (s.pending_transfers id ≡ some stored)
          × (into_main stored ≡ v))
unfolding get_transfer_message_storage
found_message-ok id s v t h =
    let (found, is_found, h1) = bind-read _ _ _ s (view-ok (λ c. c.pending_transfers id) s) h in
    let (same, unchanged) = expect-ok (lookup_message found) _ s h1 in
    let (stored, is_stored, is_v) = looked_up found same in
    (unchanged, (stored, is_found ∙ is_stored, is_v))

pause-ok :
    (env : Env) (method : String) (roles : List Role) (s : State) (u : Unit {0}) (t : State)
    → pause_except env method roles s ≡ ok (u, t)
    → (t ≡ s) × Unit {0}
unfolding pause_except
pause-ok env method roles s u t h = ((require-ok _ _ s h).1, tt)

-- A change of the fee that is accepted is of a pending transfer, does not lower the fee, leaves it
-- below the amount, and is paid for: the native fee grows by the deposit attached. Only the sender
-- changes the fee in tokens. The transfer is stored again under its id, with the new fee alone
-- changed.
pub update_transfer_fee-ok :
    (env : Env) (id : TransferId) (fee : Fee) (s : State) {u : Unit {0}} {t : State}
    → update_transfer_fee env id (UpdateFee.fee fee) s ≡ ok (u, t)
    → (stored : TransferMessageStorage) × (v : TransferMessageStorageValue) × (s.pending_transfers
          id
        ≡ some stored)
      × (into_main stored ≡ v)
      × IsFeeChange env v.message fee
      × (t.pending_transfers (get_transfer_id v.message)
          ≡ some (
              TransferMessageStorage.v2
                (record { message = record v.message { fee = fee }; owner = v.owner })))
unfolding update_transfer_fee
update_transfer_fee-ok env id fee s h =
    let (_, _, h1) = bind-read (λ _. Unit) _ _ s (pause-ok env _ _ s) h in
    let (v, (stored, pending, is_v), h2) = bind-read _ _ _ s (found_message-ok id s) h1 in
    let (change, after, _) = set_fee-ok env v fee s h2 in (stored, v, pending, is_v, change, after)
