-- ===== src/Relayer/Workers/Near/Charges.antt =====
-- What `check_fee` answers, and what it leaves stored: the fee check of
-- omni-relayer/src/workers/near.rs.
use omni_bridge.Prelude.{String, Option, none, some, ◌≡◌, inl, inr, Bool-cases}
use omni_bridge.Prelude.Equality.{◌==◌}
use omni_bridge.Prelude.Result.{Result, ok}
use omni_bridge.Types.Transfer.{Fee, fee_eq, TransferId}
use omni_bridge.Relayer.Events.{EventAction, RetryableEvent, TransferFee, UnverifiedTransfer}
use omni_bridge.Relayer.Services.{Services, Json}
use omni_bridge.Relayer.Task.{State, pure}
use omni_bridge.Relayer.Redis.Laws.{Laws, SameEvents, Kept, Keeps-add_fee, Keeps-get_fee}
use omni_bridge.Relayer.Rules.{Ends, OnDb, Ends-bind}
use omni_bridge.Relayer.Fees.{is_fee_sufficient, judge_history, look_back, check_fee}

-- The workers' own events and the ids of transfers can be written as JSON.
pub record Writes {Value : Type 0} (json : Json Value) : Type 0 where
  pub unverified-written :
      (u : UnverifiedTransfer Value) → (v : Value) × (json.unverified_value u ≡ some v)
  pub retryable-written :
      (e : RetryableEvent Value) → (text : String) × (json.write_retryable e ≡ some text)
  pub id-written : (id : TransferId) → (text : String) × (json.write_transfer_id id ≡ some text)

abbrev pub no_fee : Fee
no_fee = record { fee = 0; native_fee = 0 }

module _ (services : Services) (laws : Laws services.redis) (writes : Writes services.json)
    (before : services.Db) where
  open services use {Db, Value, json, config, omni_connector}

  -- The answer of `check_fee`: a transfer is dropped only if it has no fee.
  unfoldable pub Decided : Fee → Result (Option EventAction) → State services → Type 0
  Decided provided (ok (some EventAction.remove)) s =
      (provided ≡ no_fee) × OnDb {services = services} (SameEvents services laws before) s
  Decided provided _ s = OnDb {services = services} (SameEvents services laws before) s

  judge_history-Decided :
      (needed : TransferFee) (id : String) (provided : Fee) (found : Option TransferFee)
      → Ends
          (Kept services laws before)
          (judge_history services needed id provided found)
          (Decided provided)
  unfolding judge_history Decided pure
  judge_history-Decided needed id provided (some old) = record {
    at = λ s p. elim (Bool-cases (is_fee_sufficient services old provided)) [
      | inl e ↦ rw e p
      | inr e ↦ rw e p
    ];
  }
  judge_history-Decided needed id provided none =
      Ends-bind _ _ (λ e s p. p) (Keeps-add_fee services laws before _ _)
        (λ _. record { at = λ s p. p })

  look_back-Decided :
      (needed : TransferFee) (provided : Fee) (id : String)
      → Ends
          (Kept services laws before)
          (look_back services needed provided (some id))
          (Decided provided)
  unfolding look_back Decided
  look_back-Decided needed provided id =
      Ends-bind _ _ (λ e s p. p) (Keeps-get_fee services laws before id)
        (judge_history-Decided needed id provided)

  pub check_fee-Decided :
      (needed : TransferFee) (id : TransferId) (provided : Fee)
      → Ends (Kept services laws before) (check_fee services needed id provided) (Decided provided)
  unfolding check_fee
  check_fee-Decided needed id provided =
      elim (Bool-cases (is_fee_sufficient services needed provided)) [
        | inl e ↦ rw e (enough provided)
        | inr e ↦ rw e (elim (Bool-cases (provided == no_fee)) [
          | inl zero ↦ rw zero (nothing provided ((fee_eq.agrees provided no_fee).0 zero))
          | inr some_fee ↦
              let (text, written) = writes.id-written id in
              rw some_fee (rw written (look_back-Decided needed provided text))
        ])
      ]
    where
      enough : (provided : Fee) → Ends (Kept services laws before) (pure none) (Decided provided)
      enough provided = record { at = λ s p. unfold Decided pure in p }

      nothing :
          (provided : Fee)
          → provided ≡ no_fee
          → Ends (Kept services laws before) (pure (some EventAction.remove)) (Decided provided)
      nothing provided e = record { at = λ s p. unfold Decided pure in (e, p) }
