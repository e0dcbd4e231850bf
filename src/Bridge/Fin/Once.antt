-- ===== src/Bridge/Fin/Once.antt =====
-- The set of finalised transfers under `fin_transfer_callback` of near/omni-bridge/src/lib.rs.
use omni_bridge.Prelude.{ℕ, ◌≡◌, refl, true, false, inl, inr, some, List, ◌∷◌, Bool-cases}
use omni_bridge.Prelude.Maps.{add_self}
use omni_bridge.Prelude.Result.{ok}
use omni_bridge.Types.Codecs.{Bytes, AccountId}
use omni_bridge.Types.Address.{OmniAddress, get_chain}
use omni_bridge.Types.Transfer.{TransferId, TransferMessage, get_transfer_id, transfer_id_eq}
use omni_bridge.Types.Messages.{InitTransferMessage, ProverResult, StorageDepositAction}
use omni_bridge.Host.{Env, Returned, PromiseResult}
use omni_bridge.Exec.{require, ◌>>=◌}
use omni_bridge.Exec.Keeps.{Triple, Triple-bind, Triple-ok}
use omni_bridge.Exec.Triples.{
  Triple-skip, Triple-after, Triple-value, Triple-fact, Triple-then, Triple-pure,
}
use omni_bridge.Bridge.State.{Contract, State, Action, update, view}
use omni_bridge.Bridge.Tokens.{decode_prover_result, decoded, promise_result}
use omni_bridge.Bridge.Records.{add_fin_transfer}
use omni_bridge.Bridge.Settle.{process_fin_transfer_to_near, process_fin_transfer_to_other_chain}
use omni_bridge.Bridge.Fin.{arrived, deliver, fin_transfer_callback, init_transfer_proof}
use omni_bridge.Bridge.Frame.{On, Frame, frame_rules}
use omni_bridge.Bridge.Frame.Actions.{Keeps-get_fast_transfer_status, Keeps-update_storage_balance}
use omni_bridge.Bridge.Frame.Calls.{
  Keeps-is_private, Keeps-check_factory, Keeps-arrived, Keeps-get_token_id, Keeps-check_utxo_token,
  Keeps-settle_or_forward, Keeps-choose_payout, Keeps-storage_checked, Keeps-fee_checked,
  Keeps-native_fee_checked,
}

-- The id under which a proved transfer is finalised.
abbrev pub proof_id : InitTransferMessage → TransferId
proof_id p = record { origin_chain = get_chain p.sender; origin_nonce = p.origin_nonce }

abbrev IsFinalised : TransferId → Contract → Type 0
IsFinalised id c = c.finalised_transfers id ≡ true

Frame-IsFinalised : (id : TransferId) → Frame (IsFinalised id)
Frame-IsFinalised id = record {
  balances = λ c m h. h;
  pending = λ c m h. h;
  fast = λ c m h. h;
  origin_nonce = λ c n h. h;
  destination_nonces = λ c m h. h;
  promises = λ c m h. h;
}

trivial_frame : Frame (λ _. Unit {0})
trivial_frame = record {
  balances = λ c m h. h;
  pending = λ c m h. h;
  fast = λ c m h. h;
  origin_nonce = λ c n h. h;
  destination_nonces = λ c m h. h;
  promises = λ c m h. h;
}

module _ (env : Env) where
  add_fin_transfer-establishes :
      (P : State → Type 0) (id : TransferId)
      → Triple P (add_fin_transfer env id) (λ _. On (IsFinalised id))
  unfolding add_fin_transfer ◌>>=◌ update view
  add_fin_transfer-establishes P id = record {
    at = λ s h. elim (Bool-cases (s.finalised_transfers id)) [
      | inl e ↦ rw (e, require) tt
      | inr e ↦ rw (e, require) (record { at = add_self id s.finalised_transfers })
    ];
  }

  add_fin_transfer-refuses :
      (id : TransferId) → Triple (On (IsFinalised id)) (add_fin_transfer env id) (λ _ _. ⊥)
  unfolding add_fin_transfer ◌>>=◌ update view
  add_fin_transfer-refuses id = record { at = λ s h. rw (h.at, require) tt }

  to_near-establishes :
      (P : State → Type 0) (recipient caller : AccountId) (m : TransferMessage)
      (actions : List StorageDepositAction)
      → Triple P
          (process_fin_transfer_to_near env recipient caller m actions)
          (λ _. On (IsFinalised (get_transfer_id m)))
  unfolding process_fin_transfer_to_near
  to_near-establishes P recipient caller m actions =
      Triple-then _ _ (add_fin_transfer-establishes P _) λ cost.
        search
          (
            frame_rules,
            Keeps-get_token_id,
            Keeps-get_fast_transfer_status,
            Keeps-storage_checked,
            Keeps-choose_payout (Frame-IsFinalised (get_transfer_id m)),
            Keeps-fee_checked,
            Keeps-native_fee_checked,
            Keeps-update_storage_balance (Frame-IsFinalised (get_transfer_id m)),
          )
          depth 16

  to_other_chain-establishes :
      (P : State → Type 0) (caller : AccountId) (m : TransferMessage)
      → Triple P
          (process_fin_transfer_to_other_chain env caller m)
          (λ _. On (IsFinalised (get_transfer_id m)))
  unfolding process_fin_transfer_to_other_chain
  to_other_chain-establishes P caller m = Triple-then _ _ (add_fin_transfer-establishes P _) λ cost.
      search
        (
          frame_rules,
          Keeps-get_token_id,
          Keeps-get_fast_transfer_status,
          Keeps-check_utxo_token,
          Keeps-settle_or_forward (Frame-IsFinalised (get_transfer_id m)),
          Keeps-update_storage_balance (Frame-IsFinalised (get_transfer_id m)),
        )
        depth 12

  -- Both ways of delivering a transfer finalise it, and are refused if it is finalised.
  deliver-establishes :
      (P : State → Type 0) (caller : AccountId) (actions : List StorageDepositAction)
      (m : TransferMessage) (recipient : OmniAddress)
      → Triple P
          (deliver env caller actions m recipient)
          (λ _. On (IsFinalised (get_transfer_id m)))
  unfolding deliver
  deliver-establishes P caller actions m (OmniAddress.near a) =
      Triple-then _ _ (to_near-establishes P a caller m actions) (λ p. search frame_rules)
  deliver-establishes P caller actions m _ =
      Triple-then _ _ (to_other_chain-establishes P caller m) (λ p. search frame_rules)

  refuse :
      {A B : Type 0} (m : TransferMessage) (f : ℕ → Action A) (g : A → Action B)
      → Triple
          (On (IsFinalised (get_transfer_id m)))
          ((add_fin_transfer env (get_transfer_id m) >>= f) >>= g)
          (λ _ _. ⊥)
  refuse m f g =
      Triple-bind (λ _ _. ⊥) _ g
        (Triple-bind (λ _ _. ⊥) _ f (add_fin_transfer-refuses _)
          (λ a. record { at = λ s h. absurd h }))
        (λ a. record { at = λ s h. absurd h })

  deliver-refuses :
      (caller : AccountId) (actions : List StorageDepositAction) (m : TransferMessage)
      (recipient : OmniAddress)
      → Triple
          (On (IsFinalised (get_transfer_id m)))
          (deliver env caller actions m recipient)
          (λ _ _. ⊥)
  unfolding deliver process_fin_transfer_to_near process_fin_transfer_to_other_chain
  deliver-refuses caller actions m (OmniAddress.near a) = refuse m _ _
  deliver-refuses caller actions m _ = refuse m _ _

  arrived-id :
      (P : State → Type 0) (p : InitTransferMessage)
      → Triple P (arrived p) (λ m _. get_transfer_id m ≡ proof_id p)
  unfolding arrived
  arrived-id P p = Triple-skip _ _ λ _.
      Triple-skip _ _ λ _. Triple-skip _ _ λ _. Triple-skip _ _ λ _. Triple-pure _ (λ s h. refl)

module _ (env : Env) (actions : List StorageDepositAction) (caller : AccountId)
    (p : InitTransferMessage) {bytes : Bytes} {rest : List PromiseResult}
    (proved : env.promise_results ≡ PromiseResult.successful bytes ∷ rest)
    (parsed : env.parse_prover_result bytes ≡ some (ProverResult.init_transfer p)) where
  decode-value :
      (s : State) → decode_prover_result env 0 s ≡ ok (some (ProverResult.init_transfer p), s)
  unfolding decode_prover_result promise_result decoded ◌>>=◌
  decode-value s = rw proved (rw parsed refl)

  init_transfer_proof-value :
      (s : State) → init_transfer_proof (some (ProverResult.init_transfer p)) s ≡ ok (p, s)
  unfolding init_transfer_proof ◌>>=◌
  init_transfer_proof-value s = refl

  -- The parts of the callback before the delivery keep `P`.
  callback :
      {P : Contract → Type 0} {Q : Returned ℕ → State → Type 0}
      → Frame P
      → ((m : TransferMessage)
          → get_transfer_id m ≡ proof_id p
          → Triple (On P) (deliver env caller actions m m.recipient) Q)
      → Triple (On P) (fin_transfer_callback env actions caller) Q
  unfolding fin_transfer_callback
  callback frame k = Triple-after _ _ (Keeps-is_private env) λ _. Triple-value _ _ _ decode-value (
      Triple-value _ _ p init_transfer_proof-value (
        Triple-after _ _ (Keeps-check_factory _ _) λ _.
          Triple-fact (λ m. get_transfer_id m ≡ proof_id p) _ _ (Keeps-arrived frame env p)
            (arrived-id env _ p) k))

  -- A proved transfer that the callback accepts was not finalised before, and is finalised
  -- afterwards. `p` is the prover's message.
  pub fin_transfer_callback-once :
      (s : State) {r : Returned ℕ} {t : State}
      → fin_transfer_callback env actions caller s ≡ ok (r, t)
      → (s.finalised_transfers (proof_id p) ≡ false) × (t.finalised_transfers (proof_id p) ≡ true)
  fin_transfer_callback-once s e = (
    elim (Bool-cases (s.finalised_transfers (proof_id p))) [
      | inl old ↦ absurd (
          Triple-ok s
            (callback (Frame-IsFinalised (proof_id p))
              (λ m same. rw same at (deliver-refuses env caller actions m m.recipient)))
            (record { at = old }) e)
      | inr new ↦ new
    ],
    (Triple-ok s
        (callback trivial_frame (λ m same.
          rw same at (deliver-establishes env (On (λ _. Unit)) caller actions m m.recipient)))
        (record { at = tt }) e).at,
  )
