-- ===== src/Bridge/Witnesses/Transfers.antt =====
-- Transfers to and from NEAR on concrete data.
use omni_bridge.Prelude.{ℕ, ◌≡◌, ◌≢◌, refl, true, false, none, some, List, [], ◌∷◌, ◌<◌, arith}
use omni_bridge.Prelude.Equality.{string_eq}
use omni_bridge.Prelude.Maps.{insert}
use omni_bridge.Prelude.Result.{Result, ok, err}
use omni_bridge.Types.Chain.{chain_eq}
use omni_bridge.Types.Codecs.{AccountId}
use omni_bridge.Types.Address.{address_beq, address_eq}
use omni_bridge.Types.Transfer.{transfer_id_eq, get_transfer_id}
use omni_bridge.Types.Messages.{StorageDepositAction}
use omni_bridge.Host.{Returned}
use omni_bridge.Exec.{◌>>=◌}
use omni_bridge.Bridge.State.{State, new, update, view, detach, log_event}
use omni_bridge.Bridge.Guards.{is_private}
use omni_bridge.Bridge.Decimals.{scale, denormalize_amount, denormalize_fee}
use omni_bridge.Bridge.Balances.{storage_withdraw, set_balance}
use omni_bridge.Bridge.Records.{get_next_destination_nonce, next_nonce}
use omni_bridge.Bridge.Records.{insert_raw_transfer}
use omni_bridge.Bridge.Tokens.{get_token_id, get_decimals}
use omni_bridge.Bridge.Balances.{refund, update_storage_balance, try_update_storage_balance}
use omni_bridge.Bridge.Records.{
  transfer_cost, record_cost, add_fin_transfer, finalised_cost, get_fast_transfer_status, status_of,
  fast_transfer_id,
}
use omni_bridge.Bridge.Tokens.{
  decode_prover_result, promise_result, decoded, check_storage_balance_result, balance_found,
  send_tokens,
}
use omni_bridge.Bridge.Settle.{
  process_fin_transfer_to_near, storage_checked, action_matches, choose_payout, fee_checked,
  native_fee_checked,
}
use omni_bridge.Bridge.Fin.{
  check_factory, init_transfer_proof, arrived, deliver, fin_transfer_callback,
}
use omni_bridge.Bridge.Fin.Once.{proof_id, fin_transfer_callback-once}
use omni_bridge.Bridge.Records.{add_transfer_message}
use omni_bridge.Bridge.Tokens.{burn_tokens_if_needed}
use omni_bridge.Bridge.Init.{init_transfer_internal, finish_init, burn_and_log}
use omni_bridge.Bridge.Init.Outcome.{stored, full_cost, Outcome, init_transfer_internal-Outcome}
use omni_bridge.Bridge.Balances.{try_to_transfer_balance_from_message_account, pay_from}
use omni_bridge.Bridge.Init.Resume.{storage_withdraw-init_transfer_resume}
use omni_bridge.Bridge.Balances.{
  credit, required_balance_for_init_transfer, required_balance_for_init_transfer_message,
}
use omni_bridge.Bridge.Records.{remove_promise, yield_cost}
use omni_bridge.Bridge.Init.{init_transfer_resume, resume_paid}
use omni_bridge.Bridge.Guards.{deny_deposit}
use omni_bridge.Prelude.Maps.{remove}
use omni_bridge.Host.{Env}
use omni_bridge.Prelude.{◌+◌}
use omni_bridge.Bridge.Witnesses.Sample.{
  proved_transfer, callback_env, alice_env, message, empty, contract, state, returned, final,
}

-- The storage of `bob` was checked by the second promise.
abbrev actions : List StorageDepositAction
actions = record { token_id = "token"; account_id = "bob"; storage_deposit_amount = none } ∷ []

abbrev finalised : Result (Returned ℕ × State)
finalised = fin_transfer_callback callback_env actions "relayer" state

fin_run : finalised ≡ ok (returned (Returned.value 0) finalised, final finalised)
unfolding fin_transfer_callback decode_prover_result promise_result decoded init_transfer_proof
    is_private check_factory arrived deliver process_fin_transfer_to_near add_fin_transfer
    finalised_cost record_cost storage_checked action_matches choose_payout fee_checked
    native_fee_checked check_storage_balance_result balance_found get_fast_transfer_status status_of
    fast_transfer_id update_storage_balance try_update_storage_balance refund set_balance
    send_tokens get_token_id get_decimals denormalize_amount denormalize_fee scale
    get_next_destination_nonce next_nonce address_beq new ◌>>=◌ view update log_event detach
fin_run = refl

fin_transfer_callback-once_example :
    (state.finalised_transfers (proof_id proved_transfer) ≡ false)
    × ((final finalised).finalised_transfers (proof_id proved_transfer) ≡ true)
fin_transfer_callback-once_example =
    fin_transfer_callback-once callback_env actions "relayer" proved_transfer refl refl state
      fin_run

-- The same transfer, before it is stored: `alice` has enough for it.
abbrev fresh_state : State
fresh_state = record state {
  contract = record contract { pending_transfers = empty.pending_transfers };
}

abbrev initiated : Result (ℕ × State)
initiated = init_transfer_internal callback_env message "alice" fresh_state

init_run : initiated ≡ ok (returned 1 initiated, final initiated)
unfolding init_transfer_internal add_transfer_message insert_raw_transfer transfer_cost record_cost
    try_update_storage_balance set_balance finish_init burn_and_log burn_tokens_if_needed refund new
    ◌>>=◌ view update log_event detach
init_run = refl

cost_is_positive : 0 < full_cost callback_env message "alice"
unfolding transfer_cost record_cost
cost_is_positive = omega arith

init_transfer_internal-Outcome_example :
    (fresh_state.pending_transfers (get_transfer_id message) ≡ none)
    × ((final initiated).pending_transfers (get_transfer_id message)
        ≡ some (stored message "alice"))
    × Outcome message "alice"
        (full_cost callback_env message "alice")
        (returned 1 initiated)
        fresh_state.accounts_balances
        (final initiated).accounts_balances
init_transfer_internal-Outcome_example =
    init_transfer_internal-Outcome callback_env message "alice" "token" fresh_state refl
      cost_is_positive init_run

-- The message account "m" of `alice` with a promise that waits for it, and `alice`, who has all of
-- her total available but 100.
abbrev paying_state : State
paying_state = record fresh_state {
  contract = record fresh_state.contract {
    accounts_balances =
        insert "alice" (record { total = 1_000; available = 900 })
          (insert "m" (record { total = 1_000_000; available = 400 }) empty.accounts_balances);
    init_transfer_promises = insert "m" [] empty.init_transfer_promises;
  };
}

abbrev resume_env : Env
resume_env = record callback_env { attached_deposit = 0 }

abbrev resumed : Result (ℕ × State)
resumed = init_transfer_resume resume_env message "m" "alice" paying_state

resumed_run : resumed ≡ ok (0, final resumed)
unfolding init_transfer_resume is_private deny_deposit remove_promise credit yield_cost
    required_balance_for_init_transfer required_balance_for_init_transfer_message
    try_to_transfer_balance_from_message_account pay_from resume_paid init_transfer_internal
    add_transfer_message insert_raw_transfer transfer_cost record_cost try_update_storage_balance
    set_balance finish_init burn_and_log burn_tokens_if_needed refund new insert remove ◌>>=◌ view
    update log_event detach
resumed_run = refl

m_is_not_alice : ◌≢◌ {A = AccountId} "m" "alice"
m_is_not_alice h = cc

found_m : paying_state.accounts_balances "m" ≡ some (record { total = 1_000_000; available = 400 })
unfolding insert
found_m = refl

found_alice :
    paying_state.accounts_balances "alice" ≡ some (record { total = 1_000; available = 900 })
unfolding insert
found_alice = refl

bridge_is_not_m : ◌≢◌ {A = AccountId} "bridge" "m"
bridge_is_not_m h = cc

bridge_is_not_alice : ◌≢◌ {A = AccountId} "bridge" "alice"
bridge_is_not_alice h = cc

exceeds_total : 1_000 + full_cost resume_env message "alice" < 900 + 1_000_000
unfolding transfer_cost record_cost
exceeds_total = omega arith

storage_withdraw-init_transfer_resume_example :
    storage_withdraw alice_env none (final resumed)
    ≡ err "The amount is greater than the total storage balance"
unfolding transfer_cost record_cost
storage_withdraw-init_transfer_resume_example =
    storage_withdraw-init_transfer_resume resume_env message "m" "alice" "token" paying_state
      m_is_not_alice bridge_is_not_m bridge_is_not_alice refl (omega arith) cost_is_positive found_m
      found_alice (omega arith) exceeds_total resumed_run alice_env refl refl
