-- ===== src/Bridge/Init/Outcome.antt =====
-- The outcomes of `init_transfer_internal` of near/omni-bridge/src/lib.rs.
use omni_bridge.Prelude.{
  ℕ, String, ◌-◌, ◌≤◌, ◌<◌, ◌≡◌, refl, sym, ap, subst, ◌∙◌, true, false, ◌⊎◌, inl, inr, none, some,
  arith, leb, Bool-cases, Option-cases,
}
use omni_bridge.Prelude.Equality.{string_eq}
use omni_bridge.Prelude.Maps.{LookupMap, insert, insert_self}
use omni_bridge.Prelude.Words.{saturating_add}
use omni_bridge.Prelude.Result.{Result, ok, err}
use omni_bridge.Types.Codecs.{AccountId}
use omni_bridge.Types.Address.{OmniAddress}
use omni_bridge.Types.Transfer.{TransferMessage, get_transfer_id, transfer_id_eq}
use omni_bridge.Types.Stored.{TransferMessageStorage}
use omni_bridge.Host.{Env, StorageBalance}
use omni_bridge.Exec.{◌>>=◌}
use omni_bridge.Exec.Triples.{bind-ok}
use omni_bridge.Bridge.State.{State, update, view, detach, log_event}
use omni_bridge.Bridge.Runs.{ok-pair, pure-ok}
use omni_bridge.Bridge.Balances.{try_update_storage_balance, set_balance}
use omni_bridge.Bridge.Records.{add_transfer_message, insert_raw_transfer, transfer_cost}
use omni_bridge.Bridge.Tokens.{burn_tokens_if_needed}
use omni_bridge.Bridge.Init.{burn_and_log, finish_init, init_transfer_internal}

-- The record of a transfer under its owner.
abbrev pub stored : TransferMessage → AccountId → TransferMessageStorage
stored m owner = TransferMessageStorage.v2 (record { message = m; owner = owner })

module _ (env : Env) (m : TransferMessage) (owner : AccountId) where
  abbrev with_transfer : State → State
  with_transfer s = record s {
    contract = record s.contract {
      pending_transfers = insert (get_transfer_id m) (stored m owner) s.pending_transfers;
    };
  }

  add_transfer_message-ok :
      (s : State) {cost : ℕ} {t : State}
      → add_transfer_message env m owner s ≡ ok (cost, t)
      → (s.pending_transfers (get_transfer_id m) ≡ none)
        × (cost ≡ transfer_cost env (get_transfer_id m) (stored m owner))
        × (t ≡ with_transfer s)
  unfolding add_transfer_message insert_raw_transfer ◌>>=◌ update view
  add_transfer_message-ok s h = elim (Option-cases (s.pending_transfers (get_transfer_id m))) [
    | inl e ↦ let h1 = rw e at h in let (value, state) = ok-pair h1 in (e, sym value, sym state)
    | inr (v, e) ↦ let h1 = rw e at h in cc
  ]

sub_zero : (n : ℕ) → n - 0 ≡ n
sub_zero n = omega arith

leb-zero : (n : ℕ) → 0 < n → leb n 0 ≡ false
leb-zero n h = ground arith

leb-le : (a b : ℕ) → leb a b ≡ true → a ≤ b
leb-le a b h = ground arith

-- Nothing is attached: what is required comes from the balance, or nothing is written.
try_update_storage_balance-ok :
    (a : AccountId) (required : ℕ) (s : State) {r : Result (Unit {0})} {t : State}
    → 0 < required
    → try_update_storage_balance a required 0 s ≡ ok (r, t)
    → ((b : StorageBalance) × (s.accounts_balances a ≡ some b)
        × (required ≤ b.available)
        × (r ≡ ok tt)
        × (t.accounts_balances a ≡ some (record b { available = b.available - required }))
        × (t.pending_transfers ≡ s.pending_transfers))
      ⊎ ((e : String) × (r ≡ err e) × (t ≡ s))
unfolding try_update_storage_balance set_balance ◌>>=◌ update view
try_update_storage_balance-ok a required s pos h =
    let h1 = rw (leb-zero required pos) at h in
    elim (Option-cases (s.accounts_balances a)) [
      | inl e ↦
          let (value, state) = ok-pair (rw e at h1) in
          inr ("Account is not registered", sym value, sym state)
      | inr (b, e) ↦
          let h2 = rw e at h1 in
          elim (Bool-cases (leb (required - 0) b.available)) [
            | inl enough ↦
                let (value, state) = ok-pair (rw enough at h2) in
                inl (
                  b,
                  e,
                  omega (arith, leb-le (required - 0) b.available enough),
                  sym value,
                  rw (← state) (
                      insert_self a _ s.accounts_balances
                      ∙ ap (λ n. some (record b { available = b.available - n }))
                          (sub_zero required)),
                  rw (← state) refl,
                )
            | inr short ↦
                let (value, state) = ok-pair (rw short at h2) in
                inr ("Not enough storage deposited", sym value, sym state)
          ]
    ]

-- The tokens of a paid transfer are burnt if they are the bridge's; nothing else is written.
burn_and_log-near :
    (env : Env) (m : TransferMessage) (token : AccountId) (s : State) {r : ℕ} {t : State}
    → burn_and_log env m (OmniAddress.near token) s ≡ ok (r, t)
    → (r ≡ 0) × (t.contract ≡ s.contract)
unfolding burn_and_log burn_tokens_if_needed ◌>>=◌ view detach log_event
burn_and_log-near env m token s h = elim (Bool-cases (s.deployed_tokens token)) [
  | inl e ↦
      let (value, state) = ok-pair (rw e at h) in (sym value, ap (λ t. t.contract) (sym state))
  | inr e ↦
      let (value, state) = ok-pair (rw e at h) in (sym value, ap (λ t. t.contract) (sym state))
]

-- What a NEAR token's transfer costs: its storage and its native fee.
abbrev pub full_cost : Env → TransferMessage → AccountId → ℕ
full_cost env m owner =
    saturating_add (transfer_cost env (get_transfer_id m) (stored m owner)) m.fee.native_fee

-- The two outcomes of a transfer that is stored: paid for, or refunded.
pub data Outcome (m : TransferMessage) (owner : AccountId) (required refund : ℕ)
    (before after : LookupMap AccountId StorageBalance) : Type 0 where
  paid :
      (b : StorageBalance)
      → refund ≡ 0
      → before owner ≡ some b
      → required ≤ b.available
      → after owner ≡ some (record b { available = b.available - required })
      → Outcome m owner required refund before after
  refunded : refund ≡ m.amount → after ≡ before → Outcome m owner required refund before after

finish-Outcome :
    (env : Env) (m : TransferMessage) (owner token : AccountId) (required : ℕ) (s : State)
    (result : Result (Unit {0})) (s' : State) {refund : ℕ} {t : State}
    → m.token ≡ OmniAddress.near token
    → 0 < required
    → try_update_storage_balance owner required 0 s ≡ ok (result, s')
    → finish_init env m result s' ≡ ok (refund, t)
    → (t.pending_transfers ≡ s.pending_transfers)
      × Outcome m owner required refund s.accounts_balances t.accounts_balances
unfolding finish_init
finish-Outcome env m owner token required s (ok u) s' {refund = back} {t} near pos e h =
    let (zero_refund, same) =
      burn_and_log-near env m token s'
        (subst (λ a. burn_and_log env m a s' ≡ ok (back, t)) near h) in
    elim (try_update_storage_balance-ok owner required s pos e) [
      | inl (b, found, enough, _, taken, pending) ↦ (
        ap (λ c. c.pending_transfers) same ∙ pending,
        Outcome.paid b zero_refund found enough (ap (λ c. c.accounts_balances owner) same ∙ taken),
      )
      | inr (error, is_error, _) ↦ absurd (ok_err is_error)
    ]
  where
    ok_err : {x : Unit {0}} {e : String} → ◌≡◌ {A = Result (Unit {0})} (ok x) (err e) → ⊥
    ok_err h = cc
finish-Outcome env m owner token required s (err x) s' near pos e h =
    let (amount, state) = pure-ok h in
    elim (try_update_storage_balance-ok owner required s pos e) [
      | inl (_, _, _, is_ok, _, _) ↦ absurd (err_ok is_ok)
      | inr (_, _, unchanged) ↦ (
        ap (λ t. t.pending_transfers) (sym state ∙ unchanged),
        Outcome.refunded (sym amount) (ap (λ t. t.accounts_balances) (sym state ∙ unchanged)),
      )
    ]
  where
    err_ok : {x : Unit {0}} {e : String} → ◌≡◌ {A = Result (Unit {0})} (err e) (ok x) → ⊥
    err_ok h = cc

after_store :
    (env : Env) (m : TransferMessage) (owner token : AccountId) (s : State) (cost : ℕ) (s' : State)
    {refund : ℕ} {t : State}
    → m.token ≡ OmniAddress.near token
    → 0 < full_cost env m owner
    → cost ≡ transfer_cost env (get_transfer_id m) (stored m owner)
    → s' ≡ with_transfer env m owner s
    → (try_update_storage_balance owner (saturating_add cost m.fee.native_fee) 0 >>= λ r.
          finish_init env m r)
        s'
      ≡ ok (refund, t)
    → (t.pending_transfers (get_transfer_id m) ≡ some (stored m owner))
      × Outcome m owner (full_cost env m owner) refund s.accounts_balances t.accounts_balances
after_store env m owner token s cost s' near pos is_cost is_s' h =
    let (result, s2, e, h2) =
      bind-ok _ (λ r. finish_init env m r) (with_transfer env m owner s)
        (rw is_s' at (rw is_cost at h)) in
    let (pending, outcome) =
      finish-Outcome env m owner token (full_cost env m owner) (with_transfer env m owner s) result
        s2 near pos e h2 in
    (
      ap (λ p. p (get_transfer_id m)) pending
          ∙ insert_self (get_transfer_id m) (stored m owner) s.pending_transfers,
      outcome,
    )

-- A transfer of a NEAR token that costs something is stored under an id that was free. Either it is
-- paid for from the owner's balance, exactly, and nothing goes back to the sender; or the whole
-- amount goes back and the balances stay. The transfer is pending afterwards in both cases.
pub init_transfer_internal-Outcome :
    (env : Env) (m : TransferMessage) (owner token : AccountId) (s : State) {refund : ℕ} {t : State}
    → m.token ≡ OmniAddress.near token
    → 0 < full_cost env m owner
    → init_transfer_internal env m owner s ≡ ok (refund, t)
    → (s.pending_transfers (get_transfer_id m) ≡ none)
      × (t.pending_transfers (get_transfer_id m) ≡ some (stored m owner))
      × Outcome m owner (full_cost env m owner) refund s.accounts_balances t.accounts_balances
unfolding init_transfer_internal
init_transfer_internal-Outcome env m owner token s near pos h =
    let (cost, s1, e1, h1) = bind-ok (add_transfer_message env m owner) _ s h in
    let (free, is_cost, is_s1) = add_transfer_message-ok env m owner s e1 in
    let (pending, outcome) = after_store env m owner token s cost s1 near pos is_cost is_s1 h1 in
    (free, pending, outcome)
