-- ===== src/Relayer/Workers/Due.antt =====
-- Which stored events a round tries: `process_events` of omni-relayer/src/workers/mod.rs.
use omni_bridge.Prelude.{
  ℕ, String, ltb, Bool-cases, ◌∙◌, sym, subst, ◌+◌, ◌≤◌, ◌≡◌, refl, ap, ◌⊎◌, inl, inr, Option, none,
  some, List, [], ◌∷◌, ◌++◌, arith,
}
use omni_bridge.Prelude.Result.{Result, ok, err}
use omni_bridge.Relayer.Events.{RetryableEvent, Timestamp}
use omni_bridge.Relayer.Services.{Services, Config}
use omni_bridge.Relayer.Task.{State, Job, bail, continue, ◌>>=◌}
use omni_bridge.Relayer.Redis.{add_event, remove_event, write, events_key}
use omni_bridge.Relayer.Workers.Dispatch.{
  retry_delay, delay_by, delay_of, rest_or_try, Choice, overflow, drop, later, attempt, choose,
  screen, screen_events,
}

delay_by-le :
    (config : Config) (factor : Option ℕ) → delay_by config factor ≤ config.fee_retry_max_sleep_secs
unfolding delay_by
delay_by-le config factor = ground arith

module _ {A : Type 0} where
  abbrev pub Has : A → List A → Type 0
  Has a [] = ⊥
  Has a (x ∷ xs) = (x ≡ a) ⊎ Has a xs

  Has-append_right : (a : A) (xs ys : List A) → Has a ys → Has a (xs ++ ys)
  Has-append_right a [] ys h = h
  Has-append_right a (x ∷ xs) ys h = inr (Has-append_right a xs ys h)

module _ (services : Services) where
  open services use {Value, json, config}

  -- An event that is not too old and was last tried long enough ago.
  pub record IsDue (now : Timestamp) (e : RetryableEvent Value) : Type 0 where
    pub recent : now ≤ e.creation_timestamp + config.keep_transfers_for_secs
    pub rested : e.last_updated_timestamp + config.fee_retry_max_sleep_secs ≤ now

  -- No power overflows up to this number of tries.
  abbrev pub HasPowers : ℕ → Type 0
  HasPowers most =
      (n : ℕ)
      → n ≤ most
      → (power : config.Decimal) × (config.powu config.fee_retry_base_secs n ≡ some power)

  -- No event that is read and recent was tried more often than that.
  abbrev pub TriedAtMost : ℕ → Timestamp → List (String × String) → Type 0
  TriedAtMost most now [] = Unit
  TriedAtMost most now ((key, payload) ∷ others) =
      ((e : RetryableEvent Value)
        → json.read_retryable payload ≡ some e
        → now ≤ e.creation_timestamp + config.keep_transfers_for_secs
        → e.retries ≤ most)
      × TriedAtMost most now others

  retry_delay-some :
      (n : ℕ) {power : config.Decimal}
      → config.powu config.fee_retry_base_secs n ≡ some power
      → retry_delay config n ≡ some (delay_by config (config.to_u64 power))
  unfolding retry_delay delay_of
  retry_delay-some n computed = ap (delay_of config) computed

  retry_delay-none :
      (n : ℕ) → config.powu config.fee_retry_base_secs n ≡ none → retry_delay config n ≡ none
  unfolding retry_delay delay_of
  retry_delay-none n overflows = ap (delay_of config) overflows

  choose-recent :
      (now : Timestamp) (e : RetryableEvent Value)
      → now ≤ e.creation_timestamp + config.keep_transfers_for_secs
      → choose services now (some e) ≡ rest_or_try services now e (retry_delay config e.retries)
  unfolding choose
  choose-recent now e recent = ground (arith, recent)

  choose-due :
      (now : Timestamp) (e : RetryableEvent Value) {power : config.Decimal}
      → config.powu config.fee_retry_base_secs e.retries ≡ some power
      → IsDue now e
      → choose services now (some e)
        ≡ attempt (record e { retries = e.retries + 1; last_updated_timestamp = now })
  unfolding rest_or_try
  choose-due now e {power} computed due =
      choose-recent now e due.recent
      ∙ ap (rest_or_try services now e) (retry_delay-some e.retries computed)
      ∙ ground (arith, due.rested, delay_by-le config (config.to_u64 power))

  -- The round does not end at the event.
  GoesOn : Choice services → Type 0
  GoesOn overflow = ⊥
  GoesOn _ = Unit

  rest_or_try-GoesOn :
      (now : Timestamp) (e : RetryableEvent Value) (delay : ℕ)
      → GoesOn (rest_or_try services now e (some delay))
  unfolding rest_or_try GoesOn
  rest_or_try-GoesOn now e delay = elim (Bool-cases (ltb now (e.last_updated_timestamp + delay))) [
    | inl h ↦ rw h tt
    | inr h ↦ rw h tt
  ]

  choose-GoesOn :
      (most : ℕ) (now : Timestamp) (o : Option (RetryableEvent Value))
      → HasPowers most
      → ((e : RetryableEvent Value)
          → o ≡ some e
          → now ≤ e.creation_timestamp + config.keep_transfers_for_secs
          → e.retries ≤ most)
      → GoesOn (choose services now o)
  unfolding choose GoesOn
  choose-GoesOn most now none powers few = tt
  choose-GoesOn most now (some e) powers few =
      elim (Bool-cases (ltb (e.creation_timestamp + config.keep_transfers_for_secs) now)) [
        | inl old ↦ rw old tt
        | inr recent ↦
            let (power, computed) = powers e.retries (few e refl (ground (arith, recent))) in
            rw recent (
              subst (λ pause. GoesOn (rest_or_try services now e pause))
                (sym (retry_delay-some e.retries computed))
                (rest_or_try-GoesOn now e (delay_by config (config.to_u64 power))))
      ]

  picked : String → Choice services → List (String × Value)
  picked key overflow = []
  picked key drop = []
  picked key later = []
  picked key (attempt e) = (key, e.event) ∷ []

  picks : Timestamp → List (String × String) → List (String × Value)
  picks now [] = []
  picks now ((key, payload) ∷ others) =
      picked key (choose services now (json.read_retryable payload)) ++ picks now others

  add_event-returns :
      (key field : String) (text : Option String) (s : State services)
      → (t : State services) × (add_event services key field text s ≡ (ok tt, t))
  unfolding add_event write
  add_event-returns key field none s = (s, refl)
  add_event-returns key field (some text) s = (_, refl)

  screen-returns :
      (key : String) (c : Choice services) (s : State services)
      → GoesOn c
      → (t : State services) × (screen services key c s ≡ (ok (picked key c), t))
  unfolding screen picked ◌>>=◌ remove_event write GoesOn
  screen-returns key overflow s on = absurd on
  screen-returns key drop s on = (_, refl)
  screen-returns key later s on = (_, refl)
  screen-returns key (attempt e) s on =
      let (t, done) = add_event-returns events_key key (json.write_retryable e) s in
      (t, rw done refl)

  screen_events-returns :
      (most : ℕ) (now : Timestamp) (stored : List (String × String)) (s : State services)
      → HasPowers most
      → TriedAtMost most now stored
      → (t : State services) × (screen_events services now stored s ≡ (ok (picks now stored), t))
  unfolding screen_events picks ◌>>=◌
  screen_events-returns most now [] s powers few = (s, refl)
  screen_events-returns most now ((key, payload) ∷ others) s powers few =
      let on = choose-GoesOn most now (json.read_retryable payload) powers few.0 in
      let (t, first) =
        screen-returns key (choose services now (json.read_retryable payload)) s on in
      let (u, rest) = screen_events-returns most now others t powers few.1 in
      (u, rw first (rw rest refl))

  picks-Has :
      (now : Timestamp) (key payload : String) (e : RetryableEvent Value)
      → json.read_retryable payload ≡ some e
      → IsDue now e
      → {power : config.Decimal} → config.powu config.fee_retry_base_secs e.retries ≡ some power
      → (stored : List (String × String)) → Has (key, payload) stored
      → Has (key, e.event) (picks now stored)
  unfolding picks picked
  picks-Has now key payload e parsed due computed [] h = h
  picks-Has now key payload e parsed due computed ((k, p) ∷ others) (inl same) =
      rw
        (
          ap (λ (x : String × String). x.0) same,
          ap (λ (x : String × String). x.1) same,
          parsed,
          choose-due now e computed due,
        )
        (inl refl)
  picks-Has now key payload e parsed due computed ((k, p) ∷ others) (inr h) =
      Has-append_right _ _ (picks now others)
        (picks-Has now key payload e parsed due computed others h)

  few_tries :
      (most : ℕ) (now : Timestamp) (key payload : String) (e : RetryableEvent Value)
      → json.read_retryable payload ≡ some e
      → now ≤ e.creation_timestamp + config.keep_transfers_for_secs
      → (stored : List (String × String)) → TriedAtMost most now stored
      → Has (key, payload) stored
      → e.retries ≤ most
  few_tries most now key payload e parsed recent [] few there = absurd there
  few_tries most now key payload e parsed recent ((k, p) ∷ others) few (inl same) =
      few.0 e (ap (λ (x : String × String). json.read_retryable x.1) same ∙ parsed) recent
  few_tries most now key payload e parsed recent ((k, p) ∷ others) few (inr there) =
      few_tries most now key payload e parsed recent others few.1 there

  -- No power of the base overflows for the tries of a recent event that is stored. Then a stored
  -- event that is not older than the retention period, and was last tried at least the longest
  -- pause ago, is among the events that the round handles, under its key.
  pub screen_events-due :
      (now : Timestamp) (stored : List (String × String)) (s : State services)
      (key payload : String) (e : RetryableEvent Value)
      → {most : ℕ} → HasPowers most
      → TriedAtMost most now stored
      → Has (key, payload) stored
      → json.read_retryable payload ≡ some e
      → IsDue now e
      → (events : List (String × Value)) × ((screen_events services now stored s).0 ≡ ok events)
        × Has (key, e.event) events
  screen_events-due now stored s key payload e {most} powers few there parsed due =
      let (t, returned) = screen_events-returns most now stored s powers few in
      let tries = few_tries most now key payload e parsed due.recent stored few there in
      let (power, computed) = powers e.retries tries in
      (
        picks now stored,
        rw returned refl,
        picks-Has now key payload e parsed due computed stored there,
      )

  choose-overflow :
      (now : Timestamp) (e : RetryableEvent Value)
      → now ≤ e.creation_timestamp + config.keep_transfers_for_secs
      → config.powu config.fee_retry_base_secs e.retries ≡ none
      → choose services now (some e) ≡ overflow
  unfolding rest_or_try
  choose-overflow now e recent overflows =
      choose-recent now e recent
      ∙ ap (rest_or_try services now e) (retry_delay-none e.retries overflows)

  -- An event is passed, or ends the round.
  screen-passes :
      (key : String) (c : Choice services) (s : State services)
      → ((t : State services) × (screen services key c s ≡ (ok (picked key c), t)))
        ⊎ ((t : State services) × (screen services key c s ≡ (err "Pow overflowed", t)))
  unfolding screen bail
  screen-passes key overflow s = inr (s, refl)
  screen-passes key drop s = inl (screen-returns key drop s (unfold GoesOn in tt))
  screen-passes key later s = inl (screen-returns key later s (unfold GoesOn in tt))
  screen-passes key (attempt e) s = inl (screen-returns key (attempt e) s (unfold GoesOn in tt))

  -- When a stored event is recent and was tried so often that the power of the base overflows, the
  -- first loop of a round panics, whatever else is stored, and hands on no event to be handled.
  pub screen_events-overflow :
      (now : Timestamp) (stored : List (String × String)) (s : State services)
      (key payload : String) (e : RetryableEvent Value)
      → Has (key, payload) stored
      → json.read_retryable payload ≡ some e
      → now ≤ e.creation_timestamp + config.keep_transfers_for_secs
      → config.powu config.fee_retry_base_secs e.retries ≡ none
      → (screen_events services now stored s).0 ≡ err "Pow overflowed"
  unfolding screen_events screen ◌>>=◌ bail
  screen_events-overflow now [] s key payload e there parsed recent overflows = absurd there
  screen_events-overflow now ((k, p) ∷ others) s key payload e (inl same) parsed recent overflows =
      rw (ap (λ (x : String × String). x.1) same, parsed, choose-overflow now e recent overflows)
        refl
  screen_events-overflow now ((k, p) ∷ others) s key payload e (inr there) parsed recent overflows =
      elim (screen-passes k (choose services now (json.read_retryable p)) s) [
        | inr (t, ends) ↦ rw ends refl
        | inl (t, passes) ↦
            let ends =
              screen_events-overflow now others t key payload e there parsed recent overflows in
            rw passes (stops (screen_events services now others t) _ ends)
      ]
    where
      stops :
          {A B : Type 0} (r : Result A × State services) (f : A → Job services B)
          → r.0 ≡ err "Pow overflowed"
          → (continue r f).0 ≡ err "Pow overflowed"
      stops (err e, s) f h = cc
      stops (ok a, s) f h = cc
