-- ===== src/Bridge/Tokens/Registry.antt =====
-- The registry of tokens: `add_token` and `get_bridged_token` of near/omni-bridge/src/lib.rs.
use omni_bridge.Prelude.{
  ℕ, String, ◌≡◌, ◌≢◌, refl, sym, ap, subst, ◌∙◌, true, inl, inr, Option, none, some, is_none,
}
use omni_bridge.Prelude.Equality.{pair_eq, string_eq}
use omni_bridge.Prelude.Maps.{insert, insert_self, insert_ne, insert-cases}
use omni_bridge.Prelude.Result.{ok}
use omni_bridge.Types.Chain.{ChainKind, chain_eq}
use omni_bridge.Types.Codecs.{AccountId}
use omni_bridge.Types.Address.{OmniAddress, get_chain, address_eq}
use omni_bridge.Types.Stored.{Decimals}
use omni_bridge.Exec.{require, ◌>>=◌}
use omni_bridge.Exec.Triples.{require-ok}
use omni_bridge.Bridge.State.{Contract, State, Action, update, view}
use omni_bridge.Bridge.Runs.{bind-read, view-ok, ok-pair}
use omni_bridge.Bridge.Tokens.{add_token, get_bridged_token, bridged_near, bridged_foreign}

-- A token that has an address on a chain is the token of that address, and has decimals there.
pub record IsRegistered (c : Contract) : Type 0 where
  pub back :
      (chain : ChainKind) (token : AccountId) (a : OmniAddress)
      → c.token_id_to_address (chain, token) ≡ some a
      → (get_chain a ≡ chain) × (c.token_address_to_id a ≡ some token)
  pub has_decimals :
      (a : OmniAddress) (token : AccountId)
      → c.token_address_to_id a ≡ some token
      → (d : Decimals) × (c.token_decimals a ≡ some d)

pub none_of : {V : Type 0} (o : Option V) → is_none o ≡ true → o ≡ none
none_of none h = refl
none_of (some v) h = cc

unfoldable pub updated : (Contract → Contract) → State → State
updated write s = record s { contract = write s.contract }

pub update-ok :
    (write : Contract → Contract) (s : State) {u : Unit {0}} {t : State}
    → update write s ≡ ok (u, t)
    → t ≡ updated write s
unfolding update ◌>>=◌ updated
update-ok write s h = sym (ok-pair h).1

pub write-ok :
    (write : Contract → Contract) {B : Type 0} (k : Action B) (s : State) {b : B} {t : State}
    → (update write >>= λ _. k) s ≡ ok (b, t)
    → k (updated write s) ≡ ok (b, t)
unfolding update ◌>>=◌ updated
write-ok write k s h = h

-- The entry was free.
pub unused-ok :
    {V : Type 0} (read : Contract → Option V) (e : String) {B : Type 0} (k : Action B) (s : State)
    {b : B} {t : State}
    → (view read >>= λ old. require (is_none old) e >>= λ _. k) s ≡ ok (b, t)
    → (read s.contract ≡ none) × (k s ≡ ok (b, t))
unused-ok read e k s h =
    let (old, is_old, h1) = bind-read _ _ _ s (view-ok read s) h in
    let (_, free, h2) =
      bind-read (λ _. is_none old ≡ true) _ _ s
        (λ a t r. let (x, y) = require-ok (is_none old) e s r in (y, x)) h1 in
    (is_old ∙ none_of old free, h2)

module _ (token : AccountId) (a : OmniAddress) (decimals origin_decimals : ℕ) where
  abbrev pub added : Contract → Contract
  added c = record c {
    token_id_to_address = insert (get_chain a, token) a c.token_id_to_address;
    token_address_to_id = insert a token c.token_address_to_id;
    token_decimals =
        insert a (record { decimals = decimals; origin_decimals = origin_decimals })
          c.token_decimals;
  }

  -- A token is added under keys that were free.
  pub add_token-ok :
      (s : State) {u : Unit {0}} {t : State}
      → add_token token a decimals origin_decimals s ≡ ok (u, t)
      → (s.token_id_to_address (get_chain a, token) ≡ none)
        × (s.token_address_to_id a ≡ none)
        × (s.token_decimals a ≡ none)
        × (t.contract ≡ added s.contract)
  unfolding add_token updated
  add_token-ok s h =
      let (free1, h1) = unused-ok _ _ _ s h in
      let h2 = write-ok _ _ s h1 in
      let (free2, h3) = unused-ok _ _ _ _ h2 in
      let h4 = write-ok _ _ _ h3 in
      let (free3, h5) = unused-ok _ _ _ _ h4 in
      (free1, free2, free3, ap (λ t. t.contract) (update-ok _ _ h5))

  added-IsRegistered :
      (c : Contract) → c.token_address_to_id a ≡ none → IsRegistered c → IsRegistered (added c)
  added-IsRegistered c free r = record {
    back = λ chain other b h.
        elim (insert-cases (get_chain a, token) (chain, other) a c.token_id_to_address h) [
          | inl (key, value) ↦ (
            sym (ap get_chain value) ∙ ap (λ k. k.0) key,
            rw (← value) (insert_self a token c.token_address_to_id ∙ ap (λ k. some k.1) key),
          )
          | inr (_, old) ↦
              let (on, of) = r.back chain other b old in
              (on, insert_ne a b token c.token_address_to_id (λ e. unknown e of) ∙ of)
        ];
    has_decimals = λ b other h. elim (insert-cases a b token c.token_address_to_id h) [
      | inl (key, _) ↦ (entry, rw (← key) (insert_self a entry c.token_decimals))
      | inr (differ, old) ↦
          let (d, of) = r.has_decimals b other old in
          (d, insert_ne a b entry c.token_decimals differ ∙ of)
    ];
  }
    where
      entry : Decimals
      entry = record { decimals = decimals; origin_decimals = origin_decimals }

      unknown :
          {b : OmniAddress} {other : AccountId} → a ≡ b → c.token_address_to_id b ≡ some other → ⊥
      unknown e h = cc

-- Adding a token that was accepted keeps the registry consistent, and the token is then found under
-- its address, with the decimals given.
pub add_token-IsRegistered :
    (token : AccountId) (a : OmniAddress) (decimals origin_decimals : ℕ) (s : State) {u : Unit {0}}
    {t : State}
    → IsRegistered s.contract
    → add_token token a decimals origin_decimals s ≡ ok (u, t)
    → IsRegistered t.contract
      × (t.token_address_to_id a ≡ some token)
      × (t.token_id_to_address (get_chain a, token) ≡ some a)
      × (t.token_decimals a
          ≡ some (record { decimals = decimals; origin_decimals = origin_decimals }))
add_token-IsRegistered token a decimals origin_decimals s r h =
    let (_, free, _, same) = add_token-ok token a decimals origin_decimals s h in
    (
      subst IsRegistered (sym same)
          (added-IsRegistered token a decimals origin_decimals s.contract free r),
      ap (λ c. c.token_address_to_id a) same ∙ insert_self a token s.token_address_to_id,
      ap (λ c. c.token_id_to_address (get_chain a, token)) same
          ∙ insert_self (get_chain a, token) a s.token_id_to_address,
      ap (λ c. c.token_decimals a) same ∙ insert_self a _ s.token_decimals,
    )

bridged_near-foreign :
    (c : Contract) (token : AccountId) (chain : ChainKind)
    → chain ≢ ChainKind.near
    → bridged_near c token chain ≡ c.token_id_to_address (chain, token)
unfolding bridged_near
bridged_near-foreign c token ChainKind.near far = absurd (far refl)
bridged_near-foreign c token _ far = refl

to_near :
    (c : Contract) (a : OmniAddress) (token : AccountId)
    → get_chain a ≢ ChainKind.near
    → c.token_address_to_id a ≡ some token
    → get_bridged_token c a ChainKind.near ≡ some (OmniAddress.near token)
unfolding get_bridged_token bridged_foreign bridged_near
to_near c (OmniAddress.near _) token far h = absurd (far refl)
to_near c _ token far h = rw h refl

-- With a consistent registry, the token on another chain that stands for a NEAR token stands, back
-- on NEAR, for that token.
pub get_bridged_token-inverse :
    (c : Contract) (token : AccountId) (chain : ChainKind) (a : OmniAddress)
    → IsRegistered c
    → chain ≢ ChainKind.near
    → get_bridged_token c (OmniAddress.near token) chain ≡ some a
    → get_bridged_token c a ChainKind.near ≡ some (OmniAddress.near token)
unfolding get_bridged_token
get_bridged_token-inverse c token chain a r far h =
    let (on, of) = r.back chain token a (sym (bridged_near-foreign c token chain far) ∙ h) in
    to_near c a token (λ e. far (sym on ∙ e)) of
