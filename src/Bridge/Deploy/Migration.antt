-- ===== src/Bridge/Deploy/Migration.antt =====
-- The registry of tokens under `migrate_deployed_token` of near/omni-bridge/src/lib.rs.
use omni_bridge.Prelude.{
  String, List, nat_beq, ◌≡◌, refl, sym, ap, subst, ◌∙◌, Bool, true, not, inl, inr, Option, some,
}
use omni_bridge.Prelude.Equality.{string_eq, pair_eq}
use omni_bridge.Prelude.Maps.{insert, insert_self, insert_ne, insert-cases, remove, remove-some}
use omni_bridge.Prelude.Result.{ok}
use omni_bridge.Types.Chain.{ChainKind, chain_eq}
use omni_bridge.Types.Codecs.{AccountId}
use omni_bridge.Types.Address.{OmniAddress, address_eq, get_chain}
use omni_bridge.Host.{Env, Role}
use omni_bridge.Exec.{require}
use omni_bridge.Exec.Triples.{expect-ok, require-ok}
use omni_bridge.Bridge.State.{Contract, State}
use omni_bridge.Bridge.Guards.{deny_deposit, access_control_any, has_any_role}
use omni_bridge.Bridge.Runs.{bind-read, view-ok}
use omni_bridge.Bridge.Tokens.Registry.{IsRegistered, updated, update-ok, write-ok, unused-ok}
use omni_bridge.Bridge.Deploy.{migrate_deployed_token}

module _ (chain : ChainKind) (old_token new_token : AccountId) (a : OmniAddress) where
  -- The registry after the migration of the token at `a`.
  moved : Contract → Contract
  moved c = record c {
    token_id_to_address =
        insert (chain, new_token) a (remove (chain, old_token) c.token_id_to_address);
    token_address_to_id = insert a new_token c.token_address_to_id;
  }

  moved-IsRegistered :
      (c : Contract)
      → c.token_id_to_address (chain, old_token) ≡ some a
      → IsRegistered c
      → IsRegistered (moved c)
  unfolding moved
  moved-IsRegistered c here r = record {
    back = λ other token b h.
        elim (insert-cases (chain, new_token) (other, token) a
          (remove (chain, old_token) c.token_id_to_address) h) [
            | inl (key, value) ↦ (
              sym (ap get_chain value) ∙ (r.back chain old_token a here).0 ∙ ap (λ k. k.0) key,
              subst (λ x. insert a new_token c.token_address_to_id x ≡ some token) value
                  (insert_self a new_token c.token_address_to_id ∙ ap (λ k. some k.1) key),
            )
            | inr (_, left) ↦
                let (differ, old) =
                  remove-some (chain, old_token) (other, token) c.token_id_to_address left in
                let (on, of) = r.back other token b old in
                (
                  on,
                  insert_ne a b new_token c.token_address_to_id
                        (λ e. differ (same_key other token b on of e))
                      ∙ of,
                )
          ];
    has_decimals = λ b token h. elim (insert-cases a b new_token c.token_address_to_id h) [
      | inl (key, _) ↦
          let (d, of) = r.has_decimals a old_token (r.back chain old_token a here).1 in
          (d, ap c.token_decimals (sym key) ∙ of)
      | inr (_, old) ↦ r.has_decimals b token old
    ];
  }
    where
      same_token : {x y : AccountId} {o : Option AccountId} → o ≡ some x → o ≡ some y → x ≡ y
      same_token e f = cc

      same_key :
          (other : ChainKind) (token : AccountId) (b : OmniAddress)
          → get_chain b ≡ other
          → c.token_address_to_id b ≡ some token
          → a ≡ b
          → ◌≡◌ {A = ChainKind × AccountId} (chain, old_token) (other, token)
      same_key other token b on of e =
          let p : chain ≡ other = sym (r.back chain old_token a here).0 ∙ ap get_chain e ∙ on in
          let q : old_token ≡ token =
            same_token (r.back chain old_token a here).1 (ap c.token_address_to_id e ∙ of) in
          ap (λ x. (x, old_token)) p ∙ ap (λ y. (other, y)) q

unit_ok :
    (b : Bool) (e : String) (s : State) (u : Unit {0}) (t : State)
    → require b e s ≡ ok (u, t)
    → (t ≡ s) × (b ≡ true)
unit_ok b e s u t h = let (x, y) = require-ok b e s h in (y, x)

deny_deposit-ok :
    (env : Env) (s : State) (u : Unit {0}) (t : State)
    → deny_deposit env s ≡ ok (u, t)
    → (t ≡ s) × (nat_beq env.attached_deposit 0 ≡ true)
unfolding deny_deposit
deny_deposit-ok env s u t h = unit_ok _ _ s u t h

access_control_any-ok :
    (env : Env) (roles : List Role) (s : State) (u : Unit {0}) (t : State)
    → access_control_any env roles s ≡ ok (u, t)
    → (t ≡ s) × (has_any_role env roles ≡ true)
unfolding access_control_any
access_control_any-ok env roles s u t h = unit_ok _ _ s u t h

-- The end of the migration, in a state `w` with the registry moved.
cleared_and_moved :
    (chain : ChainKind) (old_token new_token : AccountId) (a : OmniAddress) (s w : State)
    {t : State}
    → t ≡ w
    → s.token_id_to_address (chain, old_token) ≡ some a
    → w.token_id_to_address ≡ (moved chain old_token new_token a s.contract).token_id_to_address
    → w.token_address_to_id ≡ (moved chain old_token new_token a s.contract).token_address_to_id
    → w.token_decimals ≡ s.token_decimals
    → IsRegistered s.contract
    → IsRegistered t.contract
      × ((a : OmniAddress) × (s.token_id_to_address (chain, old_token) ≡ some a)
          × (t.token_id_to_address (chain, new_token) ≡ some a)
          × (t.token_address_to_id a ≡ some new_token))
unfolding moved
cleared_and_moved chain old_token new_token a s w e here there ids decimals r =
    let r' = moved-IsRegistered chain old_token new_token a s.contract here r in
    let there' = ap (λ t. t.token_id_to_address) e ∙ there in
    let ids' = ap (λ t. t.token_address_to_id) e ∙ ids in
    let decimals' = ap (λ t. t.token_decimals) e ∙ decimals in
    (
      record {
        back = λ other token b h.
            let (on, of) = r'.back other token b (sym (ap (λ m. m (other, token)) there') ∙ h) in
            (on, ap (λ m. m b) ids' ∙ of);
        has_decimals = λ b token h.
            let (d, of) = r'.has_decimals b token (sym (ap (λ m. m b) ids') ∙ h) in
            (d, ap (λ m. m b) decimals' ∙ of);
      },
      (
        a,
        here,
        ap (λ m. m (chain, new_token)) there'
            ∙ insert_self (chain, new_token) a (remove (chain, old_token) s.token_id_to_address),
        ap (λ m. m a) ids' ∙ insert_self a new_token s.token_address_to_id,
      ),
    )

-- A migration that was accepted keeps the registry of tokens consistent, and the address of the old
-- token is then the address of the new one.
pub migrate_deployed_token-IsRegistered :
    (env : Env) (chain : ChainKind) (old_token new_token : AccountId) (s : State) {u : Unit {0}}
    {t : State}
    → IsRegistered s.contract
    → migrate_deployed_token env chain old_token new_token s ≡ ok (u, t)
    → IsRegistered t.contract
      × ((a : OmniAddress) × (s.token_id_to_address (chain, old_token) ≡ some a)
          × (t.token_id_to_address (chain, new_token) ≡ some a)
          × (t.token_address_to_id a ≡ some new_token))
unfolding migrate_deployed_token updated moved
migrate_deployed_token-IsRegistered env chain old_token new_token s r h =
    let (_, _, h1) = bind-read _ _ _ s (deny_deposit-ok env s) h in
    let (_, _, h2) = bind-read _ _ _ s (access_control_any-ok env _ s) h1 in
    let (old_deployed, _, h3) =
      bind-read _ _ _ s (view-ok (λ c. c.deployed_tokens old_token) s) h2 in
    let (_, _, h4) = bind-read _ _ _ s (unit_ok old_deployed _ s) h3 in
    let h5 = write-ok _ _ s h4 in
    let (new_deployed, _, h6) =
      bind-read _ _ _ _ (view-ok (λ c. c.deployed_tokens new_token) _) h5 in
    let (_, _, h7) = bind-read _ _ _ _ (unit_ok (not new_deployed) _ _) h6 in
    let h8 = write-ok _ _ _ h7 in
    let (found, is_found, h9) =
      bind-read _ _ _ _ (view-ok (λ c. c.token_id_to_address (chain, old_token)) _) h8 in
    let (a, is_a, h10) =
      bind-read (λ a. found ≡ some a) _ _ _ (λ a t e. let (x, y) = expect-ok found _ _ e in (y, x))
        h9 in
    let h11 = write-ok _ _ _ h10 in
    let (_, h12) = unused-ok _ _ _ _ h11 in
    let h13 = write-ok _ _ _ h12 in
    let (known, _, h14) = bind-read _ _ _ _ (view-ok (λ c. c.token_address_to_id a) _) h13 in
    let (_, _, h15) =
      bind-read (λ x. known ≡ some x) _ _ _ (λ a t e. let (x, y) = expect-ok known _ _ e in (y, x))
        h14 in
    let h16 = write-ok _ _ _ h15 in
    let (_, h17) = unused-ok _ _ _ _ h16 in
    cleared_and_moved chain old_token new_token a s _ (update-ok _ _ h17) (is_found ∙ is_a) refl
      refl refl r
