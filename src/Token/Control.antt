-- ===== src/Token/Control.antt =====
-- What only the controller of a bridged token can do.
use omni_bridge.Prelude.{ℕ, String, Bool, true, false, ◌≡◌, refl, ◌∙◌, Option, if◌then◌else◌}
use omni_bridge.Prelude.Equality.{◌==◌, string_eq, beq_true}
use omni_bridge.Prelude.Result.{Result, ok, err, Ensures}
use omni_bridge.Types.Codecs.{Bytes, AccountId}
use omni_bridge.Exec.{Exec, require, continue, ◌>>=◌}
use omni_bridge.Exec.Keeps.{Keeps, Triple, Triple-ok, Triple-Keeps, keeps_rules, Keeps-modify}
use omni_bridge.Token.Calls.{TokenCall, is_privileged}
use omni_bridge.Token.{
  Answer, FungibleToken, OmniToken, Receipt, call, ask, assert_controller, attach_full_access_key,
  set_withdraw_relayer_address, ft_transfer_call, mint, burn, set_metadata, ft_transfer,
  ft_resolve_transfer, storage_deposit, storage_withdraw, storage_unregister,
}

module _ {T : Type 0} (lib : FungibleToken T) (receipt : Receipt) where
  open receipt use {predecessor}

  unfoldable pub handle : TokenCall → Exec (OmniToken T) Answer
  handle (TokenCall.attach_full_access_key key) = attach_full_access_key lib receipt key
  handle (TokenCall.set_withdraw_relayer_address r) = set_withdraw_relayer_address lib receipt r
  handle (TokenCall.mint account amount msg) = mint lib receipt account amount msg
  handle (TokenCall.burn amount) = burn lib receipt amount
  handle (TokenCall.set_metadata a b c d e f) = set_metadata lib receipt a b c d e f
  handle (TokenCall.ft_transfer receiver amount memo) = ft_transfer lib receipt receiver amount memo
  handle (TokenCall.ft_transfer_call receiver amount memo msg) =
      ft_transfer_call lib receipt receiver amount memo msg
  handle (TokenCall.ft_resolve_transfer sender receiver amount) =
      ft_resolve_transfer lib receipt sender receiver amount
  handle (TokenCall.storage_deposit account only) = storage_deposit lib receipt account only
  handle (TokenCall.storage_withdraw amount) = storage_withdraw lib receipt amount
  handle (TokenCall.storage_unregister force) = storage_unregister lib receipt force

  -- The controller, and the fields that only it sets.
  abbrev IsControlledBy : AccountId → OmniToken T → Type 0
  IsControlledBy k s = s.controller ≡ k

  abbrev Fixed : OmniToken T → OmniToken T → Type 0
  Fixed s t =
      (t.controller ≡ s.controller)
      × (t.metadata ≡ s.metadata)
      × (t.withdraw_relayer ≡ s.withdraw_relayer)

  -- What a call that succeeds shows: of a privileged one, its caller; of another, what it left
  -- alone.
  abbrev pub Outcome : TokenCall → OmniToken T → OmniToken T → Type 0
  Outcome c s t =
      if is_privileged c
      then (predecessor ≡ s.controller) × (t.controller ≡ s.controller)
      else Fixed s t

  module _ {P : OmniToken T → Type 0}
      (off : (s : OmniToken T) (x : T) → P s → P (record s { token = x })) where
    Keeps-call : (m : T → Option T) → Keeps P (call lib receipt m)
    unfolding call
    Keeps-call m = search (keeps_rules, Keeps-modify, off) depth 20

    Keeps-ask : {A : Type 0} (m : T → Option (A × T)) → Keeps P (ask lib receipt m)
    unfolding ask
    Keeps-ask m = search (keeps_rules, Keeps-modify, off) depth 20

  module _ (s : OmniToken T) where
    -- A privileged method goes on only for the controller.
    asserted :
        (f : Unit {0} → Exec (OmniToken T) Answer)
        → Keeps (IsControlledBy s.controller) (f tt)
        → Triple
            (IsControlledBy s.controller)
            (assert_controller lib receipt >>= f)
            (λ _ t. (predecessor ≡ s.controller) × (t.controller ≡ s.controller))
    unfolding assert_controller ◌>>=◌
    asserted f k = record { at = λ u h. passed u h (predecessor == u.controller) refl }
      where
        both :
            (r : Result (Answer × OmniToken T))
            → predecessor ≡ s.controller
            → Ensures (λ x. IsControlledBy s.controller x.1) r
            → Ensures (λ x. (predecessor ≡ s.controller) × (x.1.controller ≡ s.controller)) r
        both (ok _) p h = (p, h)
        both (err _) p h = tt

        passed :
            (u : OmniToken T)
            → IsControlledBy s.controller u
            → (b : Bool) → (predecessor == u.controller) ≡ b
            → Ensures
                (λ x. (predecessor ≡ s.controller) × (x.1.controller ≡ s.controller))
                (continue (require b "ERR_MISSING_PERMISSION" u) f)
        passed u h true e = both (f tt u) (beq_true predecessor u.controller e ∙ h) (k.at u h)
        passed u h false e = tt

    off : (t : OmniToken T) (x : T) → Fixed s t → Fixed s (record t { token = x })
    off t x h = h

    off_controller :
        (t : OmniToken T) (x : T)
        → IsControlledBy s.controller t
        → IsControlledBy s.controller (record t { token = x })
    off_controller t x h = h

    mint-Controlled :
        (account : AccountId) (amount : ℕ) (msg : Option String)
        → Triple
            (IsControlledBy s.controller)
            (mint lib receipt account amount msg)
            (λ _ t. (predecessor ≡ s.controller) × (t.controller ≡ s.controller))
    unfolding mint ft_transfer_call
    mint-Controlled account amount msg =
        asserted _ (search (keeps_rules, Keeps-call, Keeps-ask, off_controller) depth 30)

    ft_transfer-Fixed :
        (receiver : AccountId) (amount : ℕ) (memo : Option String)
        → Keeps (Fixed s) (ft_transfer lib receipt receiver amount memo)
    unfolding ft_transfer
    ft_transfer-Fixed receiver amount memo = search (keeps_rules, Keeps-call, off) depth 30

    ft_resolve_transfer-Fixed :
        (sender receiver : AccountId) (amount : ℕ)
        → Keeps (Fixed s) (ft_resolve_transfer lib receipt sender receiver amount)
    unfolding ft_resolve_transfer
    ft_resolve_transfer-Fixed sender receiver amount = search (keeps_rules, Keeps-ask, off) depth 30

    set_metadata-Controlled :
        (a b c : Option String) (d : Option Bytes) (e : Option ℕ) (f : Option String)
        → Triple
            (IsControlledBy s.controller)
            (set_metadata lib receipt a b c d e f)
            (λ _ t. (predecessor ≡ s.controller) × (t.controller ≡ s.controller))
    unfolding set_metadata ◌>>=◌
    set_metadata-Controlled a b c d e f = asserted _ (record { at = λ t h. h })

    -- A call that succeeds and sets the relayer or the metadata, mints, burns or adds an access key
    -- is by the controller; any other call leaves the controller, the metadata and the relayer as
    -- they are; no call changes the controller.
    pub handle-Outcome :
        (c : TokenCall) {r : Answer} {t : OmniToken T} → handle c s ≡ ok (r, t) → Outcome c s t
    unfolding handle attach_full_access_key set_withdraw_relayer_address burn ft_transfer_call
        storage_deposit storage_withdraw storage_unregister ◌>>=◌
    handle-Outcome (TokenCall.attach_full_access_key key) e =
        Triple-ok s (asserted _ (record { at = λ t h. h })) refl e
    handle-Outcome (TokenCall.set_withdraw_relayer_address x) e =
        Triple-ok s (asserted _ (record { at = λ t h. h })) refl e
    handle-Outcome (TokenCall.mint account amount msg) e =
        Triple-ok s (mint-Controlled account amount msg) refl e
    handle-Outcome (TokenCall.burn amount) e =
        Triple-ok s (asserted _ (Keeps-call off_controller _)) refl e
    handle-Outcome (TokenCall.set_metadata a b c d x f) e =
        Triple-ok s (set_metadata-Controlled a b c d x f) refl e
    handle-Outcome (TokenCall.ft_transfer receiver amount memo) e =
        Triple-ok s (Triple-Keeps _ (ft_transfer-Fixed receiver amount memo)) (refl, refl, refl) e
    handle-Outcome (TokenCall.ft_transfer_call receiver amount memo msg) e =
        Triple-ok s (Triple-Keeps _ (Keeps-ask off _)) (refl, refl, refl) e
    handle-Outcome (TokenCall.ft_resolve_transfer sender receiver amount) e =
        Triple-ok s (Triple-Keeps _ (ft_resolve_transfer-Fixed sender receiver amount))
          (refl, refl, refl) e
    handle-Outcome (TokenCall.storage_deposit account only) e =
        Triple-ok s (Triple-Keeps _ (Keeps-ask off _)) (refl, refl, refl) e
    handle-Outcome (TokenCall.storage_withdraw amount) e =
        Triple-ok s (Triple-Keeps _ (Keeps-ask off _)) (refl, refl, refl) e
    handle-Outcome (TokenCall.storage_unregister force) e =
        Triple-ok s (Triple-Keeps _ (Keeps-ask off _)) (refl, refl, refl) e
