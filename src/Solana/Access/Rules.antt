-- ===== src/Solana/Access/Rules.antt =====
-- Rules for the configuration of the Solana program and the checks of it.
use omni_bridge.Prelude.{ℕ, String, Bool, true, false, ◌≡◌, refl, sym, subst, some}
use omni_bridge.Prelude.Equality.{nat_eq, list_eq}
use omni_bridge.Prelude.Result.{Result, ok, err, Ensures}
use omni_bridge.Exec.{Exec, expect, require, continue, ◌>>=◌}
use omni_bridge.Exec.Keeps.{Keeps, Triple}
use omni_bridge.Solana.State.{Config, Program, load_config, store_config}
use omni_bridge.Solana.Nonces.{load, replace_slot}
use omni_bridge.Solana.Frame.{OffLedger}

module _ {L : Type 0} where
  abbrev pub HasConfig : Config → Program L → Type 0
  HasConfig c s = s.config ≡ some c

  pub HasConfig-OffLedger : (c : Config) → OffLedger (HasConfig c)
  HasConfig-OffLedger c = record { ledger = λ s l h. h }

  pub Keeps-replace_slot : (c : Config) (n : ℕ) → Keeps (HasConfig c) (replace_slot n)
  unfolding replace_slot load ◌>>=◌
  Keeps-replace_slot c n = record { at = λ s h. h }

  -- Rules for a configuration that is known, a check, and what is left once all checks are done.
  pub with_config :
      {A : Type 0} {Q : A → Program L → Type 0} (c : Config) (f : Config → Exec (Program L) A)
      → Triple (HasConfig c) (f c) Q
      → Triple (HasConfig c) (load_config >>= f) Q
  unfolding load_config ◌>>=◌
  with_config {Q} c f t = record {
    at = λ s h.
        subst (λ o. Ensures (λ r. Q r.0 r.1) (continue (expect o "AccountNotInitialized" s) f))
          (sym h) (t.at s h);
  }

  pub checked :
      {A : Type 0} {P : Program L → Type 0} {Q : A → Program L → Type 0} (b : Bool) (e : String)
      (n : Exec (Program L) A)
      → (b ≡ true → Triple P n Q)
      → Triple P (require b e >>= λ _. n) Q
  unfolding ◌>>=◌
  checked true e n t = record { at = (t refl).at }
  checked false e n t = record { at = λ s h. tt }

  pub granted :
      {A F : Type 0} {P : Program L → Type 0} (m : Exec (Program L) A)
      → F
      → Keeps P m
      → Triple P m (λ _ t. F × P t)
  granted {A} {F} {P} m f k = record { at = λ s h. both (m s) (k.at s h) }
    where
      both : (r : Result (A × Program L)) → Ensures (λ x. P x.1) r → Ensures (λ x. F × P x.1) r
      both (ok _) h = (f, h)
      both (err _) h = tt

  pub stored :
      {F : Type 0} {P : Program L → Type 0} (c : Config)
      → F
      → Triple P (store_config c) (λ _ t. F × (t.config ≡ some c))
  unfolding store_config ◌>>=◌
  stored c f = record { at = λ s h. (f, refl) }
