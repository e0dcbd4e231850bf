-- ===== src/Provers/Wormhole/Kind.antt =====
-- What the callback of the Wormhole prover proxy lets through.
use omni_bridge.Prelude.{ℕ, String, ◌≡◌, ◌≢◌, refl, sym, ap, ◌∙◌, Option, none, some, arith}
use omni_bridge.Prelude.Equality.{nat_eq, beq_true}
use omni_bridge.Prelude.Result.{Result, ok, ◌>>=◌, then-ok, ok_or-ok, if-ok}
use omni_bridge.Types.Codecs.{Bytes}
use omni_bridge.Types.Messages.{ProverResult}
use omni_bridge.Provers.Slices.{index}
use omni_bridge.Provers.Evm.{ProofKind}
use omni_bridge.Provers.Vaa.{ParsedVaa, parse}
use omni_bridge.Provers.Wormhole.{WormholeHost, kind_to_u8, as_result, verify_vaa_callback}

abbrev pub kind_of : ProverResult → ProofKind
kind_of (ProverResult.init_transfer _) = ProofKind.init_transfer
kind_of (ProverResult.fin_transfer _) = ProofKind.fin_transfer
kind_of (ProverResult.deploy_token _) = ProofKind.deploy_token
kind_of (ProverResult.log_metadata _) = ProofKind.log_metadata

kind_of_ok :
    {A : Type 0} (m : Result A) (f : A → ProverResult) (k : ProofKind)
    → ((a : A) → kind_of (f a) ≡ k)
    → {r : ProverResult} → (m >>= λ a. ok (f a)) ≡ ok r
    → kind_of r ≡ k
kind_of_ok m f k same h = let (a, _, e) = then-ok m (λ a. ok (f a)) h in cc (same a, e)

module _ (host : WormholeHost) where
  as_result-kind :
      (k : ProofKind) (v : ParsedVaa) {r : ProverResult} → as_result host k v ≡ ok r → kind_of r ≡ k
  unfolding as_result
  as_result-kind ProofKind.init_transfer v h =
      kind_of_ok _ ProverResult.init_transfer _ (λ a. refl) h
  as_result-kind ProofKind.fin_transfer v h = kind_of_ok _ ProverResult.fin_transfer _ (λ a. refl) h
  as_result-kind ProofKind.deploy_token v h = kind_of_ok _ ProverResult.deploy_token _ (λ a. refl) h
  as_result-kind ProofKind.log_metadata v h = kind_of_ok _ ProverResult.log_metadata _ (λ a. refl) h

  -- A result that the callback lets through is for a VAA that the prover accepted, of the kind that
  -- was asked for, which is the first byte of the payload; the payload is not empty.
  pub verify_vaa_callback-ok :
      (kind : ProofKind) (vaa : String) (answer : Option ℕ) {r : ProverResult}
      → verify_vaa_callback host kind vaa answer ≡ ok r
      → (bytes : Bytes) × (parsed : ParsedVaa) × (answer ≢ none)
        × (host.codecs.hex_decode vaa ≡ some bytes)
        × (parse host.codecs.keccak256 bytes ≡ ok parsed)
        × (index parsed.payload 0 ≡ ok (kind_to_u8 kind))
        × (kind_of r ≡ kind)
  unfolding verify_vaa_callback
  verify_vaa_callback-ok kind vaa none h = cc
  verify_vaa_callback-ok kind vaa (some n) h =
      let (bytes, hex, h1) = then-ok _ _ h in
      let (parsed, read, h2) = then-ok _ _ h1 in
      let (first, head, h3) = then-ok _ _ h2 in
      let (same, result) = if-ok _ _ h3 in
      (
        bytes,
        parsed,
        (λ e. ground (arith, e)),
        ok_or-ok (host.codecs.hex_decode vaa) "invalidVaa" hex,
        read,
        head ∙ ap ok (sym (beq_true (kind_to_u8 kind) first same)),
        as_result-kind kind parsed result,
      )
