-- ===== src/Solana/Messages/Unique.antt =====
-- The bytes that NEAR signs for the Solana program determine the payload: state/message.
use omni_bridge.Prelude.{ℕ, ◌^◌, ◌<◌, ◌≡◌, ◌≢◌, Option, List, ◌∷◌, ◌++◌, arith, length}
use omni_bridge.Types.Codecs.{Bytes}
use omni_bridge.Solana.State.{Pubkey, Text, Borsh}
use omni_bridge.Solana.Messages.{
  FinalizeTransferPayload, DeployTokenPayload, finalize_transfer_for_near, deploy_token_for_near,
}

-- The encoding of a value ends where the value ends, among the values that the type has.
abbrev pub SelfDelimiting : {A : Type 0} → (A → Type 0) → (A → Bytes) → Type 0
SelfDelimiting {A} P encode =
    (a b : A) (r s : Bytes) → P a → P b → encode a ++ r ≡ encode b ++ s → (a ≡ b) × (r ≡ s)

abbrev pub IsPubkey : Pubkey → Type 0
IsPubkey k = length k ≡ 32

abbrev pub IsU64 : ℕ → Type 0
IsU64 n = n < 2 ^ 64

abbrev pub IsU128 : ℕ → Type 0
IsU128 n = n < 2 ^ 128

abbrev pub IsText : Text → Type 0
IsText t = length t < 2 ^ 32

-- What Borsh documents of the encodings in use: fixed widths for numbers and keys, and lengths or
-- tags in front of the others.
pub record BorshLaws (b : Borsh) : Type 0 where
  pub u64 : SelfDelimiting IsU64 b.u64
  pub u128 : SelfDelimiting IsU128 b.u128
  pub string : SelfDelimiting IsText b.string
  pub pubkey : SelfDelimiting IsPubkey b.pubkey
  pub option_string : SelfDelimiting {A = Option Text} (λ _. Unit) b.option_string

-- The values of the fields fit their types.
abbrev pub Fits : FinalizeTransferPayload → Type 0
Fits p = IsU64 p.destination_nonce × IsU64 p.transfer_id.origin_nonce × IsU128 p.amount

abbrev HasLengths : DeployTokenPayload → Type 0
HasLengths p = IsText p.token × IsText p.name × IsText p.symbol

pub ∷-injective : {A : Type 0} {x y : A} {xs ys : List A} → x ∷ xs ≡ y ∷ ys → (x ≡ y) × (xs ≡ ys)
∷-injective h = ground arith

module _ (b : Borsh) (laws : BorshLaws b) where
  -- Equal bytes to be signed for two finalisations are of equal payloads, and name the same mint
  -- and the same recipient.
  pub finalize_transfer_for_near_unique :
      (p q : FinalizeTransferPayload) (mint recipient mint' recipient' : Pubkey)
      → Fits p
      → Fits q
      → IsPubkey mint
      → IsPubkey mint'
      → IsPubkey recipient
      → IsPubkey recipient'
      → finalize_transfer_for_near b p mint recipient
        ≡ finalize_transfer_for_near b q mint' recipient'
      → (p ≡ q) × (mint ≡ mint') × (recipient ≡ recipient')
  unfolding finalize_transfer_for_near
  finalize_transfer_for_near_unique p q m r m' r' fp fq hm hm' hr hr' e =
      let (nonce, e1) = laws.u64 _ _ _ _ fp.0 fq.0 (∷-injective e).1 in
      let (chain, e2) = ∷-injective e1 in
      let (origin, e3) = laws.u64 _ _ _ _ fp.1 fq.1 e2 in
      let (mint, e4) = laws.pubkey _ _ _ _ hm hm' (∷-injective e3).1 in
      let (amount, e5) = laws.u128 _ _ _ _ fp.2 fq.2 e4 in
      let (recipient, e6) = laws.pubkey _ _ _ _ hr hr' (∷-injective e5).1 in
      let (fee_recipient, _) = laws.option_string _ _ _ _ tt tt e6 in
      (ground (arith, nonce, chain, origin, amount, fee_recipient), mint, recipient)

  -- Equal bytes to be signed for the deployment of two tokens are of equal payloads.
  pub deploy_token_for_near_unique :
      (p q : DeployTokenPayload)
      → HasLengths p
      → HasLengths q
      → deploy_token_for_near b p ≡ deploy_token_for_near b q
      → p ≡ q
  unfolding deploy_token_for_near
  deploy_token_for_near_unique p q hp hq e =
      let (token, e1) = laws.string _ _ _ _ hp.0 hq.0 (∷-injective e).1 in
      let (name, e2) = laws.string _ _ _ _ hp.1 hq.1 e1 in
      let (symbol, e3) = laws.string _ _ _ _ hp.2 hq.2 e2 in
      ground (arith, token, name, symbol, (∷-injective e3).0)

-- The bytes of a finalisation are never those of a deployment.
pub kinds-differ :
    (b : Borsh) (p : FinalizeTransferPayload) (q : DeployTokenPayload) (mint recipient : Pubkey)
    → finalize_transfer_for_near b p mint recipient ≢ deploy_token_for_near b q
unfolding finalize_transfer_for_near deploy_token_for_near
kinds-differ b p q mint recipient e = ground (arith, (∷-injective e).0)
