-- ===== src/Bridge/Claim/Conservation.antt =====
-- The amount of a transfer between `sign_transfer` and `claim_fee_callback` of
-- near/omni-bridge/src/lib.rs.
use omni_bridge.Prelude.{
  ℕ, ◌+◌, ◌-◌, ◌*◌, ◌/◌, ◌≤◌, ◌<◌, ◌≡◌, refl, ◌∙◌, ap, subst, Option, some, arith,
}
use omni_bridge.Prelude.Words.{u128_max, checked_sub}
use omni_bridge.Prelude.Result.{ok}
use omni_bridge.Types.Chain.{ChainKind}
use omni_bridge.Types.Codecs.{AccountId}
use omni_bridge.Types.Address.{OmniAddress}
use omni_bridge.Types.Transfer.{TransferId, TransferMessage, get_destination_chain}
use omni_bridge.Types.Messages.{TransferMessagePayload}
use omni_bridge.Types.Stored.{Decimals}
use omni_bridge.Host.{Env}
use omni_bridge.Exec.{◌>>=◌}
use omni_bridge.Exec.Triples.{bind-run, expect-ok, expect-run}
use omni_bridge.Bridge.State.{State}
use omni_bridge.Bridge.Runs.{
  checked_sub-some, bind-read, view-ok, view-run, checked_sub-le, checked_pure-ok, look_up-same,
}
use omni_bridge.Bridge.Decimals.Conversion.{IsScale, normalize-ok, denormalize-run, div_mul_bounds}
use omni_bridge.Bridge.Tokens.{get_token_id, get_decimals, get_token_address}
use omni_bridge.Bridge.Sign.{transfer_payload}
use omni_bridge.Bridge.Claim.{fee_left}

-- The two states know the same tokens.
pub record SameRegistry (s t : State) : Type 0 where
  pub ids : (a : OmniAddress) → t.token_address_to_id a ≡ s.token_address_to_id a
  pub decimals : (a : OmniAddress) → t.token_decimals a ≡ s.token_decimals a
  pub addresses : (k : ChainKind × AccountId) → t.token_id_to_address k ≡ s.token_id_to_address k

pub SameRegistry-refl : (s : State) → SameRegistry s s
SameRegistry-refl s = record { ids = λ a. refl; decimals = λ a. refl; addresses = λ k. refl }

pub get_token_id-same :
    (a : OmniAddress) (s t : State) {token : AccountId} {s' : State}
    → SameRegistry s t
    → get_token_id a s ≡ ok (token, s')
    → (s' ≡ s) × (get_token_id a t ≡ ok (token, t))
unfolding get_token_id ◌>>=◌
get_token_id-same (OmniAddress.near a) s t same h = ground arith
get_token_id-same a s t same h =
    let (unchanged, _, found) = look_up-same (λ c. c.token_address_to_id a) _ s t (same.ids a) h in
    (unchanged, found)

pub get_decimals-same :
    (a : OmniAddress) (s t : State) {d : Decimals} {s' : State}
    → SameRegistry s t
    → get_decimals a s ≡ ok (d, s')
    → (s' ≡ s) × (s.token_decimals a ≡ some d) × (get_decimals a t ≡ ok (d, t))
unfolding get_decimals
get_decimals-same a s t same h = look_up-same (λ c. c.token_decimals a) _ s t (same.decimals a) h

-- What a payload records of a message.
pub record Payload (m : TransferMessage) (payload : TransferMessagePayload) (s : State)
    : Type 0 where
  pub token : AccountId
  pub decimals : Decimals
  pub factor : ℕ
  pub token_eq : get_token_id m.token s ≡ ok (token, s)
  pub address_eq :
      get_token_address s.contract (get_destination_chain m) token ≡ some payload.token_address
  pub decimals_eq : get_decimals payload.token_address s ≡ ok (decimals, s)
  pub scaled : IsScale decimals factor
  pub fee_le : m.fee.fee ≤ m.amount
  pub amount_eq : payload.amount ≡ (m.amount - m.fee.fee) / factor

module _ (env : Env) where
  pub transfer_payload-Payload :
      (id : TransferId) (m : TransferMessage) (fee_recipient : Option AccountId) (s : State)
      {payload : TransferMessagePayload} {s' : State}
      → transfer_payload env id m fee_recipient s ≡ ok (payload, s')
      → Payload m payload s
  unfolding transfer_payload
  transfer_payload-Payload id m fee_recipient s h =
      let (token, f1, h1) =
        bind-read (λ a. get_token_id m.token s ≡ ok (a, s)) _ _ s
          (λ a t e. get_token_id-same m.token s s (SameRegistry-refl s) e) h in
      let (found, f2, h2) =
        bind-read _ _ _ s (view-ok (λ c. get_token_address c (get_destination_chain m) token) s)
          h1 in
      let (address, f3, h3) =
        bind-read (λ a. found ≡ some a) _ _ s (λ a t e. swap (expect-ok found _ s e)) h2 in
      let (d, f4, h4) =
        bind-read (λ a. get_decimals address s ≡ ok (a, s)) _ _ s
          (λ a t e. let (u, _, f) = get_decimals-same address s s (SameRegistry-refl s) e in (u, f))
          h3 in
      let (net, f5, h5) =
        bind-read (λ a. checked_sub m.amount m.fee.fee ≡ some a) _ _ s
          (λ a t e. swap (expect-ok (checked_sub m.amount m.fee.fee) _ s e)) h4 in
      let (q, (factor, scaled, q_eq), h6) =
        bind-read (λ a. (factor : ℕ) × IsScale d factor × (a ≡ net / factor)) _ _ s
          (λ a t e.
            let (factor, scaled, q_eq, u) = normalize-ok net d s e in (u, (factor, scaled, q_eq)))
          h5 in
      let (fee_le, net_eq) = checked_sub-some m.amount m.fee.fee f5 in
      let (_, is_payload) = checked_pure-ok _ _ _ s h6 in
      subst (λ x. Payload m x s) is_payload
        (record {
          token = token;
          decimals = d;
          factor = factor;
          token_eq = f1;
          address_eq = f2 ∙ f3;
          decimals_eq = f4;
          scaled = scaled;
          fee_le = fee_le;
          amount_eq = q_eq ∙ ap (λ n. n / factor) net_eq;
        })
    where
      swap : {P Q : Type 0} → P × Q → Q × P
      swap x = (x.1, x.0)

  -- The fee claim for a payload, wherever the tokens are the same.
  fee_left-Payload :
      (m : TransferMessage) (payload : TransferMessagePayload) (s t : State)
      → SameRegistry s t
      → (p : Payload m payload s) → payload.amount * p.factor ≤ m.amount
      → m.amount ≤ u128_max
      → fee_left env m payload.amount t ≡ ok (m.amount - payload.amount * p.factor, t)
  unfolding fee_left
  fee_left-Payload m payload s t same p le fits =
      bind-run (get_token_id m.token) _ t (get_token_id-same m.token s t same p.token_eq).1 (
        bind-run _ _ t (view-run (λ c. get_token_address c (get_destination_chain m) p.token) t) (
          bind-run _ _ t
            (expect-run _ t (same.addresses (get_destination_chain m, p.token) ∙ p.address_eq))
            (bind-run _ _ t (get_decimals-same payload.token_address s t same p.decimals_eq).2 (
              bind-run _ _ t
                (denormalize-run payload.amount p.decimals t p.scaled (omega (arith, le, fits)))
                (expect-run _ t (checked_sub-le m.amount (payload.amount * p.factor) le))))))

  -- Nothing of a transfer is lost: what the destination chain pays out for a signed payload (in the
  -- token's own decimals there, hence times a factor) and what is left for the fee claim add up to
  -- the amount. The claim succeeds in every state with the same tokens, and gives at least the fee
  -- promised, and less than one destination unit more. The amount is a `u128`.
  pub fee_left-transfer_payload :
      (id : TransferId) (m : TransferMessage) (fee_recipient : Option AccountId) (s t : State)
      {payload : TransferMessagePayload} {s' : State}
      → m.amount ≤ u128_max
      → SameRegistry s t
      → transfer_payload env id m fee_recipient s ≡ ok (payload, s')
      → (d : Decimals) × (factor : ℕ) × (left : ℕ) × (s.token_decimals payload.token_address
          ≡ some d)
        × IsScale d factor
        × (fee_left env m payload.amount t ≡ ok (left, t))
        × (payload.amount * factor + left ≡ m.amount)
        × (m.fee.fee ≤ left)
        × (left < m.fee.fee + factor)
  fee_left-transfer_payload id m fee_recipient s t {payload} fits same h =
      let p = transfer_payload-Payload id m fee_recipient s h in
      let net = m.amount - m.fee.fee in
      let (low, high) = div_mul_bounds net p.factor p.scaled.positive in
      let paid : payload.amount * p.factor ≡ net / p.factor * p.factor =
        ap (λ n. n * p.factor) p.amount_eq in
      let le : payload.amount * p.factor ≤ m.amount = rw paid (omega (arith, low)) in
      (
        p.decimals,
        p.factor,
        m.amount - payload.amount * p.factor,
        (get_decimals-same payload.token_address s s (SameRegistry-refl s) p.decimals_eq).1,
        p.scaled,
        fee_left-Payload m payload s t same p le fits,
        omega (arith, le),
        rw paid (omega (arith, low, high, p.fee_le)),
        rw paid (omega (arith, low, high, p.fee_le)),
      )
