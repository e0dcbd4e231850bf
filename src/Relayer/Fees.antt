-- ===== src/Relayer/Fees.antt =====
-- Whether the fee of a transfer pays for its relay: omni-relayer/src/utils/bridge_api.rs.
use omni_bridge.Prelude.{
  ℕ, String, ◌+◌, ◌-◌, ◌*◌, ◌/◌, ◌%◌, ◌^◌, Bool, true, Option, none, some, nat_beq, leb,
  if◌then◌else◌, unwrap_or,
}
use omni_bridge.Prelude.Result.{Result, err}
use omni_bridge.Types.Address.{OmniAddress}
use omni_bridge.Types.Transfer.{Fee, TransferId, fee_eq}
use omni_bridge.Prelude.Equality.{◌==◌}
use omni_bridge.Relayer.Events.{EventAction, retry, remove, TransferFee}
use omni_bridge.Relayer.Services.{Services}
use omni_bridge.Relayer.Task.{Job, ask, pure, ◌>>=◌, ◌>>◌}
use omni_bridge.Relayer.Redis.{add_event, get_fee, fee_mapping_key}

-- A fee after the discount, whose percentage is at most 100; the product wraps around at 128 bits.
abbrev pub discounted : ℕ → ℕ → ℕ
discounted fee percent = (fee * (100 - percent)) % 2 ^ 128 / 100

abbrev discounted? : Option ℕ → ℕ → Option ℕ
discounted? none percent = none
discounted? (some fee) percent = some (discounted fee percent)

-- The test on the fees that are needed. The sum wraps around at 256 bits.
unfoldable pub covers : ℕ → ℕ → Fee → Bool
covers native_fee fee provided =
    if nat_beq native_fee 0
    then (if nat_beq fee 0 then true else leb fee provided.fee)
    else if nat_beq fee 0
    then leb native_fee provided.native_fee
    else leb (fee * native_fee % 2 ^ 256)
        ((provided.fee * native_fee % 2 ^ 256 + provided.native_fee * fee % 2 ^ 256) % 2 ^ 256)

module _ (services : Services) where
  open services use {json, config}

  pub apply_discount : TransferFee → ℕ → TransferFee
  apply_discount needed percent = record {
    native_token_fee = discounted? needed.native_token_fee percent;
    transferred_token_fee = discounted? needed.transferred_token_fee percent;
    usd_fee = services.discount_usd needed.usd_fee percent;
  }

  unfoldable pub is_fee_sufficient : TransferFee → Fee → Bool
  unfolding apply_discount
  is_fee_sufficient needed provided =
      let discounted_fee = apply_discount needed config.fee_discount in
      covers (unwrap_or discounted_fee.native_token_fee 0)
        (unwrap_or discounted_fee.transferred_token_fee 0) provided

  -- With the address of the API, which the configuration may lack.
  unfoldable pub fetch_from :
      Option String → OmniAddress → OmniAddress → OmniAddress → Job services (Result TransferFee)
  fetch_from none sender recipient token = pure (err "No api url was provided")
  fetch_from (some url) sender recipient token =
      ask services (services.fetch_fee url sender recipient token)

  unfoldable pub get_transfer_fee :
      OmniAddress → OmniAddress → OmniAddress → Job services (Result TransferFee)
  get_transfer_fee = fetch_from config.api_url

  -- What is done about an earlier fee of the same transfer, or its absence.
  unfoldable pub judge_history :
      TransferFee → String → Fee → Option TransferFee → Job services (Option EventAction)
  judge_history needed id provided (some historical_fee) =
      pure (if is_fee_sufficient historical_fee provided then none else some retry)
  judge_history needed id provided none = do
    add_event services fee_mapping_key id (json.write_fee needed)
    pure (some retry)

  -- With the id of the transfer as a text.
  unfoldable pub look_back : TransferFee → Fee → Option String → Job services (Option EventAction)
  look_back needed provided none = pure (some remove)
  look_back needed provided (some id) = do
    historical_fee ← get_fee services id
    judge_history needed id provided historical_fee

  -- `check_fee`: `none` lets the transfer go on.
  unfoldable pub check_fee : TransferFee → TransferId → Fee → Job services (Option EventAction)
  unfolding look_back judge_history
  check_fee needed transfer_id provided =
      if is_fee_sufficient needed provided
      then pure none
      else if provided == record { fee = 0; native_fee = 0 }
      then pure (some remove)
      else look_back needed provided (json.write_transfer_id transfer_id)
