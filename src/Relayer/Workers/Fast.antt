-- ===== src/Relayer/Workers/Fast.antt =====
-- Fast transfers to NEAR, sent by a second account: `initiate_fast_transfer` of
-- omni-relayer/src/workers/near.rs.
use omni_bridge.Prelude.{
  ℕ, ◌+◌, ◌-◌, ◌%◌, ◌^◌, Bool, true, false, Option, none, some, ltb, if◌then◌else◌, unwrap_or,
}
use omni_bridge.Prelude.Equality.{◌==◌}
use omni_bridge.Prelude.Result.{ok, err}
use omni_bridge.Types.Chain.{ChainKind, chain_eq}
use omni_bridge.Types.Codecs.{AccountId}
use omni_bridge.Types.Address.{get_chain}
use omni_bridge.Types.Transfer.{FastTransfer, to_unified, FastTransferStatus}
use omni_bridge.Relayer.Events.{EventAction, retry, remove, Transfer, FastTransferEvent}
use omni_bridge.Relayer.Services.{Services, SdkResult}
use omni_bridge.Relayer.Task.{Job, pure, bail, ask, or_return, ◌>>=◌, reserve_near_nonce}
use omni_bridge.Relayer.Workers.Common.{included, finalised, unless_finalised, on_answer}
use omni_bridge.Relayer.Workers.Near.{on_near_error}
use omni_bridge.Relayer.Workers.Storage.{get_token_id}

module _ (services : Services) where
  open services use {fast_connector}

  -- A failed look-up of the token: the handler tries again.
  unfoldable pub catch_retry :
      {A : Type 0} → Job services A → (A → Job services EventAction) → Job services EventAction
  catch_retry job f s =
      let (result, after) = job s in elim result [ ok a ↦ f a after | err _ ↦ pure retry after ]

  unless_paid :
      SdkResult (Option FastTransferStatus) → Job services EventAction → Job services EventAction
  unless_paid (SdkResult.ok (some _)) rest = bail "Fast transfer is already finalised"
  unless_paid (SdkResult.ok none) rest = rest
  unless_paid (SdkResult.err _) rest = pure retry

  -- The nonce of the transfer: a new one if the deposit took the first.
  fresh_nonce : Bool → ℕ → Job services ℕ
  fresh_nonce true nonce = reserve_near_nonce services
  fresh_nonce false nonce = pure nonce

  send_fast : FastTransferEvent → Job services EventAction
  send_fast f = do
    nonce ← reserve_near_nonce services
    required ← ask services fast_connector.get_required_balance_for_fast_fin_transfer
    or_return required retry λ required_balance. do
      deposited ← ask services (
          fast_connector.deposit_storage_if_required
            ((required_balance + unwrap_or f.storage_deposit_amount 0) % 2 ^ 128) (finalised nonce))
      or_return deposited retry λ was_required. do
        transfer_nonce ← fresh_nonce was_required nonce
        sent ← ask services (
            fast_connector.near_fast_transfer f.transfer_id.origin_chain f.tx_hash
              f.storage_deposit_amount (included transfer_nonce))
        on_answer sent (λ tx_hash. pure remove)
            (λ e. on_near_error services e "Failed to initiate fast transfer")

  fast_transfer : FastTransferEvent → AccountId → FastTransfer
  fast_transfer f token_id = record {
    transfer_id = to_unified f.transfer_id;
    token_id = token_id;
    amount = f.amount;
    fee = f.fee;
    recipient = f.recipient;
    msg = f.msg;
  }

  -- The checks on the chains, from the id of the token on.
  check_fast : FastTransferEvent → AccountId → Job services EventAction
  check_fast f token_id = do
    is_finalised ← ask services (fast_connector.near_is_transfer_finalised f.transfer_id)
    unless_finalised is_finalised "Transfer is already finalised" (do
      status ← ask services (
          fast_connector.near_get_fast_transfer_status
            (services.fast_transfer_id (fast_transfer f token_id)))
      unless_paid status (do
        last ← ask services (fast_connector.evm_get_last_block_number f.transfer_id.origin_chain)
        or_return last retry λ last_block.
            if ltb (last_block - f.block_number) f.safe_confirmations
            then pure retry
            else send_fast f))

  start_fast : FastTransferEvent → Job services EventAction
  start_fast f =
      if get_chain f.recipient == ChainKind.near
      then catch_retry (get_token_id services fast_connector f.transfer_id.origin_chain f.token)
          (check_fast f)
      else bail "Fast transfer is supported only for transfers to NEAR for now"

  unfoldable pub initiate_fast_transfer : Transfer → Job services EventAction
  unfolding catch_retry unless_paid fresh_nonce send_fast fast_transfer check_fast start_fast
  initiate_fast_transfer (Transfer.fast f) =
      if fast_connector.near_client_configured
      then start_fast f
      else bail "Near bridge client is not configured"
  initiate_fast_transfer _ =
      if fast_connector.near_client_configured
      then bail "Expected FastTransferEvent"
      else bail "Near bridge client is not configured"
