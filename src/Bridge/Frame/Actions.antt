-- ===== src/Bridge/Frame/Actions.antt =====
-- The functions that write only what a `Frame` leaves out.
use omni_bridge.Prelude.{ℕ}
use omni_bridge.Types.Chain.{ChainKind}
use omni_bridge.Types.Codecs.{Bytes, AccountId}
use omni_bridge.Types.Transfer.{
  TransferId, TransferMessage, FastTransfer, FastTransferId, FastTransferStatus,
}
use omni_bridge.Host.{Env, StorageBalance}
use omni_bridge.Exec.Keeps.{Keeps}
use omni_bridge.Bridge.State.{Contract}
use omni_bridge.Bridge.Decimals.{next_u64}
use omni_bridge.Bridge.Balances.{
  set_balance, credit, refund, try_update_storage_balance, update_storage_balance,
  try_to_transfer_balance_from_message_account, has_storage_balance, pay_from,
}
use omni_bridge.Bridge.Records.{
  add_transfer_message, insert_raw_transfer, remove_transfer_message, get_next_destination_nonce,
  bump_origin_nonce, put_fast_transfer, add_fast_transfer, remove_fast_transfer,
  mark_fast_transfer_as_finalised, get_fast_transfer_status, add_promise, remove_promise,
  next_nonce, get_transfer_message_storage, get_transfer_message,
}
use omni_bridge.Bridge.Frame.{On, Frame, frame_rules, Keeps-update}

module _ {P : Contract → Type 0} (frame : Frame P) where
  pub Keeps-set_balance : (a : AccountId) (b : StorageBalance) → Keeps (On P) (set_balance a b)
  unfolding set_balance
  Keeps-set_balance a b = Keeps-update _ (λ c. frame.balances c _)

  pub Keeps-credit : (a : AccountId) (amount : ℕ) → Keeps (On P) (credit a amount)
  unfolding credit
  Keeps-credit a amount = search (frame_rules, Keeps-set_balance)

  pub Keeps-refund : (a : AccountId) (amount : ℕ) → Keeps (On P) (refund a amount)
  unfolding refund
  Keeps-refund a amount = search frame_rules

  pub Keeps-try_update_storage_balance :
      (a : AccountId) (required deposit : ℕ)
      → Keeps (On P) (try_update_storage_balance a required deposit)
  unfolding try_update_storage_balance
  Keeps-try_update_storage_balance a required deposit =
      search (frame_rules, Keeps-refund, Keeps-set_balance) depth 8

  pub Keeps-insert_raw_transfer :
      (m : TransferMessage) (owner : AccountId) → Keeps (On P) (insert_raw_transfer m owner)
  unfolding insert_raw_transfer
  Keeps-insert_raw_transfer m owner = search (frame_rules, frame.pending)

  pub Keeps-add_transfer_message :
      (env : Env) (m : TransferMessage) (owner : AccountId)
      → Keeps (On P) (add_transfer_message env m owner)
  unfolding add_transfer_message
  Keeps-add_transfer_message env m owner = search (frame_rules, Keeps-insert_raw_transfer)

  pub Keeps-update_storage_balance :
      (a : AccountId) (required deposit : ℕ)
      → Keeps (On P) (update_storage_balance a required deposit)
  unfolding update_storage_balance
  Keeps-update_storage_balance a required deposit =
      search (frame_rules, Keeps-try_update_storage_balance)

  pub Keeps-has_storage_balance : (a : AccountId) (n : ℕ) → Keeps (On P) (has_storage_balance a n)
  unfolding has_storage_balance
  Keeps-has_storage_balance a n = search frame_rules

  pub Keeps-pay_from :
      (a : AccountId) (b : StorageBalance) (payer : AccountId) (p : StorageBalance) (n : ℕ)
      → Keeps (On P) (pay_from a b payer p n)
  unfolding pay_from
  Keeps-pay_from a b payer p n = search (frame_rules, Keeps-set_balance, frame.balances) depth 8

  pub Keeps-try_to_transfer :
      (a : AccountId) (n : ℕ) (payer : AccountId) (required : ℕ)
      → Keeps (On P) (try_to_transfer_balance_from_message_account a n payer required)
  unfolding try_to_transfer_balance_from_message_account
  Keeps-try_to_transfer a n payer required = search (frame_rules, Keeps-pay_from) depth 8

  pub Keeps-next_u64 : (n : ℕ) → Keeps (On P) (next_u64 n)
  Keeps-next_u64 n = search frame_rules

  pub Keeps-next_nonce : (c : ChainKind) → Keeps (On P) (next_nonce c)
  unfolding next_nonce
  Keeps-next_nonce c = search (frame_rules, frame.destination_nonces) depth 8

  pub Keeps-get_next_destination_nonce :
      (c : ChainKind) → Keeps (On P) (get_next_destination_nonce c)
  unfolding get_next_destination_nonce
  Keeps-get_next_destination_nonce c = search (frame_rules, Keeps-next_nonce)

  pub Keeps-bump_origin_nonce : Keeps (On P) bump_origin_nonce
  unfolding bump_origin_nonce
  Keeps-bump_origin_nonce = search (frame_rules, frame.origin_nonce) depth 8

  pub Keeps-remove_transfer_message :
      (env : Env) (id : TransferId) → Keeps (On P) (remove_transfer_message env id)
  unfolding remove_transfer_message
  Keeps-remove_transfer_message env id = search (frame_rules, frame.pending, Keeps-credit) depth 8

  pub Keeps-get_transfer_message_storage :
      (id : TransferId) → Keeps (On P) (get_transfer_message_storage id)
  unfolding get_transfer_message_storage
  Keeps-get_transfer_message_storage id = search frame_rules

  pub Keeps-get_transfer_message : (id : TransferId) → Keeps (On P) (get_transfer_message id)
  unfolding get_transfer_message
  Keeps-get_transfer_message id = search (frame_rules, Keeps-get_transfer_message_storage)

  pub Keeps-put_fast_transfer :
      (id : FastTransferId) (status : FastTransferStatus)
      → Keeps (On P) (put_fast_transfer id status)
  unfolding put_fast_transfer
  Keeps-put_fast_transfer id status = search (frame_rules, frame.fast)

  pub Keeps-add_fast_transfer :
      (env : Env) (f : FastTransfer) (relayer owner : AccountId)
      → Keeps (On P) (add_fast_transfer env f relayer owner)
  unfolding add_fast_transfer
  Keeps-add_fast_transfer env f relayer owner =
      search (frame_rules, Keeps-put_fast_transfer) depth 8

  pub Keeps-get_fast_transfer_status :
      (id : FastTransferId) → Keeps (On P) (get_fast_transfer_status id)
  unfolding get_fast_transfer_status
  Keeps-get_fast_transfer_status id = search frame_rules

  pub Keeps-mark_fast_transfer_as_finalised :
      (id : FastTransferId) → Keeps (On P) (mark_fast_transfer_as_finalised id)
  unfolding mark_fast_transfer_as_finalised
  Keeps-mark_fast_transfer_as_finalised id =
      search (frame_rules, Keeps-get_fast_transfer_status, Keeps-put_fast_transfer)

  pub Keeps-remove_fast_transfer :
      (env : Env) (id : FastTransferId) → Keeps (On P) (remove_fast_transfer env id)
  unfolding remove_fast_transfer
  Keeps-remove_fast_transfer env id = search (frame_rules, frame.fast, Keeps-credit) depth 8

  pub Keeps-add_promise :
      (env : Env) (a : AccountId) (id : Bytes) → Keeps (On P) (add_promise env a id)
  unfolding add_promise
  Keeps-add_promise env a id = search (frame_rules, frame.promises) depth 8

  pub Keeps-remove_promise : (env : Env) (a : AccountId) → Keeps (On P) (remove_promise env a)
  unfolding remove_promise
  Keeps-remove_promise env a = search (frame_rules, frame.promises, Keeps-credit) depth 8
