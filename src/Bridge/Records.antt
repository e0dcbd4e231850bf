-- ===== src/Bridge/Records.antt =====
-- Writing and removing the records of transfers, with the storage that each is charged or
-- refunded for: the `add_` and `remove_` functions of near/omni-bridge/src/lib.rs.
pub mod Nonces
use omni_bridge.Prelude.{ℕ, ◌+◌, Bool, true, false, not, Option, none, some, is_none, if◌then◌else◌}
use omni_bridge.Prelude.Equality.{◌==◌, nat_eq, string_eq, list_eq}
use omni_bridge.Prelude.Maps.{insert, remove, add, erase}
use omni_bridge.Prelude.Words.{saturating_mul}
use omni_bridge.Types.Chain.{ChainKind, chain_eq}
use omni_bridge.Types.Codecs.{Bytes, AccountId}
use omni_bridge.Types.Transfer.{
  TransferId, UnifiedTransferId, TransferIdKind, TransferMessage, FastTransfer, FastTransferId,
  FastTransferStatus, get_transfer_id, transfer_id_eq, unified_eq,
}
use omni_bridge.Types.Stored.{
  TransferMessageStorage, TransferMessageStorageValue, FastTransferStatusStorage, into_main,
  fast_into_main,
}
use omni_bridge.Host.{Env}
use omni_bridge.Exec.{pure, expect, require, ◌>>=◌, ◌>>◌}
use omni_bridge.Bridge.State.{Contract, Action, update, view}
use omni_bridge.Bridge.Decimals.{next_u64}
use omni_bridge.Bridge.Balances.{credit}

abbrev pub lookup_message : Option TransferMessageStorage → Option TransferMessageStorageValue
lookup_message none = none
lookup_message (some v) = some (into_main v)

unfoldable pub get_transfer_message_storage : TransferId → Action TransferMessageStorageValue
get_transfer_message_storage id = do
  found ← view (λ c. c.pending_transfers id)
  expect (lookup_message found) "The transfer does not exist"

unfoldable pub get_transfer_message : TransferId → Action TransferMessage
get_transfer_message id = do found ← get_transfer_message_storage id; pure found.message

abbrev pub is_transfer_finalised : Contract → TransferId → Bool
is_transfer_finalised c id = c.finalised_transfers id

unfoldable pub finalised_at : Contract → UnifiedTransferId → TransferIdKind → Bool
finalised_at c id (TransferIdKind.nonce n) =
    c.finalised_transfers (record { origin_chain = id.origin_chain; origin_nonce = n })
finalised_at c id (TransferIdKind.utxo _) = c.finalised_utxo_transfers id

unfoldable pub is_unified_transfer_finalised : Contract → UnifiedTransferId → Bool
is_unified_transfer_finalised c id = finalised_at c id id.kind

unfoldable pub status_of : Option FastTransferStatusStorage → Option FastTransferStatus
status_of none = none
status_of (some s) = some (fast_into_main s)

unfoldable pub get_fast_transfer_status : FastTransferId → Action (Option FastTransferStatus)
get_fast_transfer_status id = view (λ c. status_of (c.fast_transfers id))

unfoldable pub is_finalised : Option FastTransferStatus → Bool
is_finalised none = false
is_finalised (some s) = s.finalised

unfoldable pub is_fast_transfer_finalised : Contract → FastTransferId → Bool
is_fast_transfer_finalised c id = is_finalised (status_of (c.fast_transfers id))

unfoldable pub next_nonce : ChainKind → Action ℕ
next_nonce chain = do
  old ← view (λ c. c.destination_nonces chain)
  nonce ← next_u64 (elim old [ none ↦ 0 | some n ↦ n ])
  update (λ c. record c { destination_nonces = insert chain nonce c.destination_nonces })
  pure nonce

unfoldable pub get_next_destination_nonce : ChainKind → Action ℕ
get_next_destination_nonce chain = if chain == ChainKind.near then pure 0 else next_nonce chain

-- `self.current_origin_nonce += 1`.
unfoldable pub bump_origin_nonce : Action ℕ
bump_origin_nonce = do
  old ← view (λ c. c.current_origin_nonce)
  nonce ← next_u64 old
  update (λ c. record c { current_origin_nonce = nonce })
  pure nonce

-- The result says whether the key was in use.
unfoldable pub insert_raw_transfer : TransferMessage → AccountId → Action Bool
insert_raw_transfer m owner = do
  old ← view (λ c. c.pending_transfers (get_transfer_id m))
  update (λ c. record c {
    pending_transfers =
        insert (get_transfer_id m)
          (TransferMessageStorage.v2 (record { message = m; owner = owner })) c.pending_transfers;
  })
  pure (not (is_none old))

unfoldable pub put_fast_transfer : FastTransferId → FastTransferStatus → Action Unit
put_fast_transfer id status = update (λ c. record c {
  fast_transfers = insert id (FastTransferStatusStorage.v0 status) c.fast_transfers;
})

unfoldable pub mark_fast_transfer_as_finalised : FastTransferId → Action Unit
mark_fast_transfer_as_finalised id = do
  found ← get_fast_transfer_status id
  status ← expect found "ERR_FAST_TRANSFER_NOT_FOUND"
  put_fast_transfer id (record status { finalised = true })

module _ (env : Env) where
  open env use {
    storage_byte_cost, record_bytes, transfer_id_len, transfer_storage_len, unified_id_len,
    fast_id_len, fast_status_len, account_id_len, yield_id_len, current,
  }

  -- The cost of a record: a prefix of one byte, a key and a value.
  unfoldable pub record_cost : ℕ → ℕ → ℕ
  record_cost key_len value_len =
      saturating_mul storage_byte_cost (record_bytes (1 + key_len) value_len)

  unfoldable pub transfer_cost : TransferId → TransferMessageStorage → ℕ
  transfer_cost id v = record_cost (transfer_id_len id) (transfer_storage_len v)

  unfoldable pub fast_cost : FastTransferId → FastTransferStatusStorage → ℕ
  fast_cost id v = record_cost (fast_id_len id) (fast_status_len v)

  unfoldable pub finalised_cost : TransferId → ℕ
  finalised_cost id = record_cost (transfer_id_len id) 0

  unfoldable pub utxo_cost : UnifiedTransferId → ℕ
  utxo_cost id = record_cost (unified_id_len id) 0

  unfoldable pub yield_cost : AccountId → ℕ
  yield_cost account = record_cost (account_id_len account) yield_id_len

  unfoldable pub add_transfer_message : TransferMessage → AccountId → Action ℕ
  add_transfer_message m owner = do
    occupied ← insert_raw_transfer m owner
    require (not occupied) "ERR_KEY_EXIST"
    pure (
        transfer_cost (get_transfer_id m)
          (TransferMessageStorage.v2 (record { message = m; owner = owner })))

  unfoldable pub remove_transfer_message : TransferId → Action TransferMessage
  remove_transfer_message id = do
    found ← view (λ c. c.pending_transfers id)
    stored ← expect found "ERR_TRANSFER_NOT_EXIST"
    update (λ c. record c { pending_transfers = remove id c.pending_transfers })
    let transfer = into_main stored
    credit transfer.owner (transfer_cost id stored)
    pure transfer.message

  unfoldable pub add_fin_transfer : TransferId → Action ℕ
  add_fin_transfer id = do
    finalised ← view (λ c. c.finalised_transfers id)
    require (not finalised) "The transfer is already finalised"
    update (λ c. record c { finalised_transfers = add id c.finalised_transfers })
    pure (finalised_cost id)

  -- Nothing is given back for a key that is not there.
  unfoldable pub remove_fin_transfer : TransferId → AccountId → Action Unit
  remove_fin_transfer id storage_owner = do
    finalised ← view (λ c. c.finalised_transfers id)
    update (λ c. record c { finalised_transfers = erase id c.finalised_transfers })
    credit storage_owner (if finalised then finalised_cost id else 0)

  unfoldable pub add_fin_utxo_transfer : UnifiedTransferId → Action ℕ
  add_fin_utxo_transfer id = do
    finalised ← view (λ c. c.finalised_utxo_transfers id)
    require (not finalised) "The UTXO transfer is already finalised"
    update (λ c. record c { finalised_utxo_transfers = add id c.finalised_utxo_transfers })
    pure (utxo_cost id)

  unfoldable pub remove_fin_utxo_transfer : UnifiedTransferId → AccountId → Action Unit
  remove_fin_utxo_transfer id storage_owner = do
    finalised ← view (λ c. c.finalised_utxo_transfers id)
    update (λ c. record c { finalised_utxo_transfers = erase id c.finalised_utxo_transfers })
    credit storage_owner (if finalised then utxo_cost id else 0)

  -- `FastTransfer::id`.
  unfoldable pub fast_transfer_id : FastTransfer → FastTransferId
  fast_transfer_id f = env.codecs.sha256 (env.fast_transfer_borsh f)

  unfoldable pub add_fast_transfer : FastTransfer → AccountId → AccountId → Action ℕ
  add_fast_transfer f relayer storage_owner = do
    let id = fast_transfer_id f
    let status : FastTransferStatus = record {
      finalised = false;
      relayer = relayer;
      storage_owner = storage_owner;
    }
    old ← view (λ c. c.fast_transfers id)
    put_fast_transfer id status
    require (is_none old) "Fast transfer is already performed"
    pure (fast_cost id (FastTransferStatusStorage.v0 status))

  unfoldable pub remove_fast_transfer : FastTransferId → Action Unit
  remove_fast_transfer id = do
    found ← view (λ c. c.fast_transfers id)
    stored ← expect found "ERR_TRANSFER_NOT_EXIST"
    update (λ c. record c { fast_transfers = remove id c.fast_transfers })
    credit (fast_into_main stored).storage_owner (fast_cost id stored)

  unfoldable pub add_promise : AccountId → Bytes → Action ℕ
  add_promise account yield_id = do
    old ← view (λ c. c.init_transfer_promises account)
    update (λ c. record c {
      init_transfer_promises = insert account yield_id c.init_transfer_promises;
    })
    require (is_none old) "ERR_KEY_EXIST"
    pure (yield_cost account)

  unfoldable pub remove_promise : AccountId → Action Unit
  remove_promise account = do
    old ← view (λ c. c.init_transfer_promises account)
    update (λ c. record c { init_transfer_promises = remove account c.init_transfer_promises })
    credit current (if is_none old then 0 else yield_cost account)
