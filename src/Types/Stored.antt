-- ===== src/Types/Stored.antt =====
-- The versioned records that the contract stores: near/omni-bridge/src/storage.rs.
use omni_bridge.Prelude.{ℕ, String, Option, none, some}
use omni_bridge.Types.Codecs.{AccountId}
use omni_bridge.Types.Address.{OmniAddress}
use omni_bridge.Types.Transfer.{
  Fee, TransferId, UnifiedTransferId, TransferMessage, FastTransferStatus, to_unified,
}

pub record Decimals : Type 0 where
  pub decimals : ℕ
  pub origin_decimals : ℕ

pub record TransferMessageV0 : Type 0 where
  pub origin_nonce : ℕ
  pub token : OmniAddress
  pub amount : ℕ
  pub recipient : OmniAddress
  pub fee : Fee
  pub sender : OmniAddress
  pub msg : String
  pub destination_nonce : ℕ

pub record TransferMessageV1 : Type 0 where
  pub origin_nonce : ℕ
  pub token : OmniAddress
  pub amount : ℕ
  pub recipient : OmniAddress
  pub fee : Fee
  pub sender : OmniAddress
  pub msg : String
  pub destination_nonce : ℕ
  pub origin_transfer_id : Option TransferId

pub record TransferMessageStorageValueV0 : Type 0 where
  pub message : TransferMessageV0
  pub owner : AccountId

pub record TransferMessageStorageValueV1 : Type 0 where
  pub message : TransferMessageV1
  pub owner : AccountId

pub record TransferMessageStorageValue : Type 0 where
  pub message : TransferMessage
  pub owner : AccountId

pub data TransferMessageStorage : Type 0 where
  v0 : TransferMessageStorageValueV0 → TransferMessageStorage
  v1 : TransferMessageStorageValueV1 → TransferMessageStorage
  v2 : TransferMessageStorageValue → TransferMessageStorage

upgrade_id : Option TransferId → Option UnifiedTransferId
upgrade_id none = none
upgrade_id (some t) = some (to_unified t)

unfoldable pub into_main : TransferMessageStorage → TransferMessageStorageValue
unfolding upgrade_id to_unified
into_main (TransferMessageStorage.v0 m) = record {
  message = record {
    origin_nonce = m.message.origin_nonce;
    token = m.message.token;
    amount = m.message.amount;
    recipient = m.message.recipient;
    fee = m.message.fee;
    sender = m.message.sender;
    msg = m.message.msg;
    destination_nonce = m.message.destination_nonce;
    origin_transfer_id = none;
  };
  owner = m.owner;
}
into_main (TransferMessageStorage.v1 m) = record {
  message = record {
    origin_nonce = m.message.origin_nonce;
    token = m.message.token;
    amount = m.message.amount;
    recipient = m.message.recipient;
    fee = m.message.fee;
    sender = m.message.sender;
    msg = m.message.msg;
    destination_nonce = m.message.destination_nonce;
    origin_transfer_id = upgrade_id m.message.origin_transfer_id;
  };
  owner = m.owner;
}
into_main (TransferMessageStorage.v2 m) = m

pub data FastTransferStatusStorage : Type 0 where
  v0 : FastTransferStatus → FastTransferStatusStorage

-- `FastTransferStatusStorage::into_main`.
abbrev pub fast_into_main : FastTransferStatusStorage → FastTransferStatus
fast_into_main (FastTransferStatusStorage.v0 s) = s
