-- ===== src/Types/Transfer.antt =====
-- Transfers, fees and their identifiers: near/omni-types/src/lib.rs.
use omni_bridge.Prelude.{ℕ, String, ◌≡◌, ◌↔◌, Bool, true, false, ◌&&◌, Option, arith, nat_beq}
use omni_bridge.Prelude.Equality.{PartialEq, ◌==◌, string_eq}
use omni_bridge.Prelude.Result.{Result, ok, err}
use omni_bridge.Types.Chain.{ChainKind, chain_eq}
use omni_bridge.Types.Codecs.{Bytes, AccountId}
use omni_bridge.Types.Address.{OmniAddress, get_chain}

pub record Fee : Type 0 where
  pub fee : ℕ
  pub native_fee : ℕ

pub fee_beq : Fee → Fee → Bool
fee_beq a b = nat_beq a.fee b.fee && nat_beq a.native_fee b.native_fee

pub fee_beq_iff : (a b : Fee) → (fee_beq a b ≡ true) ↔ (a ≡ b)
unfolding fee_beq
fee_beq_iff a b = ground arith

instance abbrev pub fee_eq : PartialEq Fee
fee_eq = record { eq = fee_beq; agrees = fee_beq_iff }

-- `Fee::is_zero`.
unfoldable pub is_zero_fee : Fee → Bool
is_zero_fee f = nat_beq f.fee 0 && nat_beq f.native_fee 0

pub record TransferId : Type 0 where
  pub origin_chain : ChainKind
  pub origin_nonce : ℕ

pub transfer_id_beq : TransferId → TransferId → Bool
transfer_id_beq a b = a.origin_chain == b.origin_chain && nat_beq a.origin_nonce b.origin_nonce

pub transfer_id_beq_iff : (a b : TransferId) → (transfer_id_beq a b ≡ true) ↔ (a ≡ b)
unfolding transfer_id_beq
transfer_id_beq_iff a b = ground (arith, chain_eq.agrees a.origin_chain b.origin_chain)

instance abbrev pub transfer_id_eq : PartialEq TransferId
transfer_id_eq = record { eq = transfer_id_beq; agrees = transfer_id_beq_iff }

pub record UtxoId : Type 0 where
  pub tx_hash : String
  pub vout : ℕ

pub data TransferIdKind : Type 0 where
  nonce : ℕ → TransferIdKind
  utxo : UtxoId → TransferIdKind

pub record UnifiedTransferId : Type 0 where
  pub origin_chain : ChainKind
  pub kind : TransferIdKind

pub utxo_id_beq : UtxoId → UtxoId → Bool
utxo_id_beq a b = a.tx_hash == b.tx_hash && nat_beq a.vout b.vout

pub kind_beq : TransferIdKind → TransferIdKind → Bool
unfolding utxo_id_beq
kind_beq (TransferIdKind.nonce a) (TransferIdKind.nonce b) = nat_beq a b
kind_beq (TransferIdKind.utxo a) (TransferIdKind.utxo b) = utxo_id_beq a b
kind_beq _ _ = false

kind_beq_iff : (a b : TransferIdKind) → (kind_beq a b ≡ true) ↔ (a ≡ b)
unfolding kind_beq
kind_beq_iff (TransferIdKind.nonce a) (TransferIdKind.nonce b) = ground arith
kind_beq_iff (TransferIdKind.nonce a) (TransferIdKind.utxo b) = ground arith
kind_beq_iff (TransferIdKind.utxo a) (TransferIdKind.nonce b) = ground arith
kind_beq_iff (TransferIdKind.utxo a) (TransferIdKind.utxo b) =
    ground (arith, string_eq.agrees a.tx_hash b.tx_hash)

pub unified_beq : UnifiedTransferId → UnifiedTransferId → Bool
unfolding kind_beq
unified_beq a b = a.origin_chain == b.origin_chain && kind_beq a.kind b.kind

pub unified_beq_iff : (a b : UnifiedTransferId) → (unified_beq a b ≡ true) ↔ (a ≡ b)
unified_beq_iff a b =
    unfold unified_beq in
    ground (arith, chain_eq.agrees a.origin_chain b.origin_chain, kind_beq_iff a.kind b.kind)

instance abbrev pub unified_eq : PartialEq UnifiedTransferId
unified_eq = record { eq = unified_beq; agrees = unified_beq_iff }

-- `From<TransferId> for UnifiedTransferId`, and `TryInto` the other way.
unfoldable pub to_unified : TransferId → UnifiedTransferId
to_unified t = record { origin_chain = t.origin_chain; kind = TransferIdKind.nonce t.origin_nonce }

plain_id : ChainKind → TransferIdKind → Result TransferId
plain_id c (TransferIdKind.nonce n) = ok (record { origin_chain = c; origin_nonce = n })
plain_id c (TransferIdKind.utxo _) = err "Cannot convert UTXO transfer ID to general transfer ID"

pub to_transfer_id : UnifiedTransferId → Result TransferId
unfolding plain_id
to_transfer_id u = plain_id u.origin_chain u.kind

pub record TransferMessage : Type 0 where
  pub origin_nonce : ℕ
  pub token : OmniAddress
  pub amount : ℕ
  pub recipient : OmniAddress
  pub fee : Fee
  pub sender : OmniAddress
  pub msg : String
  pub destination_nonce : ℕ
  pub origin_transfer_id : Option UnifiedTransferId

abbrev pub get_origin_chain : TransferMessage → ChainKind
get_origin_chain m = get_chain m.sender

abbrev pub get_transfer_id : TransferMessage → TransferId
get_transfer_id m = record { origin_chain = get_origin_chain m; origin_nonce = m.origin_nonce }

abbrev pub get_destination_chain : TransferMessage → ChainKind
get_destination_chain m = get_chain m.recipient

-- The part of a message that names the virtual account which may pay for its storage.
pub record TransferMessageStorageAccount : Type 0 where
  pub token : OmniAddress
  pub amount : ℕ
  pub recipient : OmniAddress
  pub fee : Fee
  pub sender : OmniAddress
  pub msg : String

unfoldable pub storage_account_from : TransferMessage → TransferMessageStorageAccount
storage_account_from m = record {
  token = m.token;
  amount = m.amount;
  recipient = m.recipient;
  fee = m.fee;
  sender = m.sender;
  msg = m.msg;
}

pub record FastTransfer : Type 0 where
  pub transfer_id : UnifiedTransferId
  pub token_id : AccountId
  pub amount : ℕ
  pub fee : Fee
  pub recipient : OmniAddress
  pub msg : String

-- A `FastTransferId` is the hash of a fast transfer.
abbrev pub FastTransferId : Type 0
FastTransferId = Bytes

abbrev pub from_transfer : TransferMessage → AccountId → FastTransfer
from_transfer m token_id = record {
  transfer_id = record {
    origin_chain = get_origin_chain m;
    kind = TransferIdKind.nonce m.origin_nonce;
  };
  token_id = token_id;
  amount = m.amount;
  fee = m.fee;
  recipient = m.recipient;
  msg = m.msg;
}

pub record FastTransferStatus : Type 0 where
  pub finalised : Bool
  pub relayer : AccountId
  pub storage_owner : AccountId
