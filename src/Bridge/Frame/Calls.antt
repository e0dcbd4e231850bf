-- ===== src/Bridge/Frame/Calls.antt =====
-- The methods that write neither the registry of tokens nor what the DAO sets.
use omni_bridge.Prelude.{ℕ, String, Option, none, some, List}
use omni_bridge.Types.Chain.{ChainKind}
use omni_bridge.Types.Codecs.{AccountId}
use omni_bridge.Types.Address.{OmniAddress}
use omni_bridge.Types.Transfer.{Fee, TransferMessage, FastTransferId, FastTransferStatus}
use omni_bridge.Types.Messages.{StorageDepositAction, InitTransferMessage}
use omni_bridge.Types.Stored.{Decimals}
use omni_bridge.Host.{Env, PromiseResult}
use omni_bridge.Exec.Keeps.{Keeps}
use omni_bridge.Bridge.State.{Contract}
use omni_bridge.Bridge.Guards.{is_private, deny_deposit}
use omni_bridge.Bridge.Decimals.{scale, denormalize_amount, denormalize_fee, normalize_amount}
use omni_bridge.Bridge.Tokens.{
  get_token_id, get_decimals, get_native_token_id, get_utxo_chain_token, promise_result,
  decode_prover_result, decoded,
}
use omni_bridge.Bridge.Settle.{
  storage_checked, action_matches, choose_payout, fee_checked, native_fee_checked, check_utxo_token,
  settle_or_forward,
}
use omni_bridge.Bridge.Fin.{check_factory, arrived}
use omni_bridge.Bridge.Frame.{On, Frame, frame_rules}
use omni_bridge.Bridge.Frame.Actions.{
  Keeps-get_next_destination_nonce, Keeps-remove_fast_transfer,
  Keeps-mark_fast_transfer_as_finalised, Keeps-add_transfer_message,
}

-- The calls that write nothing.
module _ {P : Contract → Type 0} where
  pub Keeps-get_token_id : (a : OmniAddress) → Keeps (On P) (get_token_id a)
  unfolding get_token_id
  Keeps-get_token_id (OmniAddress.near a) = search frame_rules
  Keeps-get_token_id _ = search frame_rules

  pub Keeps-get_decimals : (a : OmniAddress) → Keeps (On P) (get_decimals a)
  unfolding get_decimals
  Keeps-get_decimals a = search frame_rules

  pub Keeps-get_utxo_chain_token : (c : ChainKind) → Keeps (On P) (get_utxo_chain_token c)
  unfolding get_utxo_chain_token
  Keeps-get_utxo_chain_token c = search frame_rules

  pub Keeps-scale : (d : Decimals) → Keeps (On P) (scale d)
  unfolding scale
  Keeps-scale d = search frame_rules

  pub Keeps-denormalize_amount : (n : ℕ) (d : Decimals) → Keeps (On P) (denormalize_amount n d)
  unfolding denormalize_amount
  Keeps-denormalize_amount n d = search (frame_rules, Keeps-scale)

  pub Keeps-normalize_amount : (n : ℕ) (d : Decimals) → Keeps (On P) (normalize_amount n d)
  unfolding normalize_amount
  Keeps-normalize_amount n d = search (frame_rules, Keeps-scale)

  pub Keeps-denormalize_fee : (f : Fee) (d : Decimals) → Keeps (On P) (denormalize_fee f d)
  unfolding denormalize_fee
  Keeps-denormalize_fee f d = search (frame_rules, Keeps-denormalize_amount)

  pub Keeps-check_utxo_token :
      (a : OmniAddress) (t : AccountId) → Keeps (On P) (check_utxo_token a t)
  unfolding check_utxo_token
  Keeps-check_utxo_token a t = search (frame_rules, Keeps-get_utxo_chain_token)

  pub Keeps-check_factory : (a : OmniAddress) (e : String) → Keeps (On P) (check_factory a e)
  unfolding check_factory
  Keeps-check_factory a e = search frame_rules

  module _ (env : Env) where
    pub Keeps-is_private : Keeps (On P) (is_private env)
    unfolding is_private
    Keeps-is_private = search frame_rules

    pub Keeps-deny_deposit : Keeps (On P) (deny_deposit env)
    unfolding deny_deposit
    Keeps-deny_deposit = search frame_rules

    pub Keeps-get_native_token_id : (c : ChainKind) → Keeps (On P) (get_native_token_id env c)
    unfolding get_native_token_id
    Keeps-get_native_token_id c = search (frame_rules, Keeps-get_token_id)

    pub Keeps-decoded : (r : PromiseResult) → Keeps (On P) (decoded env r)
    unfolding decoded
    Keeps-decoded (PromiseResult.successful b) = search frame_rules
    Keeps-decoded PromiseResult.failed = search frame_rules

    pub Keeps-decode_prover_result : (i : ℕ) → Keeps (On P) (decode_prover_result env i)
    unfolding decode_prover_result promise_result
    Keeps-decode_prover_result i = search (frame_rules, Keeps-decoded)

    pub Keeps-storage_checked :
        (actions : List StorageDepositAction) (i : ℕ) (a t : AccountId)
        → Keeps (On P) (storage_checked env actions i a t)
    unfolding storage_checked action_matches
    Keeps-storage_checked actions i a t = search frame_rules

    pub Keeps-fee_checked :
        (actions : List StorageDepositAction) (a t : AccountId) (fee cost : ℕ)
        → Keeps (On P) (fee_checked env actions a t fee cost)
    unfolding fee_checked
    Keeps-fee_checked actions a t fee cost = search (frame_rules, Keeps-storage_checked)

    pub Keeps-native_fee_checked :
        (actions : List StorageDepositAction) (a : AccountId) (m : TransferMessage) (i : ℕ)
        → Keeps (On P) (native_fee_checked env actions a m i)
    unfolding native_fee_checked
    Keeps-native_fee_checked actions a m i =
        search (frame_rules, Keeps-storage_checked, Keeps-get_native_token_id)

module _ {P : Contract → Type 0} (frame : Frame P) (env : Env) where
  pub Keeps-arrived : (p : InitTransferMessage) → Keeps (On P) (arrived p)
  unfolding arrived
  Keeps-arrived p =
      search
        (
          frame_rules, Keeps-get_decimals, Keeps-get_next_destination_nonce,
          Keeps-denormalize_amount, Keeps-denormalize_fee,
        )
        depth 9

  pub Keeps-choose_payout :
      (recipient caller : AccountId) (m : TransferMessage) (id : FastTransferId)
      (o : Option FastTransferStatus)
      → Keeps (On P) (choose_payout env recipient caller m id o)
  unfolding choose_payout
  Keeps-choose_payout recipient caller m id none = search frame_rules
  Keeps-choose_payout recipient caller m id (some s) =
      search (frame_rules, Keeps-remove_fast_transfer) depth 7

  pub Keeps-settle_or_forward :
      (caller : AccountId) (m : TransferMessage) (token : AccountId) (id : FastTransferId)
      (o : Option FastTransferStatus) (cost : ℕ)
      → Keeps (On P) (settle_or_forward env caller m token id o cost)
  unfolding settle_or_forward
  Keeps-settle_or_forward caller m token id none cost =
      search (frame_rules, Keeps-add_transfer_message)
  Keeps-settle_or_forward caller m token id (some s) cost =
      search (frame_rules, Keeps-mark_fast_transfer_as_finalised) depth 9
