-- ===== src/Relayer/Workers/Near.antt =====
-- The handlers of omni-relayer/src/workers/near.rs for transfers out of NEAR, and the check of a
-- transaction in omni-relayer/src/utils/near.rs.
pub mod Charges
pub mod Follow
pub mod Settle
use omni_bridge.Prelude.{
  ℕ, zero, suc, String, ◌-◌, ◌^◌, Bool, true, false, not, ◌&&◌, ◌||◌, Option, none, some, List, [],
  ◌∷◌, if◌then◌else◌, ◌+◌, ◌%◌,
}
use omni_bridge.Prelude.Equality.{◌==◌, string_eq}
use omni_bridge.Prelude.Result.{Result}
use omni_bridge.Types.Chain.{ChainKind}
use omni_bridge.Types.Codecs.{AccountId}
use omni_bridge.Types.Address.{OmniAddress, get_chain, get_utxo_address, address_eq}
use omni_bridge.Types.Transfer.{
  Fee, TransferId, UnifiedTransferId, TransferMessage, get_transfer_id, get_origin_chain,
  get_destination_chain, to_transfer_id,
}
use omni_bridge.Relayer.Events.{
  CryptoHash, EventAction, retry, remove, Transfer, UnverifiedTransfer, TransferFee,
}
use omni_bridge.Relayer.Services.{
  Services, Connector, SdkResult, SdkError, NearRpcError, TransactionOptions,
}
use omni_bridge.Relayer.Task.{
  State, Job, pure, bail, ask, or_return, or_action, ◌>>=◌, ◌>>◌, reserve_near_nonce,
}
use omni_bridge.Relayer.Redis.{remove_event, events_key}
use omni_bridge.Relayer.Fees.{get_transfer_fee, check_fee}
use omni_bridge.Relayer.Workers.Common.{
  is_transient, included, retry_or_bail, unless_finalised, unless_decided, on_answer, add_new,
  watch,
}

-- The errors of the contract after which a signature is asked for again.
abbrev pub sign_errors : List String
sign_errors =
    "Signature request has already been submitted. Please try again later."
    ∷ "Signature request has timed out." ∷ "Attached deposit is lower than required"
    ∷ "Exceeded the prepaid gas." ∷ []

abbrev pub submit_errors : List String
submit_errors = "not exist" ∷ "Previous btc tx has not been signed" ∷ []

abbrev contains_address : List OmniAddress → OmniAddress → Bool
contains_address [] a = false
contains_address (x ∷ xs) a = x == a || contains_address xs a

abbrev pub signs_freely : Option (List OmniAddress) → OmniAddress → Bool
signs_freely none sender = false
signs_freely (some list) sender = contains_address list sender

module _ (services : Services) where
  open services use {Net, Value, omni_connector, json, config, contains}

  -- The message of the transfer, and the rest of the handler.
  unfoldable pub with_message :
      Transfer → (TransferMessage → Job services EventAction) → Job services EventAction
  with_message (Transfer.near m) k = k m
  with_message (Transfer.utxo _ new_id) k = or_action (to_transfer_id new_id) retry λ id. do
    found ← ask services (omni_connector.near_get_transfer_message id)
    or_return found retry k
  with_message _ k = bail "Expected Transfer::Near or Transfer::Utxo variant"

  -- The fee API is asked what fee is needed, and the fee of the transfer is held against it.
  unfoldable pub with_fee :
      OmniAddress
      → OmniAddress
      → OmniAddress
      → TransferId
      → Fee
      → Job services EventAction
      → Job services EventAction
  with_fee sender recipient token id provided rest = do
    needed ← get_transfer_fee services sender recipient token
    or_action needed retry λ needed_fee. do
      decided ← check_fee services needed_fee id provided
      unless_decided decided rest

  unfoldable pub checks_fee : OmniAddress → Bool
  checks_fee sender = elim config.api_url [
    | none ↦ false
    | some _ ↦ not (signs_freely config.sign_without_checking_fee sender)
  ]

  unfoldable pub fee_checked : TransferMessage → Job services EventAction → Job services EventAction
  unfolding checks_fee
  fee_checked m rest =
      if checks_fee m.sender
      then with_fee m.sender m.recipient m.token (get_transfer_id m) m.fee rest
      else rest

  -- The end of the handlers when a transaction fails for which only NEAR is to blame.
  unfoldable pub on_near_error : SdkError → String → Job services EventAction
  on_near_error (SdkError.near_rpc e) message = retry_or_bail (is_transient e) message
  on_near_error _ message = bail message

  abbrev pub unverified :
      CryptoHash → AccountId → List String → String → Value → UnverifiedTransfer Value
  unverified tx_hash signer errors key event = record {
    tx_hash = tx_hash;
    signer = signer;
    specific_errors = some errors;
    original_key = key;
    original_event = event;
  }

  -- With the event as JSON; without it the transaction is not followed up.
  unfoldable pub follow_up :
      CryptoHash → AccountId → List String → String → Option Value → Job services EventAction
  follow_up tx_hash signer errors key none = pure remove
  follow_up tx_hash signer errors key (some event) =
      watch services tx_hash (unverified tx_hash signer errors key event)

  -- The signature is asked for.
  unfoldable pub sign : String → AccountId → Transfer → TransferMessage → Job services EventAction
  sign key signer transfer m = do
    nonce ← reserve_near_nonce services
    sent ← ask services (
        omni_connector.near_sign_transfer (get_transfer_id m) (some signer) (some m.fee)
          (included nonce))
    on_answer sent
        (λ tx_hash. follow_up tx_hash signer sign_errors key (json.transfer_value transfer))
        (λ e. on_near_error e "Failed to sign transfer")

  unfoldable pub process_transfer_event : String → AccountId → Transfer → Job services EventAction
  process_transfer_event key signer transfer = with_message transfer λ m. do
    is_finalised ← ask services (
        omni_connector.is_transfer_finalised (some (get_origin_chain m)) (get_destination_chain m)
          m.destination_nonce)
    unless_finalised is_finalised "Transfer is already finalised"
        (fee_checked m (sign key signer transfer m))

  -- A failed submission to a UTXO chain.
  abbrev on_submit_error : SdkError → Job services EventAction
  on_submit_error (SdkError.near_rpc e) = retry_or_bail (is_transient e) "Failed to submit transfer"
  on_submit_error SdkError.insufficient_utxo_balance = pure retry
  on_submit_error (SdkError.insufficient_utxo_gas_fee _) = pure retry
  on_submit_error (SdkError.utxo_client msg) =
      retry_or_bail (msg == "Failed to estimate fee_rate") "Failed to submit transfer"
  on_submit_error _ = bail "Failed to submit transfer"

  -- To the UTXO address; the release build wraps around.
  submit :
      String → AccountId → Transfer → TransferMessage → Option String → Job services EventAction
  submit key signer transfer m none = bail "Expected UTXO recipient address"
  submit key signer transfer m (some recipient) = do
    nonce ← reserve_near_nonce services
    sent ← ask services (
        omni_connector.near_submit_btc_transfer (get_destination_chain m) recipient
          ((m.amount + (2 ^ 128 - m.fee.fee)) % 2 ^ 128) (get_transfer_id m) (included nonce)
          (json.read_max_gas_fee m.msg))
    on_answer sent
        (λ tx_hash. follow_up tx_hash signer submit_errors key (json.transfer_value transfer))
        on_submit_error

  unfoldable pub process_transfer_to_utxo_event :
      String → AccountId → Transfer → Job services EventAction
  unfolding submit
  process_transfer_to_utxo_event key signer (Transfer.near m) =
      submit key signer (Transfer.near m) m (get_utxo_address m.recipient)
  process_transfer_to_utxo_event key signer _ = bail "Expected NearTransferWithTimestamp"

  -- `is_tx_successful`: from the receipts that failed, by their errors.
  any_matches : List String → String → Bool
  any_matches [] e = false
  any_matches (x ∷ xs) e = contains e x || any_matches xs e

  receipts_pass : Option (List String) → List (Option String) → Bool
  receipts_pass errors [] = true
  receipts_pass errors (none ∷ rest) = receipts_pass errors rest
  receipts_pass none (some failure ∷ rest) = false
  receipts_pass (some errors) (some failure ∷ rest) =
      let others = receipts_pass (some errors) rest in
      if any_matches errors failure then false else others

  attempt_status : ℕ → CryptoHash → AccountId → Net → Option (Option (List (Option String))) × Net
  attempt_status zero tx_hash sender net = (none, net)
  attempt_status (suc left) tx_hash sender net =
      let (answer, after) = services.transaction_status tx_hash sender net in
      elim answer [
        | some response ↦ (some response, after)
        | none ↦ attempt_status left tx_hash sender after
      ]

  judge : Option (List String) → Option (Option (List (Option String))) → Bool
  judge errors none = false
  judge errors (some none) = true
  judge errors (some (some receipts)) = receipts_pass errors receipts

  unfoldable pub is_tx_successful :
      CryptoHash → AccountId → Option (List String) → Job services Bool
  unfolding attempt_status judge receipts_pass any_matches
  is_tx_successful tx_hash sender errors = do
    response ← ask services (attempt_status 10 tx_hash sender)
    pure (judge errors response)

  -- The event comes back under its key unless the transaction succeeded.
  unfoldable pub process_unverified_transfer_event : UnverifiedTransfer Value → Job services Unit
  process_unverified_transfer_event u = do
    remove_event services events_key u.tx_hash
    successful ← is_tx_successful u.tx_hash u.signer u.specific_errors
    if successful
        then pure tt
        else add_new services events_key u.original_key (some u.original_event)
