-- ===== src/Provers/Events.antt =====
-- The events of the EVM contracts as messages: `TryFromLog` of near/omni-types/src/evm/events.rs.
use omni_bridge.Prelude.{ℕ, String, Option}
use omni_bridge.Prelude.Result.{Result, ok, ok_or, ◌>>=◌}
use omni_bridge.Types.Chain.{ChainKind, try_from}
use omni_bridge.Types.Codecs.{Bytes, Codecs}
use omni_bridge.Types.Address.{H160, new_from_evm_address}
use omni_bridge.Types.Parse.{parse_address}
use omni_bridge.Types.Messages.{
  InitTransferMessage, FinTransferMessage, DeployTokenMessage, LogMetadataMessage,
}

-- The events of the block `sol!`.
pub record InitTransfer : Type 0 where
  pub sender : H160
  pub token_address : H160
  pub origin_nonce : ℕ
  pub amount : ℕ
  pub fee : ℕ
  pub native_token_fee : ℕ
  pub recipient : String
  pub message : String

pub record FinTransfer : Type 0 where
  pub origin_chain : ℕ
  pub origin_nonce : ℕ
  pub token_address : H160
  pub amount : ℕ
  pub recipient : H160
  pub fee_recipient : String

pub record DeployToken : Type 0 where
  pub token_address : H160
  pub token : String
  pub name : String
  pub symbol : String
  pub decimals : ℕ
  pub origin_decimals : ℕ

pub record LogMetadata : Type 0 where
  pub token_address : H160
  pub name : String
  pub symbol : String
  pub decimals : ℕ

-- `Log` of the crate alloy: the contract that logged, and the event.
pub record Log (E : Type 0) : Type 0 where
  pub address : H160
  pub event_data : E

-- `Log::decode` and then `decode_log_validate` of each event.
pub record EventDecoders : Type 0 where
  pub init_transfer : Bytes → Option (Log InitTransfer)
  pub fin_transfer : Bytes → Option (Log FinTransfer)
  pub deploy_token : Bytes → Option (Log DeployToken)
  pub log_metadata : Bytes → Option (Log LogMetadata)

module _ (codecs : Codecs) (chain_kind : ChainKind) where
  unfoldable pub fin_transfer_from_log : Log FinTransfer → Result FinTransferMessage
  fin_transfer_from_log event = do
    chain ← try_from event.event_data.origin_chain
    emitter ← new_from_evm_address chain_kind event.address
    ok record {
      transfer_id = record { origin_chain = chain; origin_nonce = event.event_data.origin_nonce };
      fee_recipient = codecs.parse_account_id event.event_data.fee_recipient;
      amount = event.event_data.amount;
      emitter_address = emitter;
    }

  unfoldable pub init_transfer_from_log : Log InitTransfer → Result InitTransferMessage
  init_transfer_from_log event = do
    emitter ← new_from_evm_address chain_kind event.address
    token ← new_from_evm_address chain_kind event.event_data.token_address
    recipient ← parse_address codecs event.event_data.recipient
    sender ← new_from_evm_address chain_kind event.event_data.sender
    ok record {
      origin_nonce = event.event_data.origin_nonce;
      token = token;
      amount = event.event_data.amount;
      recipient = recipient;
      fee = record { fee = event.event_data.fee; native_fee = event.event_data.native_token_fee };
      sender = sender;
      msg = event.event_data.message;
      emitter_address = emitter;
    }

  unfoldable pub deploy_token_from_log : Log DeployToken → Result DeployTokenMessage
  deploy_token_from_log event = do
    token ← ok_or (codecs.parse_account_id event.event_data.token) "invalid account id"
    token_address ← new_from_evm_address chain_kind event.event_data.token_address
    emitter ← new_from_evm_address chain_kind event.address
    ok record {
      token = token;
      token_address = token_address;
      decimals = event.event_data.decimals;
      origin_decimals = event.event_data.origin_decimals;
      emitter_address = emitter;
    }

  unfoldable pub log_metadata_from_log : Log LogMetadata → Result LogMetadataMessage
  log_metadata_from_log event = do
    token_address ← new_from_evm_address chain_kind event.event_data.token_address
    emitter ← new_from_evm_address chain_kind event.address
    ok record {
      token_address = token_address;
      name = event.event_data.name;
      symbol = event.event_data.symbol;
      decimals = event.event_data.decimals;
      emitter_address = emitter;
    }
