-- ===== src/Types/Codecs.antt =====
-- The text and hash functions of other crates that near/omni-types calls: `hex`, `bs58`,
-- `AccountId::from_str`, `String::from_utf8`, the decimal `u32`, `keccak256` and `sha256`.
use omni_bridge.Prelude.{ℕ, String, Option, List}

abbrev pub Bytes : Type 0
Bytes = List ℕ

-- `near_sdk::AccountId`, by its text.
abbrev pub AccountId : Type 0
AccountId = String

pub record Codecs : Type 0 where
  pub hex_decode : String → Option Bytes
  pub hex_encode : Bytes → String
  pub bs58_decode : String → Option Bytes
  pub bs58_encode : Bytes → String
  pub parse_account_id : String → Option AccountId
  pub from_utf8 : Bytes → Option String
  pub utf8 : String → Bytes
  pub parse_u32 : String → Option ℕ
  pub print_u32 : ℕ → String
  pub keccak256 : Bytes → Bytes
  pub sha256 : Bytes → Bytes
