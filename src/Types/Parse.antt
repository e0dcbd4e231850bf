-- ===== src/Types/Parse.antt =====
-- The texts that are read as addresses: the `FromStr` of near/omni-types/src/lib.rs and
-- sol_address.rs.
use Prim.Native.String.{len}
use text.Mathlib.Text.{find?, get?, starts_with}
use omni_bridge.Prelude.{String, ◌+◌, Option, none, some, if◌then◌else◌, unwrap_or}
use omni_bridge.Prelude.Equality.{◌==◌, string_eq}
use omni_bridge.Prelude.Result.{Result, ok, err, ok_or, ◌>>=◌}
use omni_bridge.Types.Codecs.{Codecs}
use omni_bridge.Types.Address.{H160, SolAddress, OmniAddress, to_array}

-- `split_once`: the texts before and after the first separator.
abbrev pub split_once : String → String → Option (String × String)
split_once separator text = elim (find? text separator) [
  | none ↦ none
  | some i ↦
      some (unwrap_or (get? text 0 i) "", unwrap_or (get? text (i + len separator) (len text)) "")
]

abbrev pub strip_prefix : String → String → Option String
strip_prefix prefix text =
    if starts_with text prefix then get? text (len prefix) (len text) else none

module _ (codecs : Codecs) where
  open codecs use {hex_decode, bs58_decode, parse_account_id}

  abbrev pub parse_h160 : String → Result H160
  parse_h160 text =
      ok_or (hex_decode (unwrap_or (strip_prefix "0x" text) text)) "ERR_INVALIDE_HEX" >>= λ bytes.
      to_array 20 bytes "Invalid length"

  abbrev pub parse_sol_address : String → Result SolAddress
  parse_sol_address text =
      ok_or (bs58_decode text) "invalid base58" >>= λ bytes. to_array 32 bytes "Invalid length"

  abbrev pub parse_recipient : String → String → Result OmniAddress
  parse_recipient chain recipient =
      if chain == "eth"
      then (parse_h160 recipient >>= λ a. ok (OmniAddress.eth a))
      else if chain == "near"
      then (ok_or (parse_account_id recipient) "invalid account id" >>= λ a.
          ok (OmniAddress.near a))
      else if chain == "sol"
      then (parse_sol_address recipient >>= λ a. ok (OmniAddress.sol a))
      else if chain == "arb"
      then (parse_h160 recipient >>= λ a. ok (OmniAddress.arb a))
      else if chain == "base"
      then (parse_h160 recipient >>= λ a. ok (OmniAddress.base a))
      else if chain == "bnb"
      then (parse_h160 recipient >>= λ a. ok (OmniAddress.bnb a))
      else if chain == "pol"
      then (parse_h160 recipient >>= λ a. ok (OmniAddress.pol a))
      else if chain == "btc"
      then ok (OmniAddress.btc recipient)
      else if chain == "zcash"
      then ok (OmniAddress.zcash recipient)
      else err "Chain is not supported"

  unfoldable pub parse_address : String → Result OmniAddress
  parse_address input =
      let (chain, recipient) = unwrap_or (split_once ":" input) ("eth", input) in
      parse_recipient chain recipient
