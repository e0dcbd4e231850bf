-- ===== src/Provers/Vaa.antt =====
-- The parser of a Wormhole VAA: byte_utils.rs and parsed_vaa.rs of
-- near/omni-prover/wormhole-omni-prover-proxy/src.
pub mod RoundTrip
use omni_bridge.Prelude.{ℕ, ◌+◌, ◌*◌, List, [], ◌∷◌, ltb, leb, length, if◌then◌else◌}
use omni_bridge.Prelude.Result.{Result, ok, err, ◌>>=◌}
use omni_bridge.Types.Codecs.{Bytes}
use omni_bridge.Provers.Slices.{index, slice, range_from}

-- `from_be_bytes`, of as many bytes as there are.
abbrev pub from_be : ℕ → Bytes → ℕ
from_be n [] = n
from_be n (b ∷ bs) = from_be (n * 256 + b) bs

-- The five methods of `ByteUtils`, which take 1, 2, 4, 8 and 32 bytes.
abbrev pub get_u8 : Bytes → ℕ → Result ℕ
get_u8 bs i = index bs i

abbrev pub get_u16 : Bytes → ℕ → Result ℕ
get_u16 bs i = slice bs i 2 >>= λ bytes. ok (from_be 0 bytes)

abbrev pub get_u32 : Bytes → ℕ → Result ℕ
get_u32 bs i = slice bs i 4 >>= λ bytes. ok (from_be 0 bytes)

abbrev pub get_u64 : Bytes → ℕ → Result ℕ
get_u64 bs i = slice bs i 8 >>= λ bytes. ok (from_be 0 bytes)

abbrev pub get_bytes32 : Bytes → ℕ → Result Bytes
get_bytes32 bs i = slice bs i 32

pub record ParsedVaa : Type 0 where
  pub version : ℕ
  pub guardian_set_index : ℕ
  pub timestamp : ℕ
  pub nonce : ℕ
  pub len_signers : ℕ
  pub emitter_chain : ℕ
  pub emitter_address : Bytes
  pub sequence : ℕ
  pub consistency_level : ℕ
  pub payload : Bytes
  pub hash : Bytes

abbrev pub header_len : ℕ
header_len = 6

abbrev pub signature_len : ℕ
signature_len = 66

abbrev pub vaa_payload_pos : ℕ
vaa_payload_pos = 51

-- `ParsedVAA::parse`.
unfoldable pub parse : (Bytes → Bytes) → Bytes → Result ParsedVaa
parse keccak256 vaa = do
  version ← get_u8 vaa 0
  guardian_set_index ← get_u32 vaa 1
  len_signers ← get_u8 vaa 5
  let body_offset = header_len + signature_len * len_signers
  body ← if leb (length vaa) body_offset then err "InvalidVAA" else range_from vaa body_offset
  let hash = keccak256 body
  if ltb (length vaa) (body_offset + vaa_payload_pos) then err "InvalidVAA" else do
    timestamp ← get_u32 vaa body_offset
    nonce ← get_u32 vaa (body_offset + 4)
    emitter_chain ← get_u16 vaa (body_offset + 8)
    emitter_address ← get_bytes32 vaa (body_offset + 10)
    sequence ← get_u64 vaa (body_offset + 42)
    consistency_level ← get_u8 vaa (body_offset + 50)
    payload ← range_from vaa (body_offset + vaa_payload_pos)
    ok record {
      version = version;
      guardian_set_index = guardian_set_index;
      timestamp = timestamp;
      nonce = nonce;
      len_signers = len_signers;
      emitter_chain = emitter_chain;
      emitter_address = emitter_address;
      sequence = sequence;
      consistency_level = consistency_level;
      payload = payload;
      hash = hash;
    }
