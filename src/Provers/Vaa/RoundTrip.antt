-- ===== src/Provers/Vaa/RoundTrip.antt =====
-- A VAA that is written in the documented format is parsed back.
use omni_bridge.Prelude.{
  ℕ, zero, suc, Bool, false, ◌≡◌, refl, sym, ap, ◌∙◌, ◌+◌, ◌*◌, ◌/◌, ◌%◌, ◌<◌, [], ◌∷◌, ◌++◌, ltb,
  leb, length, if◌then◌else◌, arith,
}
use omni_bridge.Prelude.Result.{Result, ok, ◌>>=◌}
use omni_bridge.Types.Codecs.{Bytes}
use omni_bridge.Provers.Slices.{index, prefix_of, slice, range_from}
use omni_bridge.Provers.Vaa.{ParsedVaa, from_be, parse}

-- `to_be_bytes`, of a width, and the numbers of that width.
abbrev pub to_be : ℕ → ℕ → Bytes
to_be zero n = []
to_be (suc w) n = to_be w (n / 256) ++ n % 256 ∷ []

abbrev pub bound : ℕ → ℕ
bound zero = 1
bound (suc w) = bound w * 256

from_be-append : (acc b : ℕ) (bs : Bytes) → from_be acc (bs ++ b ∷ []) ≡ from_be acc bs * 256 + b
from_be-append acc b [] = refl
from_be-append acc b (x ∷ bs) = from_be-append (acc * 256 + x) b bs

from_be-to_be : (w n : ℕ) → n < bound w → from_be 0 (to_be w n) ≡ n
from_be-to_be zero n h = omega arith
from_be-to_be (suc w) n h =
    from_be-append 0 (n % 256) (to_be w (n / 256))
    ∙ grind (arith, from_be-to_be w (n / 256) (omega arith))

prefix_of-append : (xs ys : Bytes) → prefix_of (length xs) (xs ++ ys) ≡ ok xs
prefix_of-append [] ys = refl
prefix_of-append (x ∷ xs) ys = rw (prefix_of-append xs ys)

slice-append : (xs ys : Bytes) (i n k : ℕ) → k ≡ length xs + i → slice (xs ++ ys) k n ≡ slice ys i n
slice-append [] ys i n k h = ap (λ j. slice ys j n) (omega arith)
slice-append (x ∷ xs) ys i n zero h = absurd (omega arith)
slice-append (x ∷ xs) ys i n (suc k) h = slice-append xs ys i n k (omega arith)

index-append : (xs ys : Bytes) (i k : ℕ) → k ≡ length xs + i → index (xs ++ ys) k ≡ index ys i
index-append [] ys i k h = ap (λ j. index ys j) (omega arith)
index-append (x ∷ xs) ys i zero h = absurd (omega arith)
index-append (x ∷ xs) ys i (suc k) h = index-append xs ys i k (omega arith)

range_from-append :
    (xs ys : Bytes) (i k : ℕ) → k ≡ length xs + i → range_from (xs ++ ys) k ≡ range_from ys i
range_from-append [] ys i k h = ap (λ j. range_from ys j) (omega arith)
range_from-append (x ∷ xs) ys i zero h = absurd (omega arith)
range_from-append (x ∷ xs) ys i (suc k) h = range_from-append xs ys i k (omega arith)

length-append : (xs ys : Bytes) → length (xs ++ ys) ≡ length xs + length ys
length-append [] ys = omega arith
length-append (x ∷ xs) ys = ground (arith, length-append xs ys)

module _ {A B : Type 0} where
  reads :
      {m : Result A} (f : A → Result B) {a : A} {r : Result B} → m ≡ ok a → f a ≡ r → (m >>= f) ≡ r
  reads f h k = ap (λ x. x >>= f) h ∙ k

unless :
    {B : Type 0} {b : Bool} (x : Result B) {y r : Result B}
    → b ≡ false
    → y ≡ r
    → (if b then x else y) ≡ r
unless x {y} h k = ap (λ c. if c then x else y) h ∙ k

-- A number where its bytes are.
number :
    (w n : ℕ) {m : Result Bytes}
    → m ≡ ok (to_be w n)
    → n < bound w
    → (m >>= λ bytes. ok (from_be 0 bytes)) ≡ ok n
number w n h k = reads _ h (ap ok (from_be-to_be w n k))

-- The body and the whole, as the comment in the source lays them out.
abbrev pub after_emitter : ParsedVaa → Bytes
after_emitter v = to_be 8 v.sequence ++ v.consistency_level ∷ v.payload

abbrev pub body_of : ParsedVaa → Bytes
body_of v =
    to_be 4 v.timestamp
    ++ (to_be 4 v.nonce ++ (to_be 2 v.emitter_chain ++ (v.emitter_address ++ after_emitter v)))

abbrev pub header_of : ParsedVaa → Bytes
header_of v = v.version ∷ (to_be 4 v.guardian_set_index ++ v.len_signers ∷ [])

abbrev pub vaa_of : ParsedVaa → Bytes → Bytes
vaa_of v signatures = header_of v ++ (signatures ++ body_of v)

-- The fields fit their widths, and there are as many signatures as the header says.
abbrev pub IsVaa : ParsedVaa → Bytes → Type 0
IsVaa v signatures =
    (v.guardian_set_index < bound 4)
    × (v.timestamp < bound 4)
    × (v.nonce < bound 4)
    × (v.emitter_chain < bound 2)
    × (v.sequence < bound 8)
    × (length v.emitter_address ≡ 32)
    × (length signatures ≡ 66 * v.len_signers)

module _ (v : ParsedVaa) (signatures : Bytes) (h : IsVaa v signatures) where
  in_body :
      (i n k : ℕ)
      → k ≡ 6 + 66 * v.len_signers + i
      → slice (vaa_of v signatures) k n ≡ slice (body_of v) i n
  in_body i n k e =
      slice-append (header_of v) (signatures ++ body_of v) (66 * v.len_signers + i) n k
        (omega arith)
      ∙ slice-append signatures (body_of v) i n (66 * v.len_signers + i) (ground (arith, h.6))

  from_body :
      (i k : ℕ)
      → k ≡ 6 + 66 * v.len_signers + i
      → range_from (vaa_of v signatures) k ≡ range_from (body_of v) i
  from_body i k e =
      range_from-append (header_of v) (signatures ++ body_of v) (66 * v.len_signers + i) k
        (omega arith)
      ∙ range_from-append signatures (body_of v) i (66 * v.len_signers + i) (ground (arith, h.6))

  index_body :
      (i k : ℕ)
      → k ≡ 6 + 66 * v.len_signers + i
      → index (vaa_of v signatures) k ≡ index (body_of v) i
  index_body i k e =
      index-append (header_of v) (signatures ++ body_of v) (66 * v.len_signers + i) k (omega arith)
      ∙ index-append signatures (body_of v) i (66 * v.len_signers + i) (ground (arith, h.6))

  length_vaa : length (vaa_of v signatures) ≡ 6 + 66 * v.len_signers + 51 + length v.payload
  length_vaa = ground (
    arith,
    length-append signatures (body_of v),
    length-append v.emitter_address (after_emitter v),
    h.5,
    h.6,
  )

  emitter : slice (body_of v) 10 32 ≡ ok v.emitter_address
  emitter =
      ap (λ n. slice (v.emitter_address ++ after_emitter v) 0 n) (sym h.5)
      ∙ prefix_of-append v.emitter_address (after_emitter v)

  sequence : slice (body_of v) 42 8 ≡ ok (to_be 8 v.sequence)
  sequence = slice-append v.emitter_address (after_emitter v) 0 8 32 (ground (arith, h.5))

  level : index (body_of v) 50 ≡ ok v.consistency_level
  level = index-append v.emitter_address (after_emitter v) 8 40 (ground (arith, h.5))

  payload : range_from (body_of v) 51 ≡ ok v.payload
  payload = range_from-append v.emitter_address (after_emitter v) 9 41 (ground (arith, h.5))

  has_body : leb (length (vaa_of v signatures)) (6 + 66 * v.len_signers) ≡ false
  has_body = ground (arith, length_vaa)

  has_payload : ltb (length (vaa_of v signatures)) (6 + 66 * v.len_signers + 51) ≡ false
  has_payload = ground (arith, length_vaa)

  -- A VAA in the documented format, with fields that fit and as many signatures as it says, is
  -- parsed to its fields and the hash of its body.
  pub parse-vaa_of :
      (keccak256 : Bytes → Bytes)
      → parse keccak256 (vaa_of v signatures) ≡ ok (record v { hash = keccak256 (body_of v) })
  unfolding parse
  parse-vaa_of keccak256 =
      reads _ (unless _ has_body (from_body 0 (6 + 66 * v.len_signers) (omega arith))) (
        unless _ has_payload (
          reads _ (number 4 v.timestamp (in_body 0 4 (6 + 66 * v.len_signers) (omega arith)) h.1) (
            reads _ (number 4 v.nonce (in_body 4 4 _ refl) h.2) (
              reads _ (number 2 v.emitter_chain (in_body 8 2 _ refl) h.3) (
                reads _ (in_body 10 32 _ refl ∙ emitter) (
                  reads _ (number 8 v.sequence (in_body 42 8 _ refl ∙ sequence) h.4) (
                    reads _ (index_body 50 _ refl ∙ level) (
                      reads _ (from_body 51 _ refl ∙ payload) (
                        ap
                          (λ n.
                            ok (record v { guardian_set_index = n; hash = keccak256 (body_of v) }))
                          (from_be-to_be 4 v.guardian_set_index h.0))))))))))
