-- ===== src/Bridge/Decimals.antt =====
-- Amounts in a token's decimals on NEAR and on another chain: the last functions of
-- near/omni-bridge/src/lib.rs. `decimals` counts the digits on the other chain and
-- `origin_decimals` those on NEAR's side.
pub mod Conversion
use omni_bridge.Prelude.{ℕ, ◌/◌, ◌^◌, String}
use omni_bridge.Prelude.Words.{u128_max, u64_max, checked_sub, checked_add, checked_mul, fit}
use omni_bridge.Types.Transfer.{Fee}
use omni_bridge.Types.Stored.{Decimals}
use omni_bridge.Exec.{expect, pure, ◌>>=◌}
use omni_bridge.Bridge.State.{Action}

abbrev pub overflow : String
overflow = "attempt to perform an operation with overflow"

-- `10_u128.pow(diff_decimals)`, which panics on overflow as the subtraction of the `u8`s does.
unfoldable pub scale : Decimals → Action ℕ
scale d = do
  diff_decimals ← expect (checked_sub d.origin_decimals d.decimals) overflow
  expect (fit u128_max (10 ^ diff_decimals)) overflow

unfoldable pub denormalize_amount : ℕ → Decimals → Action ℕ
denormalize_amount amount d = do
  factor ← scale d
  expect (checked_mul u128_max amount factor) overflow

unfoldable pub normalize_amount : ℕ → Decimals → Action ℕ
normalize_amount amount d = do factor ← scale d; pure (amount / factor)

unfoldable pub denormalize_fee : Fee → Decimals → Action Fee
denormalize_fee f d = do
  fee ← denormalize_amount f.fee d
  pure (record { fee = fee; native_fee = f.native_fee })

-- `a - b` and `a + b` on `u128`, and `+= 1` on a `u64` nonce.
abbrev pub sub_u128 : ℕ → ℕ → Action ℕ
sub_u128 a b = expect (checked_sub a b) overflow

abbrev pub add_u128 : ℕ → ℕ → Action ℕ
add_u128 a b = expect (checked_add u128_max a b) overflow

abbrev pub next_u64 : ℕ → Action ℕ
next_u64 n = expect (checked_add u64_max n 1) overflow
