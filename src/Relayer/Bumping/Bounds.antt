-- ===== src/Relayer/Bumping/Bounds.antt =====
-- The fees of a replacement, `should_bump` of omni-relayer/src/startup/evm_fee_bumping.rs.
use native.Mathlib.Nat.{mod-eq_of_lt}
use omni_bridge.Prelude.{ℕ, ◌+◌, ◌*◌, ◌%◌, ◌^◌, ◌<◌, ◌≤◌, ◌≡◌, arith}
use omni_bridge.Relayer.Services.{FeeBumping}
use omni_bridge.Relayer.Bumping.{Estimation, ShouldBump, should_bump, raised}

-- A fee raised by the percentage, rounded down.
raised-bound :
    (percent fee : ℕ)
    → percent < 2 ^ 63
    → fee * (100 + percent) < 2 ^ 128
    → fee * (100 + percent) < 100 * (raised percent fee + 1)
raised-bound percent fee h room =
    let inner : (100 + percent) % 2 ^ 64 ≡ 100 + percent = omega arith in
    rw inner (
      let outer : fee * (100 + percent) % 2 ^ 128 ≡ fee * (100 + percent) = mod-eq_of_lt room in
      rw outer (omega arith))

module _ (config : FeeBumping) (original suggested : Estimation) {fee : Estimation} where
  bump-parts :
      should_bump config original suggested ≡ ShouldBump.bump fee
      → (original.max_fee_per_gas ≤ suggested.max_fee_per_gas)
        × (fee.max_fee_per_gas ≤ config.max_fee_in_wei)
        × (suggested.max_fee_per_gas ≤ fee.max_fee_per_gas)
        × (suggested.max_priority_fee_per_gas ≤ fee.max_priority_fee_per_gas)
        × (raised config.min_fee_increase_percent original.max_fee_per_gas ≤ fee.max_fee_per_gas)
        × (raised config.min_fee_increase_percent original.max_priority_fee_per_gas
            ≤ fee.max_priority_fee_per_gas)
  unfolding should_bump
  bump-parts h = ground arith

  -- A replacement of a transaction pays at least the suggested fees and at most the configured
  -- maximum per gas, and raises both fees by the configured percentage, up to rounding, while there
  -- is room in 128 bits and the percentage is less than 2 ^ 63.
  pub should_bump-bounds :
      config.min_fee_increase_percent < 2 ^ 63
      → original.max_fee_per_gas * (100 + config.min_fee_increase_percent) < 2 ^ 128
      → original.max_priority_fee_per_gas * (100 + config.min_fee_increase_percent) < 2 ^ 128
      → should_bump config original suggested ≡ ShouldBump.bump fee
      → (fee.max_fee_per_gas ≤ config.max_fee_in_wei)
        × (suggested.max_fee_per_gas ≤ fee.max_fee_per_gas)
        × (suggested.max_priority_fee_per_gas ≤ fee.max_priority_fee_per_gas)
        × (original.max_fee_per_gas * (100 + config.min_fee_increase_percent)
            < 100 * (fee.max_fee_per_gas + 1))
        × (original.max_priority_fee_per_gas * (100 + config.min_fee_increase_percent)
            < 100 * (fee.max_priority_fee_per_gas + 1))
  should_bump-bounds small room priority_room h =
      let parts = bump-parts h in
      (
        parts.1,
        parts.2,
        parts.3,
        at_least (raised-bound _ original.max_fee_per_gas small room) parts.4,
        at_least (raised-bound _ original.max_priority_fee_per_gas small priority_room) parts.5,
      )
    where
      at_least : {a b c : ℕ} → a < 100 * (b + 1) → b ≤ c → a < 100 * (c + 1)
      at_least p q = omega arith
