-- ===== src/Prelude/Words.antt =====
-- The unsigned words of the source. The contracts are built with overflow checks, so `+`, `-`
-- and `*` are partial; the `saturating_` functions are total. Values are kept below the bound.
use Prim.Native.Nat.{ℕ, ◌+◌, ◌-◌, ◌*◌, ◌^◌}
use mathlib.Core.Option.{Option, none, some}
use omni_bridge.Prelude.Tests.{leb, if◌then◌else◌}

abbrev pub u128_max : ℕ
u128_max = 2 ^ 128 - 1

abbrev pub u64_max : ℕ
u64_max = 2 ^ 64 - 1

-- `a.checked_sub(b)`, at every width.
abbrev pub checked_sub : ℕ → ℕ → Option ℕ
checked_sub a b = if leb b a then some (a - b) else none

-- A result of a checked operation, which has to fit.
abbrev pub fit : ℕ → ℕ → Option ℕ
fit bound n = if leb n bound then some n else none

abbrev pub checked_add : ℕ → ℕ → ℕ → Option ℕ
checked_add bound a b = fit bound (a + b)

abbrev pub checked_mul : ℕ → ℕ → ℕ → Option ℕ
checked_mul bound a b = fit bound (a * b)

abbrev pub saturate : ℕ → ℕ
saturate n = if leb n u128_max then n else u128_max

-- The three operations of `NearToken`, which holds a `u128`.
abbrev pub saturating_add : ℕ → ℕ → ℕ
saturating_add a b = saturate (a + b)

abbrev pub saturating_mul : ℕ → ℕ → ℕ
saturating_mul a b = saturate (a * b)

abbrev pub saturating_sub : ℕ → ℕ → ℕ
saturating_sub a b = a - b
