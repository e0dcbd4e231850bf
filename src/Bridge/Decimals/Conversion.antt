-- ===== src/Bridge/Decimals/Conversion.antt =====
-- Amounts carried to another chain's decimals and back.
use omni_bridge.Prelude.{
  ℕ, zero, suc, ◌+◌, ◌-◌, ◌*◌, ◌/◌, ◌^◌, ◌≤◌, ◌<◌, ◌≡◌, refl, true, arith, leb,
}
use omni_bridge.Prelude.Words.{u128_max, checked_mul}
use omni_bridge.Prelude.Result.{ok}
use omni_bridge.Types.Stored.{Decimals}
use omni_bridge.Exec.{pure, expect, ◌>>=◌}
use omni_bridge.Exec.Triples.{bind-ok, bind-run, expect-run}
use omni_bridge.Bridge.State.{State}
use omni_bridge.Bridge.Decimals.{overflow, scale, denormalize_amount, normalize_amount}

pub pow_pos : (k : ℕ) → 0 < 10 ^ k
pow_pos zero = omega arith
pow_pos (suc k) = omega (arith, pow_pos k)

leb-true : (a b : ℕ) → a ≤ b → leb a b ≡ true
leb-true a b h = ground arith

-- The factor between the two counts of decimals, when it can be computed at all.
pub record IsScale (d : Decimals) (factor : ℕ) : Type 0 where
  pub ordered : d.decimals ≤ d.origin_decimals
  pub factor_eq : factor ≡ 10 ^ (d.origin_decimals - d.decimals)
  pub fits : factor ≤ u128_max
  pub positive : 0 < factor

pub scale-ok :
    (d : Decimals) (s : State) {factor : ℕ} {t : State}
    → scale d s ≡ ok (factor, t)
    → IsScale d factor × (t ≡ s)
unfolding scale ◌>>=◌
scale-ok d s h = ground (arith, pow_pos (d.origin_decimals - d.decimals))

pub scale-run :
    (d : Decimals) (s : State) {factor : ℕ} → IsScale d factor → scale d s ≡ ok (factor, s)
unfolding scale ◌>>=◌
scale-run d s {factor} h =
    rw (leb-true d.decimals d.origin_decimals h.ordered)
      (rw (← h.factor_eq) (rw (leb-true factor u128_max h.fits) refl))

-- The part that a round trip loses is less than the factor.
pub div_mul_bounds : (n f : ℕ) → 0 < f → (n / f * f ≤ n) × (n < n / f * f + f)
div_mul_bounds n f h = grind arith

pub normalize-ok :
    (n : ℕ) (d : Decimals) (s : State) {q : ℕ} {t : State}
    → normalize_amount n d s ≡ ok (q, t)
    → (factor : ℕ) × IsScale d factor × (q ≡ n / factor) × (t ≡ s)
unfolding normalize_amount
normalize-ok n d s h =
    let (factor, s', e, r) = bind-ok (scale d) (λ f. pure (n / f)) s h in
    let (scaled, same) = scale-ok d s e in
    (factor, scaled, unfold ◌>>=◌ in ground arith, unfold ◌>>=◌ in ground arith)

pub denormalize-run :
    (n : ℕ) (d : Decimals) (s : State) {factor : ℕ}
    → IsScale d factor
    → n * factor ≤ u128_max
    → denormalize_amount n d s ≡ ok (n * factor, s)
unfolding denormalize_amount
denormalize-run n d s {factor} h fits =
    bind-run (scale d) _ s (scale-run d s h)
      (expect-run _ s (rw (leb-true (n * factor) u128_max fits) refl))

pub normalize-run :
    (n : ℕ) (d : Decimals) (s : State) {factor : ℕ}
    → IsScale d factor
    → normalize_amount n d s ≡ ok (n / factor, s)
unfolding normalize_amount ◌>>=◌
normalize-run n d s h = rw (scale-run d s h) refl

mul_div : (n f : ℕ) → 0 < f → n * f / f ≡ n
mul_div n f h = grind arith

checked_mul-ok :
    (a b : ℕ) (s : State) {c : ℕ} {t : State}
    → expect (checked_mul u128_max a b) overflow s ≡ ok (c, t)
    → (c ≡ a * b) × (a * b ≤ u128_max) × (s ≡ t)
unfolding ◌>>=◌
checked_mul-ok a b s h = ground arith

-- An amount that is carried to the decimals of NEAR is carried back to itself.
pub normalize-denormalize :
    (n : ℕ) (d : Decimals) (s : State) {a : ℕ} {t : State}
    → denormalize_amount n d s ≡ ok (a, t)
    → normalize_amount a d t ≡ ok (n, t)
unfolding denormalize_amount
normalize-denormalize n d s {a} {t} h =
    let (factor, s', e, r) = bind-ok (scale d) _ s h in
    let (scaled, _) = scale-ok d s e in
    let (product, _, _) = checked_mul-ok n factor s' r in
    rw (normalize-run a d t scaled) (rw product (rw (mul_div n factor scaled.positive) refl))
