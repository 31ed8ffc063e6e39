-- ===== src/Calc/Rates/Ratios.antt =====
-- The usage ratios of test-suites/helpers/utils/calculations.ts.
use native.Mathlib.Nat.{mul-le-mul_left}
use kza_lending.Base.{
  ℕ, zero, suc, ◌+◌, ◌*◌, ◌/◌, ◌≤◌, ◌<◌, ◌≡◌, refl, arith, ◌==◌, Bool-cases, inl, inr,
  if◌then◌else◌,
}
use kza_lending.Base.Int.{ℤ, pos, ◌+ℤ◌, ◌≤ℤ◌, pos-add}
use kza_lending.Base.Result.{ok}
use kza_lending.WadRay.{
  ray, nat_ray, nat_ray_div, ray_div_pos, nat_ray_div_bounds, nat_ray_div_greatest,
  nat_ray_div_least,
}
use kza_lending.Calc.Rates.{UsageRatios, usage_ratio, calc_expected_usage_ratios}

-- The ratio over ℕ.
unfoldable pub nat_usage : ℕ → ℕ → ℕ
nat_usage debt liquidity = if debt == 0 then 0 else nat_ray_div debt (liquidity + debt)

pub usage_ratio_pos :
    (debt liquidity : ℕ)
    → usage_ratio (pos debt) (pos liquidity) ≡ ok (pos (nat_usage debt liquidity))
unfolding usage_ratio nat_usage
usage_ratio_pos debt liquidity = elim (Bool-cases (debt == 0)) [
  | inl zero_debt ↦ ground arith
  | inr some_debt ↦
      let p : 0 < liquidity + debt = ground arith in
      rw pos-add (ground (arith, ray_div_pos debt (liquidity + debt) p))
]

-- A quotient q of at least 1 by b + d is one that b allows too.
quotient_fits : (x q b d : ℕ) → q * (b + d) ≤ x + (b + d) / 2 → q * b ≤ x + b / 2
quotient_fits x zero b d h = omega arith
quotient_fits x (suc q) b d h = omega arith

nat_ray_div_antitone : (a b d : ℕ) → 0 < b → nat_ray_div a (b + d) ≤ nat_ray_div a b
nat_ray_div_antitone a b d h =
    let q = nat_ray_div a (b + d) in
    let fits = quotient_fits (a * nat_ray) q b d (nat_ray_div_bounds a (b + d) (omega arith)).0 in
    nat_ray_div_greatest a b q h fits

nat_ray_div-le_ray : (a b : ℕ) → 0 < b → a ≤ b → nat_ray_div a b ≤ nat_ray
nat_ray_div-le_ray a b h k =
    let up = mul-le-mul_left nat_ray k in nat_ray_div_least a b h (omega arith)

nat_usage_antitone :
    (debt liquidity more : ℕ) → nat_usage debt (liquidity + more) ≤ nat_usage debt liquidity
unfolding nat_usage
nat_usage_antitone debt liquidity more = elim (Bool-cases (debt == 0)) [
  | inl zero_debt ↦ rw zero_debt (omega arith)
  | inr some_debt ↦
      let e : liquidity + more + debt ≡ liquidity + debt + more = omega arith in
      rw (some_debt, e) (nat_ray_div_antitone debt (liquidity + debt) more (ground arith))
]

pub nat_usage-le_ray : (debt liquidity : ℕ) → nat_usage debt liquidity ≤ nat_ray
unfolding nat_usage
nat_usage-le_ray debt liquidity = elim (Bool-cases (debt == 0)) [
  | inl zero_debt ↦ rw zero_debt (omega arith)
  | inr some_debt ↦
      rw some_debt (nat_ray_div-le_ray debt (liquidity + debt) (ground arith) (omega arith))
]

pub usage_ratios_pos :
    (stable variable available more : ℕ)
    → calc_expected_usage_ratios
        (pos stable)
        (pos variable)
        (pos available)
        (pos (available + more))
      ≡ ok (record {
        borrow = pos (nat_usage (stable + variable) available);
        supply = pos (nat_usage (stable + variable) (available + more));
      })
unfolding calc_expected_usage_ratios
usage_ratios_pos stable variable available more =
    let debt = stable + variable in
    ground (
      arith,
      nat_usage_antitone debt available more,
      pos-add stable variable,
      usage_ratio_pos debt available,
      usage_ratio_pos debt (available + more),
    )

pub usage_ratios_no_debt :
    (available total : ℤ)
    → calc_expected_usage_ratios (pos 0) (pos 0) available total
      ≡ ok (record { borrow = pos 0; supply = pos 0 })
unfolding calc_expected_usage_ratios usage_ratio ◌+ℤ◌
usage_ratios_no_debt available total = refl

-- On debts and liquidity that are not negative, with a total liquidity of at least the available one,
-- the ratios are given: the assertion holds, nothing divides by 0, and supply ≤ borrow ≤ one ray.
pub usage_ratios_total :
    (stable variable available more : ℕ)
    → (u : UsageRatios) × (calc_expected_usage_ratios
          (pos stable)
          (pos variable)
          (pos available)
          (pos (available + more))
        ≡ ok u)
      × (pos 0 ≤ℤ u.supply)
      × (u.supply ≤ℤ u.borrow)
      × (u.borrow ≤ℤ ray)
usage_ratios_total stable variable available more =
    let debt = stable + variable in
    let order = nat_usage_antitone debt available more in
    let top = nat_usage-le_ray debt available in
    (
      record {
        borrow = pos (nat_usage debt available);
        supply = pos (nat_usage debt (available + more));
      },
      usage_ratios_pos stable variable available more,
      omega arith,
      omega arith,
      omega arith,
    )
