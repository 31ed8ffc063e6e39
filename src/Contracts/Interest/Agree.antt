-- ===== src/Contracts/Interest/Agree.antt =====
-- The interest of contracts/protocol/libraries/math/MathUtils.sol against the one of
-- test-suites/helpers/utils/calculations.ts.
use native.Mathlib.Nat.{mul-le-mul}
use kza_lending.Base.{ℕ, ◌+◌, ◌-◌, ◌*◌, ◌^◌, ◌≤◌, ◌<◌, ◌≡◌, some, arith, ap, ◌∙◌}
use kza_lending.Base.Int.{pos}
use kza_lending.WadRay.{nat_ray, nat_half_ray, nat_ray_mul_bounds}
use kza_lending.Calc.Interest.{calc_linear_interest, calc_compounded_interest}
use kza_lending.Calc.Interest.Natural.{
  nat_linear, nat_compound, nat_power_two, nat_power_three, linear_pos, compounded_pos,
  compound_zero,
}
use kza_lending.Calc.Interest.Growth.{linear-le-compound}
use kza_lending.Contracts.Words.{
  word, checked_add_fits, checked_mul_fits, checked_sub_fits, chain_fits,
}
use kza_lending.Contracts.FixedPoint.{ray_mul_fits}
use kza_lending.Contracts.Interest.{
  contract_linear_interest, contract_compound, contract_compounded_interest, two_less,
}

power_two_small : (rate : ℕ) → rate < 2 ^ 128 → nat_power_two rate < 2 ^ 117
unfolding nat_power_two
power_two_small rate h =
    let le : rate ≤ 2 ^ 128 - 1 = omega arith in
    omega (arith, nat_ray_mul_bounds rate rate, mul-le-mul le le)

power_three_small : (rate : ℕ) → rate < 2 ^ 128 → nat_power_three rate < 2 ^ 131
unfolding nat_power_three
power_three_small rate h =
    let p = nat_power_two rate in
    let le : rate ≤ 2 ^ 128 - 1 = omega arith in
    let two : p ≤ 2 ^ 117 - 1 = omega (arith, power_two_small rate h) in
    omega (arith, nat_ray_mul_bounds p rate, mul-le-mul two le)

-- What the checked products of the compounded interest stay below.
record Fits (rate n : ℕ) : Type 0 where
  square : rate * rate + nat_half_ray < word
  cube : nat_power_two rate * rate + nat_half_ray < word
  pairs : n * (n - 1) < word
  second : n * (n - 1) * nat_power_two rate < word
  triples : n * (n - 1) * (n - 2) < word
  third : n * (n - 1) * (n - 2) * nat_power_three rate < word
  simple : rate * n < word
  total : nat_compound rate n < word

small-Fits : (rate n : ℕ) → rate < 2 ^ 128 → n < 2 ^ 40 → Fits rate n
unfolding nat_compound
small-Fits rate n h k =
    let le : rate ≤ 2 ^ 128 - 1 = omega arith in
    let two : nat_power_two rate ≤ 2 ^ 117 = omega (arith, power_two_small rate h) in
    let three : nat_power_three rate ≤ 2 ^ 131 = omega (arith, power_three_small rate h) in
    let n₀ : n ≤ 2 ^ 40 = omega arith in
    let n₁ : n - 1 ≤ 2 ^ 40 = omega arith in
    let n₂ : n - 2 ≤ 2 ^ 40 = omega arith in
    let pairs = mul-le-mul n₀ n₁ in
    let triples = mul-le-mul pairs n₂ in
    let second = mul-le-mul pairs two in
    let third = mul-le-mul triples three in
    let simple = mul-le-mul le n₀ in
    record {
      square = omega (arith, mul-le-mul le le);
      cube = omega (arith, mul-le-mul two le);
      pairs = omega arith;
      second = omega arith;
      triples = omega arith;
      third = omega arith;
      simple = omega arith;
      total = omega arith;
    }

compound-Fits : (rate n : ℕ) → Fits rate n → contract_compound rate n ≡ some (nat_compound rate n)
unfolding contract_compound nat_compound nat_power_two nat_power_three
compound-Fits rate n f = rw two_less (
    chain_fits _ _ (ray_mul_fits _ _ f.square) (
      chain_fits _ _ (ray_mul_fits _ _ f.cube) (
        chain_fits _ _ (checked_mul_fits _ _ f.pairs) (
          chain_fits _ _ (checked_mul_fits _ _ f.second) (
            chain_fits _ _ (checked_mul_fits _ _ f.triples) (
              chain_fits _ _ (checked_mul_fits _ _ f.third) (
                chain_fits _ _ (checked_mul_fits _ _ f.simple) (
                  chain_fits _ _ (checked_add_fits _ _ (omega (arith, f.total))) (
                    chain_fits _ _ (checked_add_fits _ _ (omega (arith, f.total)))
                      (checked_add_fits _ _ f.total))))))))))

-- At a rate below 2^128, which the reserve stores, and times in 40 bits of which the last update is
-- not the later, neither function of the contract reverts, and the reference calculation expects just
-- what it returns. (The two take the times in opposite orders.)
pub contract_interest_agrees :
    (rate last now : ℕ)
    → rate < 2 ^ 128
    → last ≤ now
    → now < 2 ^ 40
    → (c : ℕ) × (l : ℕ) × (contract_compounded_interest rate last now ≡ some c)
      × (calc_compounded_interest (pos rate) (pos now) (pos last) ≡ pos c)
      × (contract_linear_interest rate last now ≡ some l)
      × (calc_linear_interest (pos rate) (pos now) (pos last) ≡ pos l)
unfolding contract_compounded_interest contract_linear_interest nat_linear
contract_interest_agrees rate last now h k l =
    let n = now - last in
    let f = small-Fits rate n h (omega arith) in
    (
      nat_compound rate n,
      nat_linear rate n,
      chain_fits _ _ (checked_sub_fits now last k)
          (ground (arith, compound-Fits rate n f, compound_zero rate n)),
      compounded_pos rate now last k,
      chain_fits _ _ (checked_sub_fits now last k) (
          chain_fits _ _ (checked_mul_fits rate n f.simple) (
            checked_add_fits nat_ray _ (omega (arith, linear-le-compound rate n, f.total))
            ∙ ap some (omega arith))),
      linear_pos rate now last k,
    )
