-- ===== src/Contracts/FixedPoint/Agree.antt =====
-- The methods of WadRayMath and PercentageMath against those of
-- test-suites/helpers/utils/wadraymath.ts.
use kza_lending.Base.{
  ℕ, ◌+◌, ◌*◌, ◌/◌, ◌<◌, ◌≡◌, some, none, ltb, ◌==◌, ◌&&◌, if◌then◌else◌, arith, zero, suc, refl,
}
use kza_lending.Base.Int.{pos}
use kza_lending.Base.Result.{ok, err, division_by_zero}
use kza_lending.WadRay.{
  nat_ray, nat_half_ray, nat_ray_mul, nat_ray_div, nat_percent_mul, ray_mul, ray_div, percent_mul,
  ray_mul_pos, ray_div_pos, percent_mul_pos,
}
use kza_lending.Contracts.Words.{word}
use kza_lending.Contracts.FixedPoint.{
  contract_ray_mul, contract_ray_div, contract_percent_mul, contract_ray_mul_lem,
  contract_ray_div_lem, contract_percent_mul_lem,
}

ray_div_cases :
    (a b : ℕ)
    → ray_div (pos a) (pos b)
      ≡ (if b == 0 then err division_by_zero else ok (pos (nat_ray_div a b)))
unfolding ray_div
ray_div_cases a zero = refl
ray_div_cases a (suc b) = rw (ray_div_pos a (suc b) (omega arith)) (ground arith)

-- On words, each of the three methods of the contracts returns just the number that the method of the
-- reference calculations gives, if that number's dividend, the half added, fits a word, and reverts
-- if it does not; a division by 0 reverts where the reference method throws.
pub words_agree :
    (a b : ℕ)
    → b < word
    → (p : ℕ) × (q : ℕ) × (r : ℕ) × (ray_mul (pos a) (pos b) ≡ pos p)
      × (contract_ray_mul a b ≡ (if ltb (a * b + nat_half_ray) word then some p else none))
      × (ray_div (pos a) (pos b) ≡ (if b == 0 then err division_by_zero else ok (pos q)))
      × (contract_ray_div a b
          ≡ (if ltb 0 b && ltb (a * nat_ray + b / 2) word then some q else none))
      × (percent_mul (pos a) (pos b) ≡ pos r)
      × (contract_percent_mul a b ≡ (if ltb (a * b + 5000) word then some r else none))
words_agree a b h = (
  nat_ray_mul a b,
  nat_ray_div a b,
  nat_percent_mul a b,
  ray_mul_pos a b,
  contract_ray_mul_lem a b,
  ray_div_cases a b,
  contract_ray_div_lem a b h,
  percent_mul_pos a b,
  contract_percent_mul_lem a b,
)
