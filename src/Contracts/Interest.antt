-- ===== src/Contracts/Interest.antt =====
-- The library MathUtils of contracts/protocol/libraries/math; `now` is the timestamp of the block.
pub mod Agree
use kza_lending.Base.{
  ℕ, ◌+◌, ◌-◌, ◌*◌, ◌/◌, ◌≤◌, ◌≡◌, Option, none, some, arith, ltb, ◌==◌, if◌then◌else◌, Bool-cases,
  inl, inr, ap, sym, ◌∙◌,
}
use kza_lending.Base.Int.{pos}
use kza_lending.WadRay.{nat_ray, nat_ray_mul}
use kza_lending.Calc.Interest.{calc_linear_interest, calc_compounded_interest}
use kza_lending.Calc.Interest.Natural.{
  nat_year, nat_linear, nat_compound, nat_power_two, nat_power_three, compound_zero, linear_pos,
  compounded_pos,
}
use kza_lending.Contracts.Words.{
  ◌>>=◌, checked_add, checked_sub, checked_mul, checked_add-Gives, checked_sub-Gives,
  checked_mul-Gives, Gives, chain, give, if_Gives, weaken,
}
use kza_lending.Contracts.FixedPoint.{contract_ray_mul, ray_mul_Gives}

-- `calculateLinearInterest`
unfoldable pub contract_linear_interest : ℕ → ℕ → ℕ → Option ℕ
contract_linear_interest rate last_update_timestamp now = do
  elapsed ← checked_sub now last_update_timestamp
  product ← checked_mul rate elapsed
  checked_add nat_ray (product / nat_year)

-- The branch of `calculateCompoundedInterest` for a time that is not 0.
unfoldable pub contract_compound : ℕ → ℕ → Option ℕ
contract_compound rate exp = do
  let exp_minus_one = exp - 1
  let exp_minus_two = if ltb 2 exp then exp - 2 else 0
  square ← contract_ray_mul rate rate
  let base_power_two = square / (nat_year * nat_year)
  cube ← contract_ray_mul base_power_two rate
  let base_power_three = cube / nat_year
  pairs ← checked_mul exp exp_minus_one
  second_term ← checked_mul pairs base_power_two
  triples ← checked_mul pairs exp_minus_two
  third_term ← checked_mul triples base_power_three
  simple ← checked_mul rate exp
  first ← checked_add nat_ray (simple / nat_year)
  second ← checked_add first (second_term / 2)
  checked_add second (third_term / 6)

-- `calculateCompoundedInterest`
unfoldable pub contract_compounded_interest : ℕ → ℕ → ℕ → Option ℕ
unfolding contract_compound
contract_compounded_interest rate last_update_timestamp current_timestamp = do
  exp ← checked_sub current_timestamp last_update_timestamp
  let later = contract_compound rate exp
  if exp == 0 then some nat_ray else later

two_less : (n : ℕ) → (if ltb 2 n then n - 2 else 0) ≡ n - 2
two_less n = ground arith

compound_Gives : (rate exp : ℕ) → Gives (contract_compound rate exp) (nat_compound rate exp)
unfolding contract_compound nat_compound nat_power_two nat_power_three
compound_Gives rate exp = rw two_less (
    chain _ _ (ray_mul_Gives _ _) (
      chain _ _ (ray_mul_Gives _ _) (
        chain _ _ (checked_mul-Gives _ _) (
          chain _ _ (checked_mul-Gives _ _) (
            chain _ _ (checked_mul-Gives _ _) (
              chain _ _ (checked_mul-Gives _ _) (
                chain _ _ (checked_mul-Gives _ _) (
                  chain _ _ (checked_add-Gives _ _)
                    (chain _ _ (checked_add-Gives _ _) (checked_add-Gives _ _))))))))))

no_time : (rate n : ℕ) → (if n == 0 then nat_ray else nat_compound rate n) ≡ nat_compound rate n
no_time rate n = ground (arith, compound_zero rate n)

pub linear_Gives :
    (rate last now : ℕ)
    → Gives (contract_linear_interest rate last now) (nat_linear rate (now - last))
unfolding contract_linear_interest nat_linear
linear_Gives rate last now =
    chain _ _ (checked_sub-Gives _ _)
      (chain _ _ (checked_mul-Gives _ _) (weaken (checked_add-Gives _ _) (omega arith)))

pub compounded_Gives :
    (rate last now : ℕ)
    → Gives (contract_compounded_interest rate last now) (nat_compound rate (now - last))
unfolding contract_compounded_interest
compounded_Gives rate last now =
    chain _ _ (checked_sub-Gives _ _)
      (weaken (if_Gives (now - last == 0) give (compound_Gives _ _)) (no_time rate (now - last)))
