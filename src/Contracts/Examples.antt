-- ===== src/Contracts/Examples.antt =====
-- The theorems on the contracts at concrete arguments.
use kza_lending.Base.{
  ℕ, ◌+◌, ◌*◌, ◌/◌, ◌≡◌, refl, some, none, ltb, ◌&&◌, if◌then◌else◌, ◌==◌, [], ◌∷◌, arith,
}
use kza_lending.Base.Int.{pos, ◌+ℤ◌}
use kza_lending.Base.Result.{ok, err, division_by_zero}
use kza_lending.WadRay.{ray_mul, ray_div, percent_mul, nat_ray, nat_half_ray}
use kza_lending.Calc.Config.{Configuration, reserve_configuration, find_index}
use kza_lending.Calc.Interest.{calc_linear_interest, calc_compounded_interest}
use kza_lending.Calc.Rates.{calc_expected_interest_rates}
use kza_lending.Contracts.Words.{word, checked_add, checked_sub}
use kza_lending.Contracts.FixedPoint.{
  contract_ray_mul, contract_ray_div, contract_wad_to_ray, contract_percent_mul,
}
use kza_lending.Contracts.FixedPoint.Agree.{words_agree}
use kza_lending.Contracts.Interest.{contract_linear_interest, contract_compounded_interest}
use kza_lending.Contracts.Interest.Agree.{contract_interest_agrees}
use kza_lending.Contracts.RateStrategy.{
  Strategy, RateParams, constructor, calculate_interest_rates, get_base_stable_borrow_rate, usage,
  sloped, with_stable_excess, get_overall_borrow_rate,
}
use kza_lending.Contracts.RateStrategy.Steps.{params_of, IsBuilt}
use kza_lending.Contracts.RateStrategy.Built.{constructor-IsBuilt}
use kza_lending.Contracts.RateStrategy.Parts.{available_of}
use kza_lending.Contracts.RateStrategy.Agree.{rates_agree}

abbrev strategy : Strategy
strategy = record {
  optimal_usage_ratio = 800000000000000000000000000;
  max_excess_usage_ratio = 200000000000000000000000000;
  optimal_stable_to_total_debt_ratio = 200000000000000000000000000;
  max_excess_stable_to_total_debt_ratio = 800000000000000000000000000;
  base_variable_borrow_rate = 0;
  variable_rate_slope1 = 40000000000000000000000000;
  variable_rate_slope2 = 750000000000000000000000000;
  stable_rate_slope1 = 5000000000000000000000000;
  stable_rate_slope2 = 750000000000000000000000000;
  base_stable_rate_offset = 10000000000000000000000000;
  stable_rate_excess_offset = 80000000000000000000000000;
}

abbrev request : RateParams
request = record {
  unbacked = 0;
  liquidity_added = 10000000000000000000;
  liquidity_taken = 0;
  total_stable_debt = 100000000000000000000;
  total_variable_debt = 200000000000000000000;
  average_stable_borrow_rate = 60000000000000000000000000;
  reserve_factor = 1000;
  balance = 1000000000000000000000;
}

abbrev market : Configuration
market = ("DAI", record { reserve_factor = pos 1000; strategy = params_of strategy }) ∷ []

words_agree_example :
    (p : ℕ) × (q : ℕ) × (r : ℕ) × (ray_mul (pos 7) (pos 3) ≡ pos p)
    × (contract_ray_mul 7 3 ≡ (if ltb (7 * 3 + nat_half_ray) word then some p else none))
    × (ray_div (pos 7) (pos 3) ≡ (if 3 == 0 then err division_by_zero else ok (pos q)))
    × (contract_ray_div 7 3 ≡ (if ltb 0 3 && ltb (7 * nat_ray + 3 / 2) word then some q else none))
    × (percent_mul (pos 7) (pos 3) ≡ pos r)
    × (contract_percent_mul 7 3 ≡ (if ltb (7 * 3 + 5000) word then some r else none))
words_agree_example = words_agree 7 3 (omega arith)

contract_interest_agrees_example :
    (c : ℕ) × (l : ℕ) × (contract_compounded_interest 40000000000000000000000000 1000 5000 ≡ some c)
    × (calc_compounded_interest (pos 40000000000000000000000000) (pos 5000) (pos 1000) ≡ pos c)
    × (contract_linear_interest 40000000000000000000000000 1000 5000 ≡ some l)
    × (calc_linear_interest (pos 40000000000000000000000000) (pos 5000) (pos 1000) ≡ pos l)
contract_interest_agrees_example =
    contract_interest_agrees 40000000000000000000000000 1000 5000 (omega arith) (omega arith)
      (omega arith)

constructed :
    constructor 800000000000000000000000000 0 40000000000000000000000000 750000000000000000000000000
      5000000000000000000000000 750000000000000000000000000 10000000000000000000000000
      80000000000000000000000000 200000000000000000000000000
    ≡ some strategy
unfolding constructor
constructed = refl

constructor-IsBuilt_example :
    IsBuilt strategy
    × (params_of strategy ≡ record {
      optimal_usage_ratio = pos 800000000000000000000000000;
      base_variable_borrow_rate = pos 0;
      variable_rate_slope1 = pos 40000000000000000000000000;
      variable_rate_slope2 = pos 750000000000000000000000000;
      stable_rate_slope1 = pos 5000000000000000000000000;
      stable_rate_slope2 = pos 750000000000000000000000000;
      base_stable_rate_offset = pos 10000000000000000000000000;
      stable_rate_excess_offset = pos 80000000000000000000000000;
      optimal_stable_to_total_debt_ratio = pos 200000000000000000000000000;
    })
constructor-IsBuilt_example =
    constructor-IsBuilt 800000000000000000000000000 0 40000000000000000000000000
      750000000000000000000000000 5000000000000000000000000 750000000000000000000000000
      10000000000000000000000000 80000000000000000000000000 200000000000000000000000000 strategy
      constructed

market_dai :
    reserve_configuration market "DAI"
    ≡ ok (record { reserve_factor = pos 1000; strategy = params_of strategy })
unfolding reserve_configuration find_index
market_dai = refl

base_rate : get_base_stable_borrow_rate strategy ≡ some 50000000000000000000000000
unfolding get_base_stable_borrow_rate checked_add
base_rate = refl

rates :
    calculate_interest_rates strategy request
    ≡ some (5695472291824485752578521, 64764631043256997455470738, 11450381679389312977099236)
unfolding calculate_interest_rates usage sloped with_stable_excess get_overall_borrow_rate
    get_base_stable_borrow_rate checked_add checked_sub contract_ray_mul contract_ray_div
    contract_wad_to_ray contract_percent_mul
rates = refl

rates_agree_example :
    calc_expected_interest_rates market "DAI"
      (pos 50000000000000000000000000)
      (pos 100000000000000000000)
      (pos 200000000000000000000)
      (pos 60000000000000000000000000)
      (available_of request)
      (available_of request +ℤ pos 0)
    ≡ ok (record {
      liquidity = pos 5695472291824485752578521;
      stable = pos 64764631043256997455470738;
      variable = pos 11450381679389312977099236;
    })
rates_agree_example =
    rates_agree strategy request market "DAI" 50000000000000000000000000 5695472291824485752578521
      64764631043256997455470738 11450381679389312977099236 constructor-IsBuilt_example.0 market_dai
      base_rate rates
