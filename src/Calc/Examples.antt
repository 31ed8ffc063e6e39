-- ===== src/Calc/Examples.antt =====
-- Concrete reserves and users, and the theorems on the calculations at them.
mod Transfers
mod Returns
mod Clearing
use kza_lending.Base.{ℕ, ◌+◌, ◌≡◌, refl, true, false, some, none, [], ◌∷◌, arith}
use kza_lending.Base.Int.{ℤ, pos, ◌+ℤ◌, ◌-ℤ◌, ◌*ℤ◌, ◌/ℤ◌, ◌≤ℤ◌}
use kza_lending.Base.Result.{ok}
use kza_lending.WadRay.{ray, ray_mul, ray_div, percent_mul, wad_to_ray, max_uint_amount}
use kza_lending.Calc.Data.{ReserveData, ExpectedReserve, stable, variable, assigned}
use kza_lending.Calc.UserData.{UserReserveData, ExpectedUser, copy_user}
use kza_lending.Calc.Config.{Configuration, StrategyParams, find_index, reserve_configuration}
use kza_lending.Calc.Interest.{
  calc_linear_interest, calc_compounded_interest, calc_expected_liquidity_index,
  calc_expected_variable_borrow_index, calc_expected_total_stable_debt,
  calc_expected_stable_debt_token_balance, calc_expected_a_token_balance,
  calc_expected_variable_debt_token_balance, calc_expected_reserve_normalized_debt,
  calc_expected_total_variable_debt,
}
use kza_lending.Calc.Interest.Growth.{interest_growth}
use kza_lending.Calc.Rates.{
  UsageRatios, calc_expected_usage_ratios, usage_ratio, calc_expected_interest_rates,
  stable_to_total_ratio, sloped_rates, stable_excess_rate, calc_expected_overall_borrow_rate,
}
use kza_lending.Calc.State.{
  update_state, update_liquidity_and_usage_ratios, update_rates,
  update_total_liquidity_and_usage_ratio, calc_expected_accrue_to_treasury, accrue_debt,
  assign_usage_ratios, assign_rates,
}
use kza_lending.Calc.Rates.Ratios.{usage_ratios_total}
use kza_lending.Calc.Sound.{IsSound}
use kza_lending.Calc.Indexes.{indexes_grow}
use kza_lending.Calc.Supply.{
  calc_expected_reserve_data_after_deposit, calc_expected_user_data_after_withdraw,
}
use kza_lending.Calc.Repay.{calc_expected_user_data_after_repay}
use kza_lending.Calc.Users.{withdraw_all, repay_all_stable, repay_all_variable}
use kza_lending.Calc.Consistent.{IsConsistent}
use kza_lending.Calc.Consistent.Actions.{deposit, expected_reserve, expected_reserve-IsConsistent}

abbrev pub strategy : StrategyParams
strategy = record {
  optimal_usage_ratio = pos 800000000000000000000000000;
  base_variable_borrow_rate = pos 0;
  variable_rate_slope1 = pos 40000000000000000000000000;
  variable_rate_slope2 = pos 750000000000000000000000000;
  stable_rate_slope1 = pos 5000000000000000000000000;
  stable_rate_slope2 = pos 750000000000000000000000000;
  base_stable_rate_offset = pos 10000000000000000000000000;
  stable_rate_excess_offset = pos 80000000000000000000000000;
  optimal_stable_to_total_debt_ratio = pos 200000000000000000000000000;
}

abbrev pub market : Configuration
market = ("DAI", record { reserve_factor = pos 1000; strategy = strategy }) ∷ []

abbrev pub dai : ReserveData
dai = record {
  address = "dai";
  symbol = "DAI";
  decimals = pos 18;
  reserve_factor = pos 1000;
  available_liquidity = pos 1000000000000000000000;
  total_liquidity = pos 1000000000000000000000;
  total_stable_debt = pos 100000000000000000000;
  total_variable_debt = pos 200000000000000000000;
  principal_stable_debt = pos 100000000000000000000;
  scaled_variable_debt = pos 200000000000000000000;
  average_stable_borrow_rate = pos 60000000000000000000000000;
  variable_borrow_rate = pos 40000000000000000000000000;
  stable_borrow_rate = pos 60000000000000000000000000;
  supply_usage_ratio = pos 230000000000000000000000000;
  borrow_usage_ratio = pos 230000000000000000000000000;
  liquidity_index = pos 1000000000000000000000000000;
  variable_borrow_index = pos 1100000000000000000000000000;
  a_token_address = "adai";
  market_stable_rate = pos 50000000000000000000000000;
  last_update_timestamp = pos 1000;
  total_stable_debt_last_updated = pos 900;
  liquidity_rate = pos 10000000000000000000000000;
  unbacked = pos 0;
  accrued_to_treasury_scaled = pos 5;
}

abbrev pub user : UserReserveData
user = record {
  scaled_a_token_balance = pos 300000000000000000000;
  current_a_token_balance = pos 300000000000000000000;
  current_stable_debt = pos 20000000000000000000;
  current_variable_debt = pos 0;
  principal_stable_debt = pos 20000000000000000000;
  scaled_variable_debt = pos 50000000000000000000;
  liquidity_rate = pos 10000000000000000000000000;
  stable_borrow_rate = pos 60000000000000000000000000;
  stable_rate_last_updated = pos 900;
  usage_as_collateral_enabled = true;
  wallet_balance = pos 500000000000000000000;
  variable_borrow_index = none;
  principal_variable_debt = none;
}

abbrev pub liquidity_index : ℕ
liquidity_index = 1000001268391679350583460172

abbrev pub variable_index : ℕ
variable_index = 1100005580937543220195499959

abbrev pub amount : ℤ
amount = pos 10000000000000000000

abbrev pub dai_after_deposit : ExpectedReserve
dai_after_deposit = record {
  address = some "dai";
  symbol = none;
  decimals = none;
  reserve_factor = some (pos 1000);
  available_liquidity = some (pos 1010000000000000000000);
  total_liquidity = some (pos 1010000000000000000000);
  total_stable_debt = some (pos 100000780063924540333);
  total_variable_debt = some (pos 220001116187508644039);
  principal_stable_debt = some (pos 100000000000000000000);
  scaled_variable_debt = some (pos 200000000000000000000);
  average_stable_borrow_rate = some (pos 60000000000000000000000000);
  variable_borrow_rate = some (pos 12030129323625329248668913);
  stable_borrow_rate = some (pos 62753824754278378274514651);
  supply_usage_ratio = some (pos 240602586472506584973378248);
  borrow_usage_ratio = some (pos 240602586472506584973378248);
  liquidity_index = some (pos liquidity_index);
  variable_borrow_index = some (pos variable_index);
  a_token_address = none;
  market_stable_rate = none;
  last_update_timestamp = none;
  total_stable_debt_last_updated = none;
  liquidity_rate = some (pos 5851134375488620794913275);
  unbacked = some (pos 0);
  accrued_to_treasury_scaled = some (pos 187722317514808);
}

dai-deposit :
    expected_reserve market (deposit amount) dai user (pos 5000) (pos 5000) ≡ ok dai_after_deposit
unfolding expected_reserve calc_expected_reserve_data_after_deposit update_state
    update_liquidity_and_usage_ratios update_rates update_total_liquidity_and_usage_ratio
    calc_expected_accrue_to_treasury accrue_debt assign_usage_ratios assign_rates
    calc_expected_usage_ratios usage_ratio calc_expected_interest_rates stable_to_total_ratio
    sloped_rates stable_excess_rate calc_expected_overall_borrow_rate reserve_configuration
    find_index calc_linear_interest calc_compounded_interest calc_expected_liquidity_index
    calc_expected_variable_borrow_index calc_expected_total_stable_debt
    calc_expected_total_variable_debt ray_div percent_mul wad_to_ray ray_mul ◌/ℤ◌ ◌+ℤ◌ ◌*ℤ◌ ◌-ℤ◌
dai-deposit = refl

pub dai-IsSound : IsSound dai
dai-IsSound = record {
  available_nonneg = omega arith;
  unbacked_nonneg = omega arith;
  scaled_debt_nonneg = omega arith;
  principal_nonneg = omega arith;
  average_rate_nonneg = omega arith;
  variable_rate_nonneg = omega arith;
  liquidity_rate_nonneg = omega arith;
  liquidity_index_ge = omega arith;
  variable_index_ge = omega arith;
  stable_updated_nonneg = omega arith;
  stable_updated_le = omega arith;
  accrued_nonneg = omega arith;
  factor_nonneg = omega arith;
  factor_le = omega arith;
}

expected_reserve-IsConsistent_example : IsConsistent dai_after_deposit
expected_reserve-IsConsistent_example =
    expected_reserve-IsConsistent market (deposit amount) dai user (pos 5000) (pos 5000)
      dai_after_deposit dai-deposit

indexes_grow_example :
    (pos 1000000000000000000000000000 ≤ℤ calc_expected_liquidity_index dai (pos 5000))
    × (ray ≤ℤ calc_expected_liquidity_index dai (pos 5000))
    × (pos 1100000000000000000000000000 ≤ℤ calc_expected_variable_borrow_index dai (pos 5000))
    × (ray ≤ℤ calc_expected_variable_borrow_index dai (pos 5000))
    × (pos 100000000000000000000
        ≤ℤ calc_expected_total_stable_debt
            (pos 100000000000000000000)
            (pos 60000000000000000000000000)
            (pos 900)
            (pos 5000))
indexes_grow_example = indexes_grow dai (pos 5000) dai-IsSound (omega arith)

interest_growth_example :
    (ray ≤ℤ calc_linear_interest (pos 40000000000000000000000000) (pos 5000) (pos 1000))
    × (calc_linear_interest (pos 40000000000000000000000000) (pos 5000) (pos 1000)
        ≤ℤ calc_compounded_interest (pos 40000000000000000000000000) (pos 5000) (pos 1000))
    × (calc_linear_interest (pos 40000000000000000000000000) (pos 1000) (pos 1000) ≡ ray)
    × (calc_compounded_interest (pos 40000000000000000000000000) (pos 1000) (pos 1000) ≡ ray)
    × (calc_linear_interest (pos 40000000000000000000000000) (pos 5000) (pos 1000)
        ≤ℤ calc_linear_interest (pos 50000000000000000000000000) (pos 6000) (pos 1000))
    × (calc_compounded_interest (pos 40000000000000000000000000) (pos 5000) (pos 1000)
        ≤ℤ calc_compounded_interest (pos 50000000000000000000000000) (pos 6000) (pos 1000))
interest_growth_example =
    interest_growth 40000000000000000000000000 50000000000000000000000000 1000 5000 6000
      (omega arith) (omega arith) (omega arith)

usage_ratios_total_example :
    (u : UsageRatios) × (calc_expected_usage_ratios (pos 100) (pos 200) (pos 1000) (pos (1000 + 50))
      ≡ ok u)
    × (pos 0 ≤ℤ u.supply)
    × (u.supply ≤ℤ u.borrow)
    × (u.borrow ≤ℤ ray)
usage_ratios_total_example = usage_ratios_total 100 200 1000 50

repay_all_stable_example :
    (u : ExpectedUser) × (calc_expected_user_data_after_repay max_uint_amount stable dai
        dai_after_deposit user true
        (pos 5000)
        (pos 5000)
      ≡ ok u)
    × (u.principal_stable_debt ≡ some (pos 0))
    × (u.current_stable_debt ≡ some (pos 0))
    × (u.stable_borrow_rate ≡ some (pos 0))
    × (u.stable_rate_last_updated ≡ some (pos 0))
    × (u.scaled_variable_debt ≡ some (pos 50000000000000000000))
    × (u.wallet_balance
        ≡ some (
            pos 500000000000000000000
            -ℤ calc_expected_stable_debt_token_balance
                (pos 20000000000000000000)
                (pos 60000000000000000000000000)
                (pos 900)
                (pos 5000)))
repay_all_stable_example = repay_all_stable dai dai_after_deposit user true (pos 5000) (pos 5000)
