-- ===== src/Calc/Examples/Transfers.antt =====
-- The theorems on users and on transfers at concrete numbers.
use kza_lending.Base.{◌≡◌, refl, true, some, none}
use kza_lending.Base.Int.{pos, ◌+ℤ◌, ◌-ℤ◌, ◌*ℤ◌, ◌/ℤ◌}
use kza_lending.Base.Result.{ok}
use kza_lending.WadRay.{ray_mul, ray_div, percent_mul, wad_to_ray}
use kza_lending.Calc.Data.{ExpectedReserve, variable}
use kza_lending.Calc.UserData.{ExpectedUser}
use kza_lending.Calc.Config.{find_index, reserve_configuration}
use kza_lending.Calc.Interest.{
  calc_linear_interest, calc_compounded_interest, calc_expected_liquidity_index,
  calc_expected_variable_borrow_index, calc_expected_total_stable_debt,
  calc_expected_stable_debt_token_balance, calc_expected_a_token_balance,
  calc_expected_variable_debt_token_balance, calc_expected_reserve_normalized_debt,
  calc_expected_total_variable_debt,
}
use kza_lending.Calc.Rates.{
  calc_expected_usage_ratios, usage_ratio, calc_expected_interest_rates, stable_to_total_ratio,
  sloped_rates, stable_excess_rate, calc_expected_overall_borrow_rate,
}
use kza_lending.Calc.State.{
  update_state, update_liquidity_and_usage_ratios, update_rates,
  update_total_liquidity_and_usage_ratio, calc_expected_accrue_to_treasury, accrue_debt,
  assign_usage_ratios, assign_rates,
}
use kza_lending.Calc.Borrow.{
  borrow_variable, variable_debt_now, borrow_user, calc_expected_reserve_data_after_borrow,
  calc_expected_user_data_after_borrow,
}
use kza_lending.Calc.Conservation.Transfers.{
  borrow, reserve_after, user_after, Conserves, transfers_conserve,
}
use kza_lending.Calc.Examples.{market, dai, user, amount}

abbrev dai_after_borrow : ExpectedReserve
dai_after_borrow = record {
  address = some "dai";
  symbol = none;
  decimals = none;
  reserve_factor = some (pos 1000);
  available_liquidity = some (pos 990000000000000000000);
  total_liquidity = some (pos 990000000000000000000);
  total_stable_debt = some (pos 100000780063924540333);
  total_variable_debt = some (pos 230001116187508644039);
  principal_stable_debt = some (pos 100000000000000000000);
  scaled_variable_debt = some (pos 209090862967692330305);
  average_stable_borrow_rate = some (pos 60000000000000000000000000);
  variable_borrow_rate = some (pos 12500053870701963650109683);
  stable_borrow_rate = some (pos 61865599291746112671055847);
  supply_usage_ratio = some (pos 250001077414039273002193641);
  borrow_usage_ratio = some (pos 250001077414039273002193641);
  liquidity_index = some (pos 1000001268391679350583460172);
  variable_borrow_index = some (pos 1100005580937543220195499959);
  a_token_address = none;
  market_stable_rate = none;
  last_update_timestamp = some (pos 5000);
  total_stable_debt_last_updated = none;
  liquidity_rate = some (pos 6051177543406614837321972);
  unbacked = some (pos 0);
  accrued_to_treasury_scaled = some (pos 187722317514808);
}

abbrev user_after_borrow : ExpectedUser
user_after_borrow = record {
  scaled_a_token_balance = some (pos 300000000000000000000);
  current_a_token_balance = some (pos 300000380517503805175);
  current_stable_debt = some (pos 20000156012784908067);
  current_variable_debt = some (pos 230001116187508644039);
  principal_stable_debt = some (pos 20000000000000000000);
  scaled_variable_debt = some (pos 209090862967692330305);
  liquidity_rate = some (pos 6051177543406614837321972);
  stable_borrow_rate = some (pos 60000000000000000000000000);
  stable_rate_last_updated = some (pos 900);
  usage_as_collateral_enabled = some true;
  wallet_balance = some (pos 510000000000000000000);
  variable_borrow_index = none;
  principal_variable_debt = none;
}

dai_borrow : reserve_after market (borrow amount variable) dai user (pos 5000) ≡ ok dai_after_borrow
unfolding reserve_after calc_expected_reserve_data_after_borrow borrow_variable variable_debt_now
    calc_expected_reserve_normalized_debt calc_expected_stable_debt_token_balance update_state
    update_liquidity_and_usage_ratios update_rates update_total_liquidity_and_usage_ratio
    calc_expected_accrue_to_treasury accrue_debt assign_usage_ratios assign_rates
    calc_expected_usage_ratios usage_ratio calc_expected_interest_rates stable_to_total_ratio
    sloped_rates stable_excess_rate calc_expected_overall_borrow_rate reserve_configuration
    find_index calc_linear_interest calc_compounded_interest calc_expected_liquidity_index
    calc_expected_variable_borrow_index calc_expected_total_stable_debt
    calc_expected_total_variable_debt ray_div percent_mul wad_to_ray ray_mul ◌/ℤ◌ ◌+ℤ◌ ◌*ℤ◌ ◌-ℤ◌
dai_borrow = refl

user_borrow :
    calc_expected_user_data_after_borrow amount variable dai dai_after_borrow user
      (pos 5000)
      (pos 5000)
    ≡ ok user_after_borrow
unfolding calc_expected_user_data_after_borrow borrow_user calc_expected_stable_debt_token_balance
    calc_expected_variable_debt_token_balance calc_expected_reserve_normalized_debt
    calc_expected_a_token_balance calc_linear_interest calc_compounded_interest ray_mul ray_div ◌/ℤ◌
    ◌+ℤ◌ ◌*ℤ◌ ◌-ℤ◌
user_borrow = refl

user_transfer :
    user_after (borrow amount variable) dai dai_after_borrow user (pos 5000) ≡ ok user_after_borrow
unfolding user_after
user_transfer = user_borrow

transfers_conserve_example : Conserves dai user dai_after_borrow user_after_borrow
transfers_conserve_example =
    transfers_conserve market (borrow amount variable) dai user (pos 5000) dai_after_borrow
      user_after_borrow dai_borrow user_transfer
