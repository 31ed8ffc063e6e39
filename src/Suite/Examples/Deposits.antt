-- ===== src/Suite/Examples/Deposits.antt =====
-- The deposit of the harness at a concrete chain.
use kza_lending.Base.Step.{gets}
use kza_lending.Base.Int.{◌+ℤ◌, ◌-ℤ◌, ◌*ℤ◌, ◌/ℤ◌, abs, ℤ, pos}
use kza_lending.Base.Result.{div, ok, Result}
use kza_lending.WadRay.{ray_div, percent_mul, ray_mul, wad_to_ray, negated}
use kza_lending.Calc.State.{
  update_state, calc_expected_accrue_to_treasury, update_liquidity_and_usage_ratios, accrue_debt,
  assign_rates, assign_usage_ratios, update_rates, update_total_liquidity_and_usage_ratio,
}
use kza_lending.Calc.Config.{find_index, reserve_configuration}
use kza_lending.Calc.Interest.{
  calc_expected_variable_borrow_index, calc_compounded_interest, calc_expected_total_stable_debt,
  calc_expected_liquidity_index, calc_linear_interest, calc_expected_a_token_balance,
  calc_expected_reserve_normalized_debt, calc_expected_reserve_normalized_income,
  calc_expected_scaled_a_token_balance, calc_expected_stable_debt_token_balance,
  calc_expected_total_variable_debt, calc_expected_variable_debt_token_balance,
  calc_expected_average_stable_borrow_rate, calc_expected_average_stable_borrow_rate_rebalance,
  calc_expected_user_stable_rate,
}
use kza_lending.Calc.Rates.{
  calc_expected_interest_rates, calc_expected_overall_borrow_rate, calc_expected_usage_ratios,
  sloped_rates, stable_excess_rate, stable_to_total_ratio, usage_ratio,
}
use kza_lending.Calc.Supply.{
  calc_expected_reserve_data_after_deposit, calc_expected_user_data_after_deposit,
  calc_expected_reserve_data_after_withdraw, calc_expected_user_data_after_withdraw,
  amount_to_withdraw,
}
use kza_lending.Suite.Actions.{expect_reserve, expect_user, amount_or_max, get_data_before_action}
use kza_lending.Suite.Chain.{
  await_revert, await_success, convert_to_currency_decimals, expect_reverted,
  get_tx_cost_and_timestamp, send_now, value_to_send, wait_for_tx, travel, to_number, Transaction,
}
use kza_lending.Suite.Compare.{
  almost_equal, almost_equal_or_equal, compare_values, expect_equal, is_skipped,
}
use kza_lending.Suite.Reading.{
  get_a_token_user_data, get_contracts_data, get_reserve_data, ratio_read, get_user_data,
}
use kza_lending.Base.{◌≡◌, refl, none, some, String, Option}
use kza_lending.Suite.Actions.Checked.{Checked}
use kza_lending.Suite.Examples.{World, chain_to, start, predicted, alice, environment}
use kza_lending.Suite.Actions.Supply.{deposit}
use kza_lending.Suite.Actions.Passing.{deposit_passes}
use kza_lending.Suite.Actions.Checked.Supply.{
  deposit_reserve_calc, deposit_user_calc, deposit-Checked,
}

abbrev ten : ℤ
ten = pos 10000000000000000000

abbrev pub deposited : World
deposited =
    predicted (deposit_reserve_calc (chain_to start) (environment start) ten)
      (deposit_user_calc (chain_to start) (environment start) ten) (pos 0)

pub run :
    deposit
      (chain_to deposited)
      (environment deposited)
      "DAI"
      "10"
      (alice deposited)
      "alice"
      none
      "success"
      start
    ≡ (ok tt, deposited)
unfolding deposit gets ◌+ℤ◌ ◌-ℤ◌ ◌*ℤ◌ ◌/ℤ◌ abs div ray_div percent_mul ray_mul wad_to_ray negated
    update_state calc_expected_accrue_to_treasury update_liquidity_and_usage_ratios accrue_debt
    assign_rates assign_usage_ratios update_rates update_total_liquidity_and_usage_ratio find_index
    reserve_configuration calc_expected_variable_borrow_index calc_compounded_interest
    calc_expected_total_stable_debt calc_expected_liquidity_index calc_linear_interest
    calc_expected_a_token_balance calc_expected_reserve_normalized_debt
    calc_expected_reserve_normalized_income calc_expected_scaled_a_token_balance
    calc_expected_stable_debt_token_balance calc_expected_total_variable_debt
    calc_expected_variable_debt_token_balance calc_expected_average_stable_borrow_rate
    calc_expected_average_stable_borrow_rate_rebalance calc_expected_user_stable_rate
    calc_expected_interest_rates calc_expected_overall_borrow_rate calc_expected_usage_ratios
    sloped_rates stable_excess_rate stable_to_total_ratio usage_ratio
    calc_expected_reserve_data_after_deposit calc_expected_user_data_after_deposit
    calc_expected_reserve_data_after_withdraw calc_expected_user_data_after_withdraw
    amount_to_withdraw expect_reserve expect_user amount_or_max get_data_before_action await_revert
    await_success convert_to_currency_decimals expect_reverted get_tx_cost_and_timestamp send_now
    value_to_send wait_for_tx travel to_number almost_equal almost_equal_or_equal compare_values
    expect_equal is_skipped get_a_token_user_data get_contracts_data get_reserve_data ratio_read
    get_user_data
run = refl

deposit-Checked_example :
    (reserve : String) × (n : ℤ) × (value : Option ℤ) × (Result.ok "dai" ≡ ok reserve)
    × (convert_to_currency_decimals (chain_to deposited) reserve "10" start ≡ (ok n, start))
    × (value_to_send (chain_to deposited) reserve none start ≡ (ok value, start))
    × Checked
        (chain_to deposited)
        (environment deposited)
        reserve
        "alice"
        (some "alice")
        tt
        (Transaction.deposit reserve n "alice" (pos 0) value)
        none
        none
        (deposit_reserve_calc (chain_to deposited) (environment deposited) n)
        (deposit_user_calc (chain_to deposited) (environment deposited) n)
        start
        deposited
deposit-Checked_example =
    deposit-Checked (chain_to deposited) (environment deposited) "DAI" "10" (alice deposited)
      "alice" none refl run

deposit_passes_example :
    deposit
      (chain_to deposited)
      (environment deposited)
      "DAI"
      "10"
      (alice deposited)
      "alice"
      none
      "success"
      start
    ≡ (ok tt, deposited)
deposit_passes_example =
    let (reserve, n, value, named, converted, valued, checked) =
      deposit-Checked (chain_to deposited) (environment deposited) "DAI" "10" (alice deposited)
        "alice" none refl run in
    deposit_passes (chain_to deposited) (environment deposited) "DAI" "10" (alice deposited) "alice"
      none named converted valued checked
