-- ===== src/Suite/Examples/Rebalances.antt =====
-- The rebalance of a stable rate of the harness at a concrete chain.
use kza_lending.Base.Step.{gets}
use kza_lending.Base.Int.{◌+ℤ◌, ◌-ℤ◌, ◌*ℤ◌, ◌/ℤ◌, abs, pos}
use kza_lending.Base.Result.{div, ok, Result}
use kza_lending.WadRay.{ray_div, percent_mul, ray_mul, wad_to_ray, negated}
use kza_lending.Calc.State.{
  update_state, calc_expected_accrue_to_treasury, update_liquidity_and_usage_ratios, accrue_debt,
  assign_rates, assign_usage_ratios, update_rates, update_total_liquidity_and_usage_ratio,
}
use kza_lending.Calc.Config.{find_index, reserve_configuration}
use kza_lending.Calc.Interest.{
  calc_expected_variable_borrow_index, calc_compounded_interest, calc_expected_total_stable_debt,
  calc_expected_liquidity_index, calc_linear_interest, calc_expected_a_token_balance,
  calc_expected_reserve_normalized_debt, calc_expected_reserve_normalized_income,
  calc_expected_scaled_a_token_balance, calc_expected_stable_debt_token_balance,
  calc_expected_total_variable_debt, calc_expected_variable_debt_token_balance,
  calc_expected_average_stable_borrow_rate, calc_expected_average_stable_borrow_rate_rebalance,
  calc_expected_user_stable_rate,
}
use kza_lending.Calc.Rates.{
  calc_expected_interest_rates, calc_expected_overall_borrow_rate, calc_expected_usage_ratios,
  sloped_rates, stable_excess_rate, stable_to_total_ratio, usage_ratio,
}
use kza_lending.Calc.Borrow.{
  calc_expected_reserve_data_after_borrow, calc_expected_user_data_after_borrow, borrow_stable,
  borrow_variable, borrow_user, variable_debt_now,
}
use kza_lending.Calc.Repay.{
  calc_expected_reserve_data_after_repay, calc_expected_user_data_after_repay, repay_stable,
  repay_variable, repay_user, amount_to_repay,
}
use kza_lending.Calc.Swap.{
  calc_expected_reserve_data_after_stable_rate_rebalance,
  calc_expected_user_data_after_stable_rate_rebalance, swap_to_variable, swap_to_stable,
}
use kza_lending.Suite.Actions.{expect_reserve, expect_user, amount_or_max, get_data_before_action}
use kza_lending.Suite.Chain.{
  await_revert, await_success, convert_to_currency_decimals, expect_reverted,
  get_tx_cost_and_timestamp, send_now, value_to_send, wait_for_tx, travel, to_number, Transaction,
}
use kza_lending.Suite.Compare.{
  almost_equal, almost_equal_or_equal, compare_values, expect_equal, is_skipped,
}
use kza_lending.Suite.Reading.{
  get_a_token_user_data, get_contracts_data, get_reserve_data, ratio_read, get_user_data,
}
use kza_lending.Base.{◌≡◌, refl, none, String}
use kza_lending.Suite.Actions.Checked.{Checked}
use kza_lending.Suite.Examples.{World, chain_to, start, predicted, alice, environment}
use kza_lending.Suite.Actions.Modes.{rebalance_stable_borrow_rate}
use kza_lending.Suite.Actions.Checked.Modes.{
  rebalance_reserve_calc, rebalance_user_calc, rebalance-Checked,
}

abbrev rebalanced : World
rebalanced =
    predicted (rebalance_reserve_calc (chain_to start) (environment start))
      (rebalance_user_calc (chain_to start) (environment start)) (pos 0)

rebalance_run :
    rebalance_stable_borrow_rate
      (chain_to rebalanced)
      (environment rebalanced)
      "DAI"
      (alice rebalanced)
      (alice rebalanced)
      "success"
      start
    ≡ (ok tt, rebalanced)
unfolding rebalance_stable_borrow_rate gets ◌+ℤ◌ ◌-ℤ◌ ◌*ℤ◌ ◌/ℤ◌ abs div ray_div percent_mul ray_mul
    wad_to_ray negated update_state calc_expected_accrue_to_treasury
    update_liquidity_and_usage_ratios accrue_debt assign_rates assign_usage_ratios update_rates
    update_total_liquidity_and_usage_ratio find_index reserve_configuration
    calc_expected_variable_borrow_index calc_compounded_interest calc_expected_total_stable_debt
    calc_expected_liquidity_index calc_linear_interest calc_expected_a_token_balance
    calc_expected_reserve_normalized_debt calc_expected_reserve_normalized_income
    calc_expected_scaled_a_token_balance calc_expected_stable_debt_token_balance
    calc_expected_total_variable_debt calc_expected_variable_debt_token_balance
    calc_expected_average_stable_borrow_rate calc_expected_average_stable_borrow_rate_rebalance
    calc_expected_user_stable_rate calc_expected_interest_rates calc_expected_overall_borrow_rate
    calc_expected_usage_ratios sloped_rates stable_excess_rate stable_to_total_ratio usage_ratio
    calc_expected_reserve_data_after_borrow calc_expected_user_data_after_borrow borrow_stable
    borrow_variable borrow_user variable_debt_now calc_expected_reserve_data_after_repay
    calc_expected_user_data_after_repay repay_stable repay_variable repay_user amount_to_repay
    calc_expected_reserve_data_after_stable_rate_rebalance
    calc_expected_user_data_after_stable_rate_rebalance swap_to_variable swap_to_stable
    expect_reserve expect_user amount_or_max get_data_before_action await_revert await_success
    convert_to_currency_decimals expect_reverted get_tx_cost_and_timestamp send_now value_to_send
    wait_for_tx travel to_number almost_equal almost_equal_or_equal compare_values expect_equal
    is_skipped get_a_token_user_data get_contracts_data get_reserve_data ratio_read get_user_data
rebalance_run = refl

rebalance-Checked_example :
    (reserve : String) × (Result.ok "dai" ≡ ok reserve)
    × Checked
        (chain_to rebalanced)
        (environment rebalanced)
        reserve
        "alice"
        none
        tt
        (Transaction.rebalance_stable_borrow_rate reserve "alice")
        none
        none
        (rebalance_reserve_calc (chain_to rebalanced) (environment rebalanced))
        (rebalance_user_calc (chain_to rebalanced) (environment rebalanced))
        start
        rebalanced
rebalance-Checked_example =
    rebalance-Checked (chain_to rebalanced) (environment rebalanced) "DAI" (alice rebalanced)
      (alice rebalanced) refl rebalance_run
