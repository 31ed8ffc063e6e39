-- ===== src/Suite/Examples/Withdrawals.antt =====
-- The withdrawal of the harness at a concrete chain.
use kza_lending.Base.Step.{gets}
use kza_lending.Base.Int.{◌+ℤ◌, ◌-ℤ◌, ◌*ℤ◌, ◌/ℤ◌, abs, ℤ, pos}
use kza_lending.Base.Result.{div, ok, Result, err}
use kza_lending.WadRay.{ray_div, percent_mul, ray_mul, wad_to_ray, negated}
use kza_lending.Calc.State.{
  update_state, calc_expected_accrue_to_treasury, update_liquidity_and_usage_ratios, accrue_debt,
  assign_rates, assign_usage_ratios, update_rates, update_total_liquidity_and_usage_ratio,
}
use kza_lending.Calc.Config.{find_index, reserve_configuration}
use kza_lending.Calc.Interest.{
  calc_expected_variable_borrow_index, calc_compounded_interest, calc_expected_total_stable_debt,
  calc_expected_liquidity_index, calc_linear_interest, calc_expected_a_token_balance,
  calc_expected_reserve_normalized_debt, calc_expected_reserve_normalized_income,
  calc_expected_scaled_a_token_balance, calc_expected_stable_debt_token_balance,
  calc_expected_total_variable_debt, calc_expected_variable_debt_token_balance,
  calc_expected_average_stable_borrow_rate, calc_expected_average_stable_borrow_rate_rebalance,
  calc_expected_user_stable_rate,
}
use kza_lending.Calc.Rates.{
  calc_expected_interest_rates, calc_expected_overall_borrow_rate, calc_expected_usage_ratios,
  sloped_rates, stable_excess_rate, stable_to_total_ratio, usage_ratio,
}
use kza_lending.Calc.Supply.{
  calc_expected_reserve_data_after_deposit, calc_expected_user_data_after_deposit,
  calc_expected_reserve_data_after_withdraw, calc_expected_user_data_after_withdraw,
  amount_to_withdraw,
}
use kza_lending.Suite.Actions.{
  expect_reserve, expect_user, amount_or_max, get_data_before_action, ActionData,
}
use kza_lending.Suite.Chain.{
  reverted, await_revert, await_success, convert_to_currency_decimals, expect_reverted,
  get_tx_cost_and_timestamp, send_now, value_to_send, wait_for_tx, travel, to_number, Transaction,
}
use kza_lending.Suite.Compare.{
  almost_equal, almost_equal_or_equal, compare_values, expect_equal, is_skipped,
}
use kza_lending.Suite.Reading.{
  get_a_token_user_data, get_contracts_data, get_reserve_data, ratio_read, get_user_data,
}
use kza_lending.Base.{◌≡◌, ◌↔◌, refl, none, String}
use kza_lending.Suite.Actions.Checked.{Checked}
use kza_lending.Suite.Examples.{World, chain_to, start, predicted, alice, environment}
use kza_lending.Suite.Actions.Supply.{withdraw}
use kza_lending.Suite.Actions.Outcomes.{Ready, call_of, withdraw_outcomes}
use kza_lending.Suite.Actions.Checked.Supply.{
  withdraw_reserve_calc, withdraw_user_calc, withdraw-Checked,
}

abbrev ten : ℤ
ten = pos 10000000000000000000

abbrev withdrawn : World
withdrawn =
    predicted (withdraw_reserve_calc (chain_to start) (environment start) ten)
      (withdraw_user_calc (chain_to start) (environment start) ten) (pos 0)

run :
    withdraw
      (chain_to withdrawn)
      (environment withdrawn)
      "DAI"
      "10"
      (alice withdrawn)
      "success"
      start
    ≡ (ok tt, withdrawn)
unfolding withdraw gets ◌+ℤ◌ ◌-ℤ◌ ◌*ℤ◌ ◌/ℤ◌ abs div ray_div percent_mul ray_mul wad_to_ray negated
    update_state calc_expected_accrue_to_treasury update_liquidity_and_usage_ratios accrue_debt
    assign_rates assign_usage_ratios update_rates update_total_liquidity_and_usage_ratio find_index
    reserve_configuration calc_expected_variable_borrow_index calc_compounded_interest
    calc_expected_total_stable_debt calc_expected_liquidity_index calc_linear_interest
    calc_expected_a_token_balance calc_expected_reserve_normalized_debt
    calc_expected_reserve_normalized_income calc_expected_scaled_a_token_balance
    calc_expected_stable_debt_token_balance calc_expected_total_variable_debt
    calc_expected_variable_debt_token_balance calc_expected_average_stable_borrow_rate
    calc_expected_average_stable_borrow_rate_rebalance calc_expected_user_stable_rate
    calc_expected_interest_rates calc_expected_overall_borrow_rate calc_expected_usage_ratios
    sloped_rates stable_excess_rate stable_to_total_ratio usage_ratio
    calc_expected_reserve_data_after_deposit calc_expected_user_data_after_deposit
    calc_expected_reserve_data_after_withdraw calc_expected_user_data_after_withdraw
    amount_to_withdraw expect_reserve expect_user amount_or_max get_data_before_action await_revert
    await_success convert_to_currency_decimals expect_reverted get_tx_cost_and_timestamp send_now
    value_to_send wait_for_tx travel to_number almost_equal almost_equal_or_equal compare_values
    expect_equal is_skipped get_a_token_user_data get_contracts_data get_reserve_data ratio_read
    get_user_data
run = refl

withdraw-Checked_example :
    (reserve : String) × (n : ℤ) × (Result.ok "dai" ≡ ok reserve)
    × (amount_or_max (chain_to withdrawn) (environment withdrawn) reserve "10" start
        ≡ (ok n, start))
    × Checked
        (chain_to withdrawn)
        (environment withdrawn)
        reserve
        "alice"
        none
        tt
        (Transaction.withdraw reserve n "alice")
        none
        none
        (withdraw_reserve_calc (chain_to withdrawn) (environment withdrawn) n)
        (withdraw_user_calc (chain_to withdrawn) (environment withdrawn) n)
        start
        withdrawn
withdraw-Checked_example =
    withdraw-Checked (chain_to withdrawn) (environment withdrawn) "DAI" "10" (alice withdrawn) refl
      run

-- The data that are read at the start.
abbrev read_at_start : ActionData
read_at_start =
    elim (get_data_before_action (chain_to start) (environment start) "DAI" "alice" start).0 [
      | ok action ↦ action
      | err thrown ↦ record {
        reserve = "";
        reserve_data = start.reserve;
        user_data = start.user;
        a_token_instance = "";
      }
    ]

data_read :
    get_data_before_action (chain_to start) (environment start) "DAI" "alice" start
    ≡ (ok read_at_start, start)
unfolding gets ◌+ℤ◌ ◌-ℤ◌ ◌*ℤ◌ ◌/ℤ◌ abs div ray_div percent_mul ray_mul wad_to_ray negated
    update_state calc_expected_accrue_to_treasury update_liquidity_and_usage_ratios accrue_debt
    assign_rates assign_usage_ratios update_rates update_total_liquidity_and_usage_ratio find_index
    reserve_configuration calc_expected_variable_borrow_index calc_compounded_interest
    calc_expected_total_stable_debt calc_expected_liquidity_index calc_linear_interest
    calc_expected_a_token_balance calc_expected_reserve_normalized_debt
    calc_expected_reserve_normalized_income calc_expected_scaled_a_token_balance
    calc_expected_stable_debt_token_balance calc_expected_total_variable_debt
    calc_expected_variable_debt_token_balance calc_expected_average_stable_borrow_rate
    calc_expected_average_stable_borrow_rate_rebalance calc_expected_user_stable_rate
    calc_expected_interest_rates calc_expected_overall_borrow_rate calc_expected_usage_ratios
    sloped_rates stable_excess_rate stable_to_total_ratio usage_ratio
    calc_expected_reserve_data_after_deposit calc_expected_user_data_after_deposit
    calc_expected_reserve_data_after_withdraw calc_expected_user_data_after_withdraw
    amount_to_withdraw expect_reserve expect_user amount_or_max get_data_before_action await_revert
    await_success convert_to_currency_decimals expect_reverted get_tx_cost_and_timestamp send_now
    value_to_send wait_for_tx travel to_number almost_equal almost_equal_or_equal compare_values
    expect_equal is_skipped get_a_token_user_data get_contracts_data get_reserve_data ratio_read
    get_user_data
data_read = refl

address_read : read_at_start.reserve ≡ "dai"
unfolding gets ◌+ℤ◌ ◌-ℤ◌ ◌*ℤ◌ ◌/ℤ◌ abs div ray_div percent_mul ray_mul wad_to_ray negated
    update_state calc_expected_accrue_to_treasury update_liquidity_and_usage_ratios accrue_debt
    assign_rates assign_usage_ratios update_rates update_total_liquidity_and_usage_ratio find_index
    reserve_configuration calc_expected_variable_borrow_index calc_compounded_interest
    calc_expected_total_stable_debt calc_expected_liquidity_index calc_linear_interest
    calc_expected_a_token_balance calc_expected_reserve_normalized_debt
    calc_expected_reserve_normalized_income calc_expected_scaled_a_token_balance
    calc_expected_stable_debt_token_balance calc_expected_total_variable_debt
    calc_expected_variable_debt_token_balance calc_expected_average_stable_borrow_rate
    calc_expected_average_stable_borrow_rate_rebalance calc_expected_user_stable_rate
    calc_expected_interest_rates calc_expected_overall_borrow_rate calc_expected_usage_ratios
    sloped_rates stable_excess_rate stable_to_total_ratio usage_ratio
    calc_expected_reserve_data_after_deposit calc_expected_user_data_after_deposit
    calc_expected_reserve_data_after_withdraw calc_expected_user_data_after_withdraw
    amount_to_withdraw expect_reserve expect_user amount_or_max get_data_before_action await_revert
    await_success convert_to_currency_decimals expect_reverted get_tx_cost_and_timestamp send_now
    value_to_send wait_for_tx travel to_number almost_equal almost_equal_or_equal compare_values
    expect_equal is_skipped get_a_token_user_data get_contracts_data get_reserve_data ratio_read
    get_user_data
address_read = refl

amount_read :
    amount_or_max (chain_to start) (environment start) read_at_start.reserve "10" start
    ≡ (ok ten, start)
unfolding gets ◌+ℤ◌ ◌-ℤ◌ ◌*ℤ◌ ◌/ℤ◌ abs div ray_div percent_mul ray_mul wad_to_ray negated
    update_state calc_expected_accrue_to_treasury update_liquidity_and_usage_ratios accrue_debt
    assign_rates assign_usage_ratios update_rates update_total_liquidity_and_usage_ratio find_index
    reserve_configuration calc_expected_variable_borrow_index calc_compounded_interest
    calc_expected_total_stable_debt calc_expected_liquidity_index calc_linear_interest
    calc_expected_a_token_balance calc_expected_reserve_normalized_debt
    calc_expected_reserve_normalized_income calc_expected_scaled_a_token_balance
    calc_expected_stable_debt_token_balance calc_expected_total_variable_debt
    calc_expected_variable_debt_token_balance calc_expected_average_stable_borrow_rate
    calc_expected_average_stable_borrow_rate_rebalance calc_expected_user_stable_rate
    calc_expected_interest_rates calc_expected_overall_borrow_rate calc_expected_usage_ratios
    sloped_rates stable_excess_rate stable_to_total_ratio usage_ratio
    calc_expected_reserve_data_after_deposit calc_expected_user_data_after_deposit
    calc_expected_reserve_data_after_withdraw calc_expected_user_data_after_withdraw
    amount_to_withdraw expect_reserve expect_user amount_or_max get_data_before_action await_revert
    await_success convert_to_currency_decimals expect_reverted get_tx_cost_and_timestamp send_now
    value_to_send wait_for_tx travel to_number almost_equal almost_equal_or_equal compare_values
    expect_equal is_skipped get_a_token_user_data get_contracts_data get_reserve_data ratio_read
    get_user_data
amount_read = refl

-- A misspelled result.
withdraw_outcomes_example :
    ((withdraw (chain_to start) (environment start) "DAI" "10" (alice start) "revert" start
        ≡ (ok tt, start))
      ↔ ((r : Ready (chain_to start) (environment start) "DAI" "10" (alice start) start)
          × (reason : String) × ((chain_to start).send tt
                (call_of (chain_to start) (environment start) "DAI" "10" (alice start) start r)
                start
              ≡ (reverted reason, start))))
    × ((withdraw (chain_to start) (environment start) "DAI" "10" (alice start) "sucess" start
          ≡ (ok tt, start))
        ↔ (Ready (chain_to start) (environment start) "DAI" "10" (alice start) start
            × (start ≡ start)))
    × (¬ (
        (withdraw (chain_to start) (environment start) "DAI" "10" (alice start) "success" start
          ≡ (ok tt, start))
        × (withdraw (chain_to start) (environment start) "DAI" "10" (alice start) "revert" start
            ≡ (ok tt, start))))
withdraw_outcomes_example =
    withdraw_outcomes (chain_to start) (environment start) "DAI" "10" (alice start) start "sucess"
      start start refl refl
