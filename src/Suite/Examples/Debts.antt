-- ===== src/Suite/Examples/Debts.antt =====
-- Borrowing, repaying and swapping of the harness at a concrete chain.
use kza_lending.Base.Step.{gets}
use kza_lending.Base.Int.{◌+ℤ◌, ◌-ℤ◌, ◌*ℤ◌, ◌/ℤ◌, abs, ℤ, pos}
use kza_lending.Base.Result.{div, ok, Result}
use kza_lending.WadRay.{ray_div, percent_mul, ray_mul, wad_to_ray, negated}
use kza_lending.Calc.State.{
  update_state, calc_expected_accrue_to_treasury, update_liquidity_and_usage_ratios, accrue_debt,
  assign_rates, assign_usage_ratios, update_rates, update_total_liquidity_and_usage_ratio,
}
use kza_lending.Calc.Config.{find_index, reserve_configuration}
use kza_lending.Calc.Interest.{
  calc_expected_variable_borrow_index, calc_compounded_interest, calc_expected_total_stable_debt,
  calc_expected_liquidity_index, calc_linear_interest, calc_expected_a_token_balance,
  calc_expected_reserve_normalized_debt, calc_expected_reserve_normalized_income,
  calc_expected_scaled_a_token_balance, calc_expected_stable_debt_token_balance,
  calc_expected_total_variable_debt, calc_expected_variable_debt_token_balance,
  calc_expected_average_stable_borrow_rate, calc_expected_average_stable_borrow_rate_rebalance,
  calc_expected_user_stable_rate,
}
use kza_lending.Calc.Rates.{
  calc_expected_interest_rates, calc_expected_overall_borrow_rate, calc_expected_usage_ratios,
  sloped_rates, stable_excess_rate, stable_to_total_ratio, usage_ratio,
}
use kza_lending.Calc.Borrow.{
  calc_expected_reserve_data_after_borrow, calc_expected_user_data_after_borrow, borrow_stable,
  borrow_variable, borrow_user, variable_debt_now,
}
use kza_lending.Calc.Repay.{
  calc_expected_reserve_data_after_repay, calc_expected_user_data_after_repay, repay_stable,
  repay_variable, repay_user, amount_to_repay,
}
use kza_lending.Calc.Swap.{
  calc_expected_reserve_data_after_swap_rate_mode, calc_expected_user_data_after_swap_rate_mode,
  swap_to_variable, swap_to_stable,
}
use kza_lending.Suite.Actions.{expect_reserve, expect_user, amount_or_max, get_data_before_action}
use kza_lending.Suite.Chain.{
  await_revert, await_success, convert_to_currency_decimals, expect_reverted,
  get_tx_cost_and_timestamp, send_now, value_to_send, wait_for_tx, travel, to_number, Transaction,
}
use kza_lending.Suite.Compare.{
  almost_equal, almost_equal_or_equal, compare_values, expect_equal, is_skipped,
}
use kza_lending.Suite.Reading.{
  get_a_token_user_data, get_contracts_data, get_reserve_data, ratio_read, get_user_data,
}
use kza_lending.Base.{◌≡◌, refl, none, some, String, Option}
use kza_lending.Suite.Actions.Checked.{Checked}
use kza_lending.Suite.Examples.{World, chain_to, start, predicted, alice, environment}
use kza_lending.Suite.Actions.Borrow.{borrow}
use kza_lending.Suite.Actions.Repay.{repay}
use kza_lending.Suite.Actions.Modes.{swap_borrow_rate_mode}
use kza_lending.Suite.Actions.Checked.Borrow.{
  borrow_reserve_calc, borrow_user_calc, borrow-Checked, AllowanceUsed,
}
use kza_lending.Suite.Actions.Checked.Repay.{repay_reserve_calc, repay_user_calc, repay-Checked}
use kza_lending.Suite.Actions.Checked.Modes.{swap_reserve_calc, swap_user_calc, swap-Checked}

abbrev ten : ℤ
ten = pos 10000000000000000000

-- Alice borrows for Bob, who has allowed it.
abbrev allowed : World
allowed = record start { allowance = pos 25000000000000000000 }

abbrev borrowed : World
borrowed =
    predicted (borrow_reserve_calc (chain_to start) (environment start) ten "2")
      (borrow_user_calc (chain_to start) (environment start) ten "2") (pos 15000000000000000000)

borrow_run :
    borrow
      (chain_to borrowed)
      (environment borrowed)
      "DAI"
      "10"
      "2"
      (alice borrowed)
      "bob"
      (some "1")
      "success"
      allowed
    ≡ (ok tt, borrowed)
unfolding borrow gets ◌+ℤ◌ ◌-ℤ◌ ◌*ℤ◌ ◌/ℤ◌ abs div ray_div percent_mul ray_mul wad_to_ray negated
    update_state calc_expected_accrue_to_treasury update_liquidity_and_usage_ratios accrue_debt
    assign_rates assign_usage_ratios update_rates update_total_liquidity_and_usage_ratio find_index
    reserve_configuration calc_expected_variable_borrow_index calc_compounded_interest
    calc_expected_total_stable_debt calc_expected_liquidity_index calc_linear_interest
    calc_expected_a_token_balance calc_expected_reserve_normalized_debt
    calc_expected_reserve_normalized_income calc_expected_scaled_a_token_balance
    calc_expected_stable_debt_token_balance calc_expected_total_variable_debt
    calc_expected_variable_debt_token_balance calc_expected_average_stable_borrow_rate
    calc_expected_average_stable_borrow_rate_rebalance calc_expected_user_stable_rate
    calc_expected_interest_rates calc_expected_overall_borrow_rate calc_expected_usage_ratios
    sloped_rates stable_excess_rate stable_to_total_ratio usage_ratio
    calc_expected_reserve_data_after_borrow calc_expected_user_data_after_borrow borrow_stable
    borrow_variable borrow_user variable_debt_now calc_expected_reserve_data_after_repay
    calc_expected_user_data_after_repay repay_stable repay_variable repay_user amount_to_repay
    calc_expected_reserve_data_after_swap_rate_mode calc_expected_user_data_after_swap_rate_mode
    swap_to_variable swap_to_stable expect_reserve expect_user amount_or_max get_data_before_action
    await_revert await_success convert_to_currency_decimals expect_reverted
    get_tx_cost_and_timestamp send_now value_to_send wait_for_tx travel to_number almost_equal
    almost_equal_or_equal compare_values expect_equal is_skipped get_a_token_user_data
    get_contracts_data get_reserve_data ratio_read get_user_data
borrow_run = refl

borrow-Checked_example :
    (reserve : String) × (n : ℤ) × (Result.ok "dai" ≡ ok reserve)
    × (convert_to_currency_decimals (chain_to borrowed) reserve "10" allowed ≡ (ok n, allowed))
    × AllowanceUsed
        (chain_to borrowed)
        (environment borrowed)
        "vdai"
        "bob"
        "alice"
        n
        allowed
        borrowed
    × Checked
        (chain_to borrowed)
        (environment borrowed)
        reserve
        "bob"
        (some "alice")
        tt
        (Transaction.borrow reserve n "2" (pos 0) "bob")
        none
        (some "1")
        (borrow_reserve_calc (chain_to borrowed) (environment borrowed) n "2")
        (borrow_user_calc (chain_to borrowed) (environment borrowed) n "2")
        allowed
        borrowed
borrow-Checked_example =
    borrow-Checked (chain_to borrowed) (environment borrowed) "DAI" "10" "2" (alice borrowed) "bob"
      (some "1") refl borrow_run

abbrev repaid : World
repaid =
    predicted (repay_reserve_calc (chain_to start) (environment start) ten "2")
      (repay_user_calc (chain_to start) (environment start) ten "2" "alice" "alice") (pos 0)

repay_run :
    repay
      (chain_to repaid)
      (environment repaid)
      "DAI"
      "10"
      "2"
      (alice repaid)
      (alice repaid)
      none
      "success"
      (some "1")
      start
    ≡ (ok tt, repaid)
unfolding repay gets ◌+ℤ◌ ◌-ℤ◌ ◌*ℤ◌ ◌/ℤ◌ abs div ray_div percent_mul ray_mul wad_to_ray negated
    update_state calc_expected_accrue_to_treasury update_liquidity_and_usage_ratios accrue_debt
    assign_rates assign_usage_ratios update_rates update_total_liquidity_and_usage_ratio find_index
    reserve_configuration calc_expected_variable_borrow_index calc_compounded_interest
    calc_expected_total_stable_debt calc_expected_liquidity_index calc_linear_interest
    calc_expected_a_token_balance calc_expected_reserve_normalized_debt
    calc_expected_reserve_normalized_income calc_expected_scaled_a_token_balance
    calc_expected_stable_debt_token_balance calc_expected_total_variable_debt
    calc_expected_variable_debt_token_balance calc_expected_average_stable_borrow_rate
    calc_expected_average_stable_borrow_rate_rebalance calc_expected_user_stable_rate
    calc_expected_interest_rates calc_expected_overall_borrow_rate calc_expected_usage_ratios
    sloped_rates stable_excess_rate stable_to_total_ratio usage_ratio
    calc_expected_reserve_data_after_borrow calc_expected_user_data_after_borrow borrow_stable
    borrow_variable borrow_user variable_debt_now calc_expected_reserve_data_after_repay
    calc_expected_user_data_after_repay repay_stable repay_variable repay_user amount_to_repay
    calc_expected_reserve_data_after_swap_rate_mode calc_expected_user_data_after_swap_rate_mode
    swap_to_variable swap_to_stable expect_reserve expect_user amount_or_max get_data_before_action
    await_revert await_success convert_to_currency_decimals expect_reverted
    get_tx_cost_and_timestamp send_now value_to_send wait_for_tx travel to_number almost_equal
    almost_equal_or_equal compare_values expect_equal is_skipped get_a_token_user_data
    get_contracts_data get_reserve_data ratio_read get_user_data
repay_run = refl

repay-Checked_example :
    (reserve : String) × (n : ℤ) × (value : Option ℤ) × (Result.ok "dai" ≡ ok reserve)
    × (amount_or_max (chain_to repaid) (environment repaid) reserve "10" start ≡ (ok n, start))
    × (value_to_send (chain_to repaid) reserve none start ≡ (ok value, start))
    × Checked
        (chain_to repaid)
        (environment repaid)
        reserve
        "alice"
        none
        tt
        (Transaction.repay reserve n "2" "alice" value)
        (some "1")
        none
        (repay_reserve_calc (chain_to repaid) (environment repaid) n "2")
        (repay_user_calc (chain_to repaid) (environment repaid) n "2" "alice" "alice")
        start
        repaid
repay-Checked_example =
    repay-Checked (chain_to repaid) (environment repaid) "DAI" "10" "2" (alice repaid)
      (alice repaid) none (some "1") refl repay_run

abbrev swapped : World
swapped =
    predicted (swap_reserve_calc (chain_to start) (environment start) "1")
      (swap_user_calc (chain_to start) (environment start) "1") (pos 0)

swap_run :
    swap_borrow_rate_mode
      (chain_to swapped)
      (environment swapped)
      "DAI"
      (alice swapped)
      "1"
      "success"
      start
    ≡ (ok tt, swapped)
unfolding swap_borrow_rate_mode gets ◌+ℤ◌ ◌-ℤ◌ ◌*ℤ◌ ◌/ℤ◌ abs div ray_div percent_mul ray_mul
    wad_to_ray negated update_state calc_expected_accrue_to_treasury
    update_liquidity_and_usage_ratios accrue_debt assign_rates assign_usage_ratios update_rates
    update_total_liquidity_and_usage_ratio find_index reserve_configuration
    calc_expected_variable_borrow_index calc_compounded_interest calc_expected_total_stable_debt
    calc_expected_liquidity_index calc_linear_interest calc_expected_a_token_balance
    calc_expected_reserve_normalized_debt calc_expected_reserve_normalized_income
    calc_expected_scaled_a_token_balance calc_expected_stable_debt_token_balance
    calc_expected_total_variable_debt calc_expected_variable_debt_token_balance
    calc_expected_average_stable_borrow_rate calc_expected_average_stable_borrow_rate_rebalance
    calc_expected_user_stable_rate calc_expected_interest_rates calc_expected_overall_borrow_rate
    calc_expected_usage_ratios sloped_rates stable_excess_rate stable_to_total_ratio usage_ratio
    calc_expected_reserve_data_after_borrow calc_expected_user_data_after_borrow borrow_stable
    borrow_variable borrow_user variable_debt_now calc_expected_reserve_data_after_repay
    calc_expected_user_data_after_repay repay_stable repay_variable repay_user amount_to_repay
    calc_expected_reserve_data_after_swap_rate_mode calc_expected_user_data_after_swap_rate_mode
    swap_to_variable swap_to_stable expect_reserve expect_user amount_or_max get_data_before_action
    await_revert await_success convert_to_currency_decimals expect_reverted
    get_tx_cost_and_timestamp send_now value_to_send wait_for_tx travel to_number almost_equal
    almost_equal_or_equal compare_values expect_equal is_skipped get_a_token_user_data
    get_contracts_data get_reserve_data ratio_read get_user_data
swap_run = refl

swap-Checked_example :
    (reserve : String) × (Result.ok "dai" ≡ ok reserve)
    × Checked
        (chain_to swapped)
        (environment swapped)
        reserve
        "alice"
        none
        tt
        (Transaction.swap_borrow_rate_mode reserve "1")
        none
        none
        (swap_reserve_calc (chain_to swapped) (environment swapped) "1")
        (swap_user_calc (chain_to swapped) (environment swapped) "1")
        start
        swapped
swap-Checked_example =
    swap-Checked (chain_to swapped) (environment swapped) "DAI" (alice swapped) "1" refl swap_run
