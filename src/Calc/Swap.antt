-- ===== src/Calc/Swap.antt =====
-- Swapping the rate mode of a debt, rebalancing a stable rate, and the switch of the collateral, with
-- their effect on the user: `calcExpectedReserveDataAfterSwapRateMode`,
-- `calcExpectedReserveDataAfterStableRateRebalance`, `calcExpectedUserDataAfterSwapRateMode`,
-- `calcExpectedUserDataAfterStableRateRebalance` and `calcExpectedUserDataAfterSetUseAsCollateral` of
-- test-suites/helpers/utils/calculations.ts.
use kza_lending.Base.{Bool, some, if◌then◌else◌}
use kza_lending.Base.Int.{ℤ, pos, ◌+ℤ◌, ◌-ℤ◌}
use kza_lending.Base.Result.{Result, ok, ◌>>=◌, need}
use kza_lending.WadRay.{ray_mul, ray_div, negated}
use kza_lending.Calc.Data.{RateMode, is_stable, ReserveData, ExpectedReserve, assigned}
use kza_lending.Calc.UserData.{UserReserveData, ExpectedUser, copy_user}
use kza_lending.Calc.Config.{Configuration}
use kza_lending.Calc.Interest.{
  calc_expected_average_stable_borrow_rate, calc_expected_average_stable_borrow_rate_rebalance,
  calc_expected_total_stable_debt, calc_expected_a_token_balance,
  calc_expected_stable_debt_token_balance, calc_expected_variable_debt_token_balance,
  calc_expected_user_stable_rate,
}
use kza_lending.Calc.State.{
  update_state, update_liquidity_and_usage_ratios, update_rates, assign_usage_ratios,
  update_total_liquidity_and_usage_ratio,
}
use kza_lending.Calc.Supply.{begin}

-- `calcExpectedStableDebtTokenBalance` at the fields of a user.
abbrev pub stable_debt_of : UserReserveData → ℤ → ℤ
stable_debt_of user tx_timestamp =
    calc_expected_stable_debt_token_balance user.principal_stable_debt user.stable_borrow_rate
      user.stable_rate_last_updated tx_timestamp

unfoldable pub swap_to_variable :
    ReserveData → UserReserveData → ℤ → ExpectedReserve → Result ExpectedReserve
swap_to_variable before user stable_debt e = do
  total_stable_debt_until_tx ← need e.total_stable_debt
  index ← need e.variable_borrow_index
  shares ← ray_div stable_debt index
  let scaled = before.scaled_variable_debt +ℤ shares
  let principal = total_stable_debt_until_tx -ℤ stable_debt
  average ←
      calc_expected_average_stable_borrow_rate before.average_stable_borrow_rate
        (principal +ℤ stable_debt) (negated stable_debt) user.stable_borrow_rate
  ok (record e {
    scaled_variable_debt = some scaled;
    total_variable_debt = some (ray_mul scaled index);
    principal_stable_debt = some principal;
    total_stable_debt = some principal;
    average_stable_borrow_rate = some average;
  })

unfoldable pub swap_to_stable : ReserveData → ℤ → ExpectedReserve → Result ExpectedReserve
swap_to_stable before variable_debt e = do
  total_stable_debt_until_tx ← need e.total_stable_debt
  index ← need e.variable_borrow_index
  let principal = total_stable_debt_until_tx +ℤ variable_debt
  shares ← ray_div variable_debt index
  let scaled = before.scaled_variable_debt -ℤ shares
  average ←
      calc_expected_average_stable_borrow_rate before.average_stable_borrow_rate
        before.total_stable_debt variable_debt before.stable_borrow_rate
  ok (record e {
    principal_stable_debt = some principal;
    total_stable_debt = some principal;
    scaled_variable_debt = some scaled;
    total_variable_debt = some (ray_mul scaled index);
    average_stable_borrow_rate = some average;
  })

unfoldable pub calc_expected_reserve_data_after_swap_rate_mode :
    Configuration → ReserveData → UserReserveData → RateMode → ℤ → Result ExpectedReserve
calc_expected_reserve_data_after_swap_rate_mode params before user mode tx_timestamp = do
  e₁ ← update_state before (begin before) tx_timestamp
  e₂ ← update_liquidity_and_usage_ratios before e₁ (pos 0) (pos 0)
  variable_debt ←
      calc_expected_variable_debt_token_balance (assigned before) (copy_user user) tx_timestamp
  let stable_debt = stable_debt_of user tx_timestamp
  e₃ ←
      if is_stable mode
      then swap_to_variable before user stable_debt e₂
      else swap_to_stable before variable_debt e₂
  e₄ ← assign_usage_ratios e₃
  e₅ ← update_rates params before e₄
  update_total_liquidity_and_usage_ratio e₅

unfoldable pub calc_expected_user_data_after_swap_rate_mode :
    ReserveData → ExpectedReserve → UserReserveData → RateMode → ℤ → Result ExpectedUser
calc_expected_user_data_after_swap_rate_mode before expected user mode tx_timestamp = do
  let stable_debt = stable_debt_of user tx_timestamp
  variable_debt ←
      calc_expected_variable_debt_token_balance (assigned before) (copy_user user) tx_timestamp
  balance ← calc_expected_a_token_balance (assigned before) (copy_user user) tx_timestamp
  let copy = record (copy_user user) { current_a_token_balance = some balance }
  let to_variable : Result ExpectedUser = (do
    index ← need expected.variable_borrow_index
    shares ← ray_div stable_debt index
    let scaled = user.scaled_variable_debt +ℤ shares
    ok (record copy {
      current_stable_debt = some (pos 0);
      principal_stable_debt = some (pos 0);
      stable_borrow_rate = some (pos 0);
      scaled_variable_debt = some scaled;
      current_variable_debt = some (ray_mul scaled index);
      stable_rate_last_updated = some (pos 0);
      liquidity_rate = expected.liquidity_rate;
    }))
  let to_stable : Result ExpectedUser = (do
    rate ←
        calc_expected_user_stable_rate stable_debt user.stable_borrow_rate variable_debt
          before.stable_borrow_rate
    ok (record copy {
      principal_stable_debt = some (user.current_stable_debt +ℤ variable_debt);
      current_stable_debt = some (user.current_stable_debt +ℤ variable_debt);
      stable_borrow_rate = some rate;
      stable_rate_last_updated = some tx_timestamp;
      current_variable_debt = some (pos 0);
      scaled_variable_debt = some (pos 0);
      liquidity_rate = expected.liquidity_rate;
    }))
  if is_stable mode then to_variable else to_stable

unfoldable pub calc_expected_reserve_data_after_stable_rate_rebalance :
    Configuration → ReserveData → UserReserveData → ℤ → Result ExpectedReserve
calc_expected_reserve_data_after_stable_rate_rebalance params before user tx_timestamp = do
  e₁ ← update_state before (begin before) tx_timestamp
  e₂ ← update_liquidity_and_usage_ratios before e₁ (pos 0) (pos 0)
  let user_stable_debt = stable_debt_of user tx_timestamp
  let total_stable_debt =
      calc_expected_total_stable_debt before.principal_stable_debt before.average_stable_borrow_rate
        before.total_stable_debt_last_updated tx_timestamp
  avg_rate_before ←
      calc_expected_average_stable_borrow_rate_rebalance before.average_stable_borrow_rate
        total_stable_debt (negated user_stable_debt) user.stable_borrow_rate
  average ←
      calc_expected_average_stable_borrow_rate_rebalance avg_rate_before
        (total_stable_debt -ℤ user_stable_debt) user_stable_debt before.stable_borrow_rate
  e₃ ← assign_usage_ratios (record e₂ {
    principal_stable_debt = some total_stable_debt;
    total_stable_debt = some total_stable_debt;
    average_stable_borrow_rate = some average;
  })
  e₄ ← update_rates params before e₃
  update_total_liquidity_and_usage_ratio e₄

unfoldable pub calc_expected_user_data_after_stable_rate_rebalance :
    ReserveData → ExpectedReserve → UserReserveData → ℤ → Result ExpectedUser
calc_expected_user_data_after_stable_rate_rebalance before expected user tx_timestamp = do
  current_variable_debt ←
      calc_expected_variable_debt_token_balance (assigned before) (copy_user user) tx_timestamp
  balance ← calc_expected_a_token_balance (assigned before) (copy_user user) tx_timestamp
  ok (record (copy_user user) {
    current_stable_debt = some (stable_debt_of user tx_timestamp);
    principal_stable_debt = some (stable_debt_of user tx_timestamp);
    current_variable_debt = some current_variable_debt;
    stable_rate_last_updated = some tx_timestamp;
    principal_variable_debt = user.principal_variable_debt;
    stable_borrow_rate = expected.average_stable_borrow_rate;
    liquidity_rate = expected.liquidity_rate;
    current_a_token_balance = some balance;
  })

unfoldable pub calc_expected_user_data_after_set_use_as_collateral :
    Bool → UserReserveData → ExpectedUser
calc_expected_user_data_after_set_use_as_collateral use_as_collateral user =
    record (copy_user user) { usage_as_collateral_enabled = some use_as_collateral }
