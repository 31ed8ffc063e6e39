-- ===== src/Calc/Repay.antt =====
-- Repaying: `calcExpectedReserveDataAfterRepay` and `calcExpectedUserDataAfterRepay` of
-- test-suites/helpers/utils/calculations.ts.
use kza_lending.Base.{Bool, some, if◌then◌else◌}
use kza_lending.Base.Int.{ℤ, pos, ◌-ℤ◌, ltb_ℤ, eqb_ℤ, abs}
use kza_lending.Base.Result.{Result, ok, ◌>>=◌, need}
use kza_lending.WadRay.{max_uint_amount, ray_mul, ray_div, negated}
use kza_lending.Calc.Data.{RateMode, is_stable, ReserveData, ExpectedReserve, assigned}
use kza_lending.Calc.UserData.{UserReserveData, ExpectedUser, empty_user, copy_user}
use kza_lending.Calc.Config.{Configuration}
use kza_lending.Calc.Interest.{
  calc_expected_average_stable_borrow_rate, calc_expected_total_stable_debt,
  calc_expected_a_token_balance, calc_expected_stable_debt_token_balance,
  calc_expected_variable_debt_token_balance,
}
use kza_lending.Calc.State.{
  update_state, update_liquidity_and_usage_ratios, update_rates, assign_usage_ratios,
  update_total_liquidity_and_usage_ratio,
}
use kza_lending.Calc.Supply.{begin}

-- The amount repaid, where the largest amount stands for the whole debt.
unfoldable pub amount_to_repay : ℤ → RateMode → ℤ → ℤ → ℤ
unfolding abs
amount_to_repay amount_repaid mode stable_debt variable_debt =
    if eqb_ℤ (abs amount_repaid) max_uint_amount
    then (if is_stable mode then stable_debt else variable_debt)
    else amount_repaid

abbrev pub no_stable_debt : ExpectedReserve → ExpectedReserve
no_stable_debt e = record e {
  principal_stable_debt = some (pos 0);
  total_stable_debt = some (pos 0);
  average_stable_borrow_rate = some (pos 0);
}

-- The stable branch: a debt or an average rate below 0, which rounding can give, is set to 0.
unfoldable pub repay_stable :
    ℤ → ReserveData → UserReserveData → ℤ → ExpectedReserve → Result ExpectedReserve
repay_stable amount before user tx_timestamp e = do
  let expected_debt =
      calc_expected_total_stable_debt before.principal_stable_debt before.average_stable_borrow_rate
        before.total_stable_debt_last_updated tx_timestamp
  let total_stable_debt = expected_debt -ℤ amount
  let reduced : Result ExpectedReserve = (do
    average ←
        calc_expected_average_stable_borrow_rate before.average_stable_borrow_rate expected_debt
          (negated amount) user.stable_borrow_rate
    ok (
        if ltb_ℤ average (pos 0) then no_stable_debt e else record e {
          principal_stable_debt = some total_stable_debt;
          total_stable_debt = some total_stable_debt;
          average_stable_borrow_rate = some average;
        }))
  if ltb_ℤ total_stable_debt (pos 0) then ok (no_stable_debt e) else reduced

unfoldable pub repay_variable : ℤ → ReserveData → ExpectedReserve → Result ExpectedReserve
repay_variable amount before e = do
  index ← need e.variable_borrow_index
  shares ← ray_div amount index
  let scaled = before.scaled_variable_debt -ℤ shares
  ok (record e {
    scaled_variable_debt = some scaled;
    total_variable_debt = some (ray_mul scaled index);
    average_stable_borrow_rate = some before.average_stable_borrow_rate;
  })

unfoldable pub calc_expected_reserve_data_after_repay :
    Configuration → ℤ → RateMode → ReserveData → UserReserveData → ℤ → Result ExpectedReserve
unfolding amount_to_repay
calc_expected_reserve_data_after_repay params amount_repaid mode before user tx_timestamp = do
  let user_stable_debt =
      calc_expected_stable_debt_token_balance user.principal_stable_debt user.stable_borrow_rate
        user.stable_rate_last_updated tx_timestamp
  user_variable_debt ←
      calc_expected_variable_debt_token_balance (assigned before) (copy_user user) tx_timestamp
  let amount = amount_to_repay amount_repaid mode user_stable_debt user_variable_debt
  e₁ ← update_state before (begin before) tx_timestamp
  e₂ ← update_liquidity_and_usage_ratios before e₁ amount (pos 0)
  e₃ ←
      if is_stable mode
      then repay_stable amount before user tx_timestamp e₂
      else repay_variable amount before e₂
  e₄ ← assign_usage_ratios e₃
  e₅ ← update_rates params before e₄
  update_total_liquidity_and_usage_ratio (record e₅ { last_update_timestamp = some tx_timestamp })

-- What the branch on the rate mode assigns to the user.
unfoldable pub repay_user :
    ℤ → RateMode → ExpectedReserve → UserReserveData → ℤ → ℤ → ℤ → Result ExpectedUser
repay_user total_repaid mode expected user stable_debt variable_debt tx_timestamp =
    let left = stable_debt -ℤ total_repaid in
    let at_variable : Result ExpectedUser = (do
      index ← need expected.variable_borrow_index
      shares ← ray_div total_repaid index
      let scaled = user.scaled_variable_debt -ℤ shares
      ok (record empty_user {
        current_stable_debt = some user.principal_stable_debt;
        principal_stable_debt = some stable_debt;
        stable_borrow_rate = some user.stable_borrow_rate;
        stable_rate_last_updated = some user.stable_rate_last_updated;
        scaled_variable_debt = some scaled;
        current_variable_debt = some (ray_mul scaled index);
      })) in
    if is_stable mode
    then ok (record empty_user {
      scaled_variable_debt = some user.scaled_variable_debt;
      current_variable_debt = some variable_debt;
      principal_stable_debt = some left;
      current_stable_debt = some left;
      stable_borrow_rate = some (if eqb_ℤ left (pos 0) then pos 0 else user.stable_borrow_rate);
      stable_rate_last_updated = some (if eqb_ℤ left (pos 0) then pos 0 else tx_timestamp);
    })
    else at_variable

-- `is_self` is the test `user === onBehalfOf`.
unfoldable pub calc_expected_user_data_after_repay :
    ℤ
    → RateMode
    → ReserveData
    → ExpectedReserve
    → UserReserveData
    → Bool
    → ℤ
    → ℤ
    → Result ExpectedUser
unfolding amount_to_repay repay_user
calc_expected_user_data_after_repay total_repaid mode before expected user is_self tx_timestamp
      current_timestamp =
    do
      variable_debt ←
          calc_expected_variable_debt_token_balance (assigned before) (copy_user user)
            current_timestamp
      let stable_debt =
          calc_expected_stable_debt_token_balance user.principal_stable_debt user.stable_borrow_rate
            user.stable_rate_last_updated current_timestamp
      let amount = amount_to_repay total_repaid mode stable_debt variable_debt
      u ← repay_user amount mode expected user stable_debt variable_debt tx_timestamp
      balance ← calc_expected_a_token_balance (assigned before) (copy_user user) tx_timestamp
      ok (record u {
        liquidity_rate = expected.liquidity_rate;
        usage_as_collateral_enabled = some user.usage_as_collateral_enabled;
        current_a_token_balance = some balance;
        scaled_a_token_balance = some user.scaled_a_token_balance;
        wallet_balance =
            some (if is_self then user.wallet_balance -ℤ amount else user.wallet_balance);
      })
