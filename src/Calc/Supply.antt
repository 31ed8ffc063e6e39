-- ===== src/Calc/Supply.antt =====
-- Deposits and withdrawals: `calcExpectedReserveDataAfterDeposit` and
-- `calcExpectedReserveDataAfterWithdraw`, and their effect on the user, of
-- test-suites/helpers/utils/calculations.ts. An amount, a decimal string in the source, is the integer
-- that it denotes.
use kza_lending.Base.{true, false, some, if◌then◌else◌}
use kza_lending.Base.Int.{ℤ, pos, ◌+ℤ◌, ◌-ℤ◌, eqb_ℤ}
use kza_lending.Base.Result.{Result, ok, ◌>>=◌, need}
use kza_lending.WadRay.{max_uint_amount}
use kza_lending.Calc.Data.{ReserveData, ExpectedReserve, empty_reserve, assigned}
use kza_lending.Calc.UserData.{UserReserveData, ExpectedUser, empty_user, copy_user}
use kza_lending.Calc.Config.{Configuration}
use kza_lending.Calc.Interest.{
  calc_expected_a_token_balance, calc_expected_scaled_a_token_balance,
  calc_expected_stable_debt_token_balance, calc_expected_variable_debt_token_balance,
}
use kza_lending.Calc.State.{
  update_state, update_liquidity_and_usage_ratios, update_rates,
  update_total_liquidity_and_usage_ratio,
}

-- The assignments with which most actions begin.
abbrev pub begin : ReserveData → ExpectedReserve
begin before = record empty_reserve {
  unbacked = some before.unbacked;
  address = some before.address;
  reserve_factor = some before.reserve_factor;
}

unfoldable pub calc_expected_reserve_data_after_deposit :
    Configuration → ℤ → ReserveData → ℤ → Result ExpectedReserve
calc_expected_reserve_data_after_deposit params amount_deposited before tx_timestamp = do
  e₁ ← update_state before (begin before) tx_timestamp
  e₂ ← update_liquidity_and_usage_ratios before e₁ amount_deposited (pos 0)
  e₃ ←
      update_rates params before
        (record e₂ { average_stable_borrow_rate = some before.average_stable_borrow_rate })
  update_total_liquidity_and_usage_ratio e₃

-- The amount withdrawn, where the largest amount stands for the whole balance.
unfoldable pub amount_to_withdraw : ℤ → ℤ → ℤ
amount_to_withdraw amount_withdrawn a_token_balance =
    if eqb_ℤ amount_withdrawn max_uint_amount then a_token_balance else amount_withdrawn

unfoldable pub calc_expected_reserve_data_after_withdraw :
    Configuration → ℤ → ReserveData → UserReserveData → ℤ → Result ExpectedReserve
unfolding amount_to_withdraw
calc_expected_reserve_data_after_withdraw params amount_withdrawn before user tx_timestamp = do
  balance ← calc_expected_a_token_balance (assigned before) (copy_user user) tx_timestamp
  let amount = amount_to_withdraw amount_withdrawn balance
  e₁ ← update_state before (begin before) tx_timestamp
  e₂ ← update_liquidity_and_usage_ratios before e₁ (pos 0) amount
  e₃ ←
      update_rates params before
        (record e₂ { average_stable_borrow_rate = some before.average_stable_borrow_rate })
  update_total_liquidity_and_usage_ratio e₃

-- The source assigns the principal of the stable debt three times; the last one, by the variable
-- debt, stays.
unfoldable pub calc_expected_user_data_after_deposit :
    ℤ → ReserveData → ExpectedReserve → UserReserveData → ℤ → Result ExpectedUser
calc_expected_user_data_after_deposit amount_deposited before after user tx_timestamp = do
  let current_stable_debt =
      calc_expected_stable_debt_token_balance user.principal_stable_debt user.stable_borrow_rate
        user.stable_rate_last_updated tx_timestamp
  current_variable_debt ←
      calc_expected_variable_debt_token_balance (assigned before) (copy_user user) tx_timestamp
  liquidity_index ← need after.liquidity_index
  scaled_a_token_balance ←
      calc_expected_scaled_a_token_balance user liquidity_index amount_deposited (pos 0)
  a_token_balance ← calc_expected_a_token_balance (assigned before) (copy_user user) tx_timestamp
  ok (record empty_user {
    scaled_variable_debt = some user.scaled_variable_debt;
    stable_borrow_rate = some user.stable_borrow_rate;
    stable_rate_last_updated = some user.stable_rate_last_updated;
    liquidity_rate = after.liquidity_rate;
    scaled_a_token_balance = some scaled_a_token_balance;
    current_a_token_balance = some (a_token_balance +ℤ amount_deposited);
    usage_as_collateral_enabled = some (
        if eqb_ℤ user.current_a_token_balance (pos 0)
        then true
        else user.usage_as_collateral_enabled);
    variable_borrow_index = user.variable_borrow_index;
    wallet_balance = some (user.wallet_balance -ℤ amount_deposited);
    current_stable_debt = some current_stable_debt;
    current_variable_debt = some current_variable_debt;
    principal_stable_debt = some current_variable_debt;
  })

unfoldable pub calc_expected_user_data_after_withdraw :
    ℤ → ReserveData → ExpectedReserve → UserReserveData → ℤ → Result ExpectedUser
unfolding amount_to_withdraw
calc_expected_user_data_after_withdraw amount_withdrawn before after user tx_timestamp = do
  a_token_balance ← calc_expected_a_token_balance (assigned before) (copy_user user) tx_timestamp
  let amount = amount_to_withdraw amount_withdrawn a_token_balance
  liquidity_index ← need after.liquidity_index
  scaled_a_token_balance ← calc_expected_scaled_a_token_balance user liquidity_index (pos 0) amount
  current_variable_debt ←
      calc_expected_variable_debt_token_balance (assigned before) (copy_user user) tx_timestamp
  let current_a_token_balance = a_token_balance -ℤ amount
  ok (record empty_user {
    scaled_a_token_balance = some scaled_a_token_balance;
    current_a_token_balance = some current_a_token_balance;
    principal_stable_debt = some user.principal_stable_debt;
    scaled_variable_debt = some user.scaled_variable_debt;
    current_stable_debt = some (
        calc_expected_stable_debt_token_balance user.principal_stable_debt user.stable_borrow_rate
          user.stable_rate_last_updated tx_timestamp);
    current_variable_debt = some current_variable_debt;
    variable_borrow_index = user.variable_borrow_index;
    stable_borrow_rate = some user.stable_borrow_rate;
    stable_rate_last_updated = some user.stable_rate_last_updated;
    liquidity_rate = after.liquidity_rate;
    usage_as_collateral_enabled = some (
        if eqb_ℤ user.current_a_token_balance (pos 0)
        then true
        else (if eqb_ℤ current_a_token_balance (pos 0)
            then false
            else user.usage_as_collateral_enabled));
    wallet_balance = some (user.wallet_balance +ℤ amount);
  })
