-- ===== src/Calc/Borrow.antt =====
-- Borrowing: `calcExpectedReserveDataAfterBorrow` and `calcExpectedUserDataAfterBorrow` of
-- test-suites/helpers/utils/calculations.ts.
use kza_lending.Base.{some, if◌then◌else◌}
use kza_lending.Base.Int.{ℤ, pos, ◌+ℤ◌}
use kza_lending.Base.Result.{Result, ok, ◌>>=◌, need}
use kza_lending.WadRay.{ray_mul, ray_div}
use kza_lending.Calc.Data.{RateMode, is_stable, ReserveData, ExpectedReserve}
use kza_lending.Calc.UserData.{UserReserveData, ExpectedUser, empty_user, copy_user}
use kza_lending.Calc.Config.{Configuration}
use kza_lending.Calc.Interest.{
  calc_expected_reserve_normalized_debt, calc_expected_average_stable_borrow_rate,
  calc_expected_total_stable_debt, calc_expected_a_token_balance,
  calc_expected_stable_debt_token_balance, calc_expected_variable_debt_token_balance,
  calc_expected_user_stable_rate,
}
use kza_lending.Calc.State.{
  update_state, update_liquidity_and_usage_ratios, assign_rates, assign_usage_ratios,
}
use kza_lending.Calc.Supply.{begin}

-- `scaled.rayMul(calcExpectedReserveNormalizedDebt(...))` at the new variable rate and index.
unfoldable pub variable_debt_now : ExpectedReserve → ℤ → ℤ → ℤ → Result ℤ
variable_debt_now e scaled tx_timestamp current_timestamp = do
  rate ← need e.variable_borrow_rate
  index ← need e.variable_borrow_index
  ok (
      ray_mul scaled
        (calc_expected_reserve_normalized_debt rate index tx_timestamp current_timestamp))

unfoldable pub borrow_stable :
    Configuration → ℤ → ReserveData → ℤ → ℤ → ExpectedReserve → Result ExpectedReserve
unfolding variable_debt_now
borrow_stable params amount_borrowed before tx_timestamp current_timestamp e = do
  let stable_debt_until_tx =
      calc_expected_total_stable_debt before.principal_stable_debt before.average_stable_borrow_rate
        before.total_stable_debt_last_updated tx_timestamp
  average ←
      calc_expected_average_stable_borrow_rate before.average_stable_borrow_rate
        stable_debt_until_tx amount_borrowed before.stable_borrow_rate
  let principal = stable_debt_until_tx +ℤ amount_borrowed
  total_variable_debt ← need e.total_variable_debt
  e₁ ← assign_rates params before principal total_variable_debt (record e {
    average_stable_borrow_rate = some average;
    principal_stable_debt = some principal;
  })
  let total_stable_debt =
      calc_expected_total_stable_debt principal average tx_timestamp current_timestamp
  variable_debt ← variable_debt_now e₁ before.scaled_variable_debt tx_timestamp current_timestamp
  assign_usage_ratios (record e₁ {
    total_stable_debt = some total_stable_debt;
    total_variable_debt = some variable_debt;
  })

unfoldable pub borrow_variable :
    Configuration → ℤ → ReserveData → ℤ → ℤ → ExpectedReserve → Result ExpectedReserve
unfolding variable_debt_now
borrow_variable params amount_borrowed before tx_timestamp current_timestamp e = do
  let stable_debt_after_tx =
      calc_expected_stable_debt_token_balance before.principal_stable_debt
        before.average_stable_borrow_rate before.total_stable_debt_last_updated tx_timestamp
  let total_stable_debt =
      calc_expected_total_stable_debt before.principal_stable_debt before.average_stable_borrow_rate
        before.total_stable_debt_last_updated current_timestamp
  index ← need e.variable_borrow_index
  shares ← ray_div amount_borrowed index
  let scaled = before.scaled_variable_debt +ℤ shares
  let variable_debt_after_tx = ray_mul scaled index
  e₁ ← assign_usage_ratios (record e {
    principal_stable_debt = some before.principal_stable_debt;
    total_stable_debt = some total_stable_debt;
    average_stable_borrow_rate = some before.average_stable_borrow_rate;
    scaled_variable_debt = some scaled;
  })
  e₂ ← assign_rates params before stable_debt_after_tx variable_debt_after_tx e₁
  variable_debt ← variable_debt_now e₂ scaled tx_timestamp current_timestamp
  assign_usage_ratios (record e₂ { total_variable_debt = some variable_debt })

unfoldable pub calc_expected_reserve_data_after_borrow :
    Configuration → ℤ → RateMode → ReserveData → ℤ → ℤ → Result ExpectedReserve
calc_expected_reserve_data_after_borrow params amount_borrowed mode before tx_timestamp
      current_timestamp =
    do
      e₁ ←
          update_state before (record (begin before) { last_update_timestamp = some tx_timestamp })
            tx_timestamp
      e₂ ← update_liquidity_and_usage_ratios before e₁ (pos 0) amount_borrowed
      if is_stable mode
          then borrow_stable params amount_borrowed before tx_timestamp current_timestamp e₂
          else borrow_variable params amount_borrowed before tx_timestamp current_timestamp e₂

-- What the branch on the rate mode assigns to the user.
unfoldable pub borrow_user :
    ℤ → RateMode → ReserveData → ExpectedReserve → UserReserveData → ℤ → ℤ → Result ExpectedUser
borrow_user amount_borrowed mode before expected user tx_timestamp current_timestamp =
    let stable_debt_until_tx =
      calc_expected_stable_debt_token_balance user.principal_stable_debt user.stable_borrow_rate
        user.stable_rate_last_updated tx_timestamp in
    let principal = stable_debt_until_tx +ℤ amount_borrowed in
    let at_stable : Result ExpectedUser = (do
      rate ←
          calc_expected_user_stable_rate stable_debt_until_tx user.stable_borrow_rate
            amount_borrowed before.stable_borrow_rate
      ok (record empty_user {
        principal_stable_debt = some principal;
        stable_rate_last_updated = some tx_timestamp;
        stable_borrow_rate = some rate;
        current_stable_debt =
            some (
              calc_expected_stable_debt_token_balance principal rate tx_timestamp
                current_timestamp);
        scaled_variable_debt = some user.scaled_variable_debt;
      })) in
    let at_variable : Result ExpectedUser = (do
      index ← need expected.variable_borrow_index
      shares ← ray_div amount_borrowed index
      ok (record empty_user {
        scaled_variable_debt = some (before.scaled_variable_debt +ℤ shares);
        principal_stable_debt = some user.principal_stable_debt;
        stable_borrow_rate = some user.stable_borrow_rate;
        stable_rate_last_updated = some user.stable_rate_last_updated;
        current_stable_debt = some (
            calc_expected_stable_debt_token_balance user.principal_stable_debt
              user.stable_borrow_rate user.stable_rate_last_updated current_timestamp);
      })) in
    if is_stable mode then at_stable else at_variable

unfoldable pub calc_expected_user_data_after_borrow :
    ℤ → RateMode → ReserveData → ExpectedReserve → UserReserveData → ℤ → ℤ → Result ExpectedUser
unfolding borrow_user
calc_expected_user_data_after_borrow amount_borrowed mode before expected user tx_timestamp
      current_timestamp =
    do
      u ← borrow_user amount_borrowed mode before expected user tx_timestamp current_timestamp
      current_variable_debt ← calc_expected_variable_debt_token_balance expected u current_timestamp
      balance ← calc_expected_a_token_balance expected (copy_user user) current_timestamp
      ok (record u {
        current_variable_debt = some current_variable_debt;
        liquidity_rate = expected.liquidity_rate;
        usage_as_collateral_enabled = some user.usage_as_collateral_enabled;
        current_a_token_balance = some balance;
        scaled_a_token_balance = some user.scaled_a_token_balance;
        wallet_balance = some (user.wallet_balance +ℤ amount_borrowed);
      })
