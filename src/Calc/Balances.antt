-- ===== src/Calc/Balances.antt =====
-- The balances of test-suites/helpers/utils/calculations.ts for data read from the chain, which has
-- all its fields.
use kza_lending.Base.{◌≡◌, refl}
use kza_lending.Base.Int.{ℤ}
use kza_lending.Base.Result.{ok}
use kza_lending.Calc.Data.{ReserveData, assigned}
use kza_lending.Calc.UserData.{UserReserveData, copy_user}
use kza_lending.Calc.Interest.{
  calc_expected_a_token_balance, calc_expected_variable_debt_token_balance,
}

pub a_token_balance_given :
    (before : ReserveData) (user : UserReserveData) (t : ℤ)
    → (b : ℤ) × (calc_expected_a_token_balance (assigned before) (copy_user user) t ≡ ok b)
unfolding calc_expected_a_token_balance
a_token_balance_given before user t = (_, refl)

pub variable_debt_given :
    (before : ReserveData) (user : UserReserveData) (t : ℤ)
    → (d : ℤ) × (calc_expected_variable_debt_token_balance (assigned before) (copy_user user) t
        ≡ ok d)
unfolding calc_expected_variable_debt_token_balance
variable_debt_given before user t = (_, refl)
