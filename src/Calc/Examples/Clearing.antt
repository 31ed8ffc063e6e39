-- ===== src/Calc/Examples/Clearing.antt =====
-- The theorems on the indexes of a reserve and on users that take out or pay back all, at concrete
-- numbers.
use kza_lending.Base.{◌≡◌, refl, true, false, some, arith}
use kza_lending.Base.Int.{pos, ◌+ℤ◌, ◌-ℤ◌, ◌*ℤ◌, ◌/ℤ◌}
use kza_lending.Base.Result.{ok}
use kza_lending.WadRay.{ray_mul, max_uint_amount}
use kza_lending.Calc.Data.{variable, assigned}
use kza_lending.Calc.UserData.{ExpectedUser}
use kza_lending.Calc.Interest.{
  calc_linear_interest, calc_compounded_interest, calc_expected_liquidity_index,
  calc_expected_variable_borrow_index, calc_expected_reserve_normalized_income,
  calc_expected_reserve_normalized_debt,
}
use kza_lending.Calc.Indexes.Same.{normalized_indexes_agree}
use kza_lending.Calc.Supply.{calc_expected_user_data_after_withdraw}
use kza_lending.Calc.Repay.{calc_expected_user_data_after_repay}
use kza_lending.Calc.Clearing.{withdrawal_clears, repayment_clears}
use kza_lending.Calc.Examples.{
  dai, dai-IsSound, dai_after_deposit, user, liquidity_index, variable_index,
}

normalized_indexes_agree_example :
    (calc_expected_reserve_normalized_income (assigned dai) (pos 5000)
      ≡ ok (calc_expected_liquidity_index dai (pos 5000)))
    × (calc_expected_reserve_normalized_debt
          (pos 40000000000000000000000000)
          (pos 1100000000000000000000000000)
          (pos 1000)
          (pos 5000)
        ≡ calc_expected_variable_borrow_index dai (pos 5000))
normalized_indexes_agree_example = normalized_indexes_agree dai (pos 5000) dai-IsSound refl refl

liquidity_index_after :
    some (pos liquidity_index) ≡ some (calc_expected_liquidity_index dai (pos 5000))
unfolding calc_expected_liquidity_index calc_linear_interest ray_mul ◌/ℤ◌ ◌+ℤ◌ ◌*ℤ◌ ◌-ℤ◌
liquidity_index_after = refl

variable_index_after :
    some (pos variable_index) ≡ some (calc_expected_variable_borrow_index dai (pos 5000))
unfolding calc_expected_variable_borrow_index calc_compounded_interest ray_mul ◌/ℤ◌ ◌+ℤ◌ ◌*ℤ◌ ◌-ℤ◌
variable_index_after = refl

withdrawal_clears_example :
    (u : ExpectedUser) × (calc_expected_user_data_after_withdraw max_uint_amount dai
        dai_after_deposit user
        (pos 5000)
      ≡ ok u)
    × (u.current_a_token_balance ≡ some (pos 0))
    × (u.usage_as_collateral_enabled ≡ some false)
    × (u.scaled_a_token_balance ≡ some (pos 0))
    × (u.wallet_balance
        ≡ some (
            pos 500000000000000000000
            +ℤ ray_mul (pos 300000000000000000000) (calc_expected_liquidity_index dai (pos 5000))))
withdrawal_clears_example =
    withdrawal_clears dai dai_after_deposit user (pos 5000) 300000000000000000000 dai-IsSound
      (omega arith) refl refl refl liquidity_index_after

repayment_clears_example :
    (u : ExpectedUser) × (calc_expected_user_data_after_repay max_uint_amount variable dai
        dai_after_deposit user true
        (pos 5000)
        (pos 5000)
      ≡ ok u)
    × (u.scaled_variable_debt ≡ some (pos 0))
    × (u.current_variable_debt ≡ some (pos 0))
    × (u.wallet_balance
        ≡ some (
            pos 500000000000000000000
            -ℤ ray_mul
                (pos 50000000000000000000)
                (calc_expected_variable_borrow_index dai (pos 5000))))
repayment_clears_example =
    repayment_clears dai dai_after_deposit user true (pos 5000) 50000000000000000000 dai-IsSound
      (omega arith) refl refl variable_index_after
