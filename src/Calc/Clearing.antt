-- ===== src/Calc/Clearing.antt =====
-- Users that take out or pay back all they have, at the indexes that `updateState` of
-- test-suites/helpers/utils/calculations.ts assigns.
use kza_lending.Base.{ℕ, ◌≤◌, ◌≡◌, refl, ◌∙◌, Bool, false, some, arith, if◌then◌else◌}
use kza_lending.Base.Int.{ℤ, pos, negsuc, ◌+ℤ◌, ◌-ℤ◌, ◌≤ℤ◌, eqb_ℤ}
use kza_lending.Base.Result.{ok}
use kza_lending.WadRay.{ray, nat_ray, ray_mul, max_uint_amount}
use kza_lending.Calc.Data.{ReserveData, ExpectedReserve, variable, assigned}
use kza_lending.Calc.UserData.{UserReserveData, ExpectedUser, copy_user}
use kza_lending.Calc.Sound.{IsSound}
use kza_lending.Calc.Interest.{
  calc_expected_a_token_balance, calc_expected_variable_debt_token_balance,
  calc_expected_liquidity_index, calc_expected_variable_borrow_index,
  calc_expected_reserve_normalized_income,
}
use kza_lending.Calc.Indexes.{indexes_grow}
use kza_lending.Calc.Indexes.Same.{income-index, debt-index}
use kza_lending.Calc.Supply.{calc_expected_user_data_after_withdraw}
use kza_lending.Calc.Repay.{calc_expected_user_data_after_repay}
use kza_lending.Calc.Users.{withdraw_all, repay_all_variable}

above_ray : (x : ℤ) → ray ≤ℤ x → (n : ℕ) × (nat_ray ≤ n) × (x ≡ pos n)
above_ray (pos n) h = (n, omega arith, refl)
above_ray (negsuc n) h = absurd (omega arith)

balance-income :
    (r : ReserveData) (user : UserReserveData) (t index : ℤ)
    → calc_expected_reserve_normalized_income (assigned r) t ≡ ok index
    → calc_expected_a_token_balance (assigned r) (copy_user user) t
      ≡ ok (ray_mul user.scaled_a_token_balance index)
unfolding calc_expected_a_token_balance calc_expected_reserve_normalized_income
balance-income r user t index h = cc

-- A withdrawal of the largest amount takes the whole balance of a user whose
-- balance is not 0 and whose shares are not negative, out of a
-- reserve that is sound and whose supply is used, at a time that is not before its last update and
-- with the liquidity index that `updateState` assigns: no balance is left, no share either, the
-- reserve is no collateral any more, and the wallet gets the shares at that index.
pub withdrawal_clears :
    (before : ReserveData) (after : ExpectedReserve) (user : UserReserveData) (t : ℤ) (scaled : ℕ)
    → IsSound before
    → before.last_update_timestamp ≤ℤ t
    → eqb_ℤ before.supply_usage_ratio (pos 0) ≡ false
    → user.scaled_a_token_balance ≡ pos scaled
    → eqb_ℤ user.current_a_token_balance (pos 0) ≡ false
    → after.liquidity_index ≡ some (calc_expected_liquidity_index before t)
    → (u : ExpectedUser) × (calc_expected_user_data_after_withdraw max_uint_amount before after user
          t
        ≡ ok u)
      × (u.current_a_token_balance ≡ some (pos 0))
      × (u.usage_as_collateral_enabled ≡ some false)
      × (u.scaled_a_token_balance ≡ some (pos 0))
      × (u.wallet_balance
          ≡ some (
              user.wallet_balance +ℤ ray_mul (pos scaled) (calc_expected_liquidity_index before t)))
withdrawal_clears before after user t scaled s later used own held same =
    let grown = indexes_grow before t s later in
    let (index, large, is) = above_ray (calc_expected_liquidity_index before t) grown.1 in
    let income = income-index before t s used in
    let balance = balance-income before user t (calc_expected_liquidity_index before t) income in
    rw is (
      withdraw_all before after user t scaled index large own held (balance ∙ rw (own, is))
        (rw is at same))

debt-normalized :
    (r : ReserveData) (user : UserReserveData) (t : ℤ)
    → IsSound r
    → eqb_ℤ r.total_variable_debt (pos 0) ≡ false
    → calc_expected_variable_debt_token_balance (assigned r) (copy_user user) t
      ≡ ok (ray_mul user.scaled_variable_debt (calc_expected_variable_borrow_index r t))
unfolding calc_expected_variable_debt_token_balance
debt-normalized r user t s owed = rw (debt-index r t s owed) refl

-- A repayment of the largest amount at the variable rate takes the whole variable debt of a user, whose
-- shares are not negative, into a reserve that is sound and has variable debt, where the current time is that of the
-- transaction and not before its last update, with the variable borrow index that `updateState`
-- assigns: no debt is left and no share, and the shares at that index leave the wallet exactly when
-- the user repays for itself.
pub repayment_clears :
    (before : ReserveData) (expected : ExpectedReserve) (user : UserReserveData) (is_self : Bool)
    (t : ℤ) (scaled : ℕ)
    → IsSound before
    → before.last_update_timestamp ≤ℤ t
    → eqb_ℤ before.total_variable_debt (pos 0) ≡ false
    → user.scaled_variable_debt ≡ pos scaled
    → expected.variable_borrow_index ≡ some (calc_expected_variable_borrow_index before t)
    → (u : ExpectedUser) × (calc_expected_user_data_after_repay max_uint_amount variable before
          expected user is_self t t
        ≡ ok u)
      × (u.scaled_variable_debt ≡ some (pos 0))
      × (u.current_variable_debt ≡ some (pos 0))
      × (u.wallet_balance
          ≡ some (
              if is_self
              then user.wallet_balance
                -ℤ ray_mul (pos scaled) (calc_expected_variable_borrow_index before t)
              else user.wallet_balance))
repayment_clears before expected user is_self t scaled s later owed own same =
    let grown = indexes_grow before t s later in
    let (index, large, is) = above_ray (calc_expected_variable_borrow_index before t) grown.3 in
    let debt = debt-normalized before user t s owed in
    rw is (
      repay_all_variable before expected user is_self t t scaled index large own (rw is at same)
        (debt ∙ rw (own, is)))
