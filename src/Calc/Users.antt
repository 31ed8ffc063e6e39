-- ===== src/Calc/Users.antt =====
-- What the actions of test-suites/helpers/utils/calculations.ts do to a user.
use kza_lending.Base.{ℕ, ◌≡◌, ◌≤◌, refl, ap, ◌∙◌, ◌<◌, Bool, false, some, arith, if◌then◌else◌}
use kza_lending.Base.Int.{ℤ, pos, ◌+ℤ◌, ◌-ℤ◌, eqb_ℤ, int_laws, abs}
use kza_lending.Base.Result.{ok}
use kza_lending.WadRay.{
  nat_ray, ray_mul, ray_div, max_uint_amount, unscale_round_trip, nat_ray_div_zero, ray_div_pos,
  ray_mul_pos, nat_ray_mul,
}
use kza_lending.Calc.Data.{
  ReserveData, ExpectedReserve, RateMode, stable, variable, is_stable, assigned,
}
use kza_lending.Calc.UserData.{UserReserveData, ExpectedUser, copy_user}
use kza_lending.Calc.Interest.{
  calc_expected_a_token_balance, calc_expected_variable_debt_token_balance,
  calc_expected_stable_debt_token_balance, calc_expected_scaled_a_token_balance,
}
use kza_lending.Calc.Balances.{a_token_balance_given, variable_debt_given}
use kza_lending.Calc.Supply.{amount_to_withdraw, calc_expected_user_data_after_withdraw}
use kza_lending.Calc.Repay.{amount_to_repay, repay_user, calc_expected_user_data_after_repay}

self_sub : (a : ℤ) → a -ℤ a ≡ pos 0
self_sub a = omega int_laws

none_left : (scaled : ℕ) → pos scaled +ℤ pos 0 -ℤ pos scaled ≡ pos 0
none_left scaled = omega int_laws

ray_div_none : (index : ℕ) → 0 < index → ray_div (pos 0) (pos index) ≡ ok (pos 0)
ray_div_none index h = ray_div_pos 0 index h ∙ ap (λ x. ok (pos x)) (nat_ray_div_zero index h)

-- The largest amount stands for the whole balance.
withdraw_max : (balance : ℤ) → amount_to_withdraw max_uint_amount balance ≡ balance
unfolding amount_to_withdraw
withdraw_max balance = refl

-- A withdrawal of the largest amount takes the whole balance: the user of a balance that was not 0 is
-- left with none, no longer uses it as collateral, and finds it in the wallet; and the scaled balance
-- is 0 exactly, if the index after the action is the one that the balance was computed with.
pub withdraw_all :
    (before : ReserveData) (after : ExpectedReserve) (user : UserReserveData) (t : ℤ)
    (scaled index : ℕ)
    → nat_ray ≤ index
    → user.scaled_a_token_balance ≡ pos scaled
    → eqb_ℤ user.current_a_token_balance (pos 0) ≡ false
    → calc_expected_a_token_balance (assigned before) (copy_user user) t
      ≡ ok (ray_mul (pos scaled) (pos index))
    → after.liquidity_index ≡ some (pos index)
    → (u : ExpectedUser) × (calc_expected_user_data_after_withdraw max_uint_amount before after user
          t
        ≡ ok u)
      × (u.current_a_token_balance ≡ some (pos 0))
      × (u.usage_as_collateral_enabled ≡ some false)
      × (u.scaled_a_token_balance ≡ some (pos 0))
      × (u.wallet_balance ≡ some (user.wallet_balance +ℤ ray_mul (pos scaled) (pos index)))
unfolding calc_expected_user_data_after_withdraw calc_expected_scaled_a_token_balance
    calc_expected_variable_debt_token_balance
withdraw_all before after user t scaled index large own held income same = rw (income) (
    simp
      (
        own,
        same,
        held,
        withdraw_max,
        ray_div_none index (omega arith),
        unscale_round_trip scaled index large,
        self_sub,
        none_left scaled,
      )
      (_, refl, refl, refl, refl, refl))

ray_mul_none : (index : ℕ) → ray_mul (pos 0) (pos index) ≡ pos 0
unfolding nat_ray_mul
ray_mul_none index = rw ray_mul_pos (ap pos (omega arith))

-- The largest amount stands for the whole debt of the mode.
repay_max :
    (mode : RateMode) (stable_debt variable_debt : ℤ)
    → amount_to_repay max_uint_amount mode stable_debt variable_debt
      ≡ (if is_stable mode then stable_debt else variable_debt)
unfolding amount_to_repay abs
repay_max mode stable_debt variable_debt = refl

-- A repayment of the largest amount, at the stable rate, takes the whole stable debt with its
-- interest: the user is left with no stable debt, neither principal nor current, a stable rate of 0
-- and no time of an update; the variable debt shares stay; and the debt is taken out of the wallet
-- exactly when the user repays for itself.
pub repay_all_stable :
    (before : ReserveData) (expected : ExpectedReserve) (user : UserReserveData) (is_self : Bool)
    (t now : ℤ)
    → (u : ExpectedUser) × (calc_expected_user_data_after_repay max_uint_amount stable before
          expected user is_self t now
        ≡ ok u)
      × (u.principal_stable_debt ≡ some (pos 0))
      × (u.current_stable_debt ≡ some (pos 0))
      × (u.stable_borrow_rate ≡ some (pos 0))
      × (u.stable_rate_last_updated ≡ some (pos 0))
      × (u.scaled_variable_debt ≡ some user.scaled_variable_debt)
      × (u.wallet_balance
          ≡ some (
              if is_self
              then user.wallet_balance
                -ℤ calc_expected_stable_debt_token_balance user.principal_stable_debt
                    user.stable_borrow_rate user.stable_rate_last_updated now
              else user.wallet_balance))
unfolding calc_expected_user_data_after_repay repay_user
repay_all_stable before expected user is_self t now =
    let (debt, owed) = variable_debt_given before user now in
    let (balance, held) = a_token_balance_given before user t in
    rw (owed, held) (simp (repay_max, self_sub) (_, refl, refl, refl, refl, refl, refl, refl))

-- A repayment of the largest amount, at the variable rate, takes exactly all of the shares of the
-- variable debt, if the index after the action is the one that the debt was computed with: no
-- variable debt is left, and what is taken out of the wallet, when the user repays for itself, is the
-- debt with its interest.
pub repay_all_variable :
    (before : ReserveData) (expected : ExpectedReserve) (user : UserReserveData) (is_self : Bool)
    (t now : ℤ) (scaled index : ℕ)
    → nat_ray ≤ index
    → user.scaled_variable_debt ≡ pos scaled
    → expected.variable_borrow_index ≡ some (pos index)
    → calc_expected_variable_debt_token_balance (assigned before) (copy_user user) now
      ≡ ok (ray_mul (pos scaled) (pos index))
    → (u : ExpectedUser) × (calc_expected_user_data_after_repay max_uint_amount variable before
          expected user is_self t now
        ≡ ok u)
      × (u.scaled_variable_debt ≡ some (pos 0))
      × (u.current_variable_debt ≡ some (pos 0))
      × (u.wallet_balance
          ≡ some (
              if is_self
              then user.wallet_balance -ℤ ray_mul (pos scaled) (pos index)
              else user.wallet_balance))
unfolding calc_expected_user_data_after_repay repay_user
repay_all_variable before expected user is_self t now scaled index large own same owed =
    let (balance, held) = a_token_balance_given before user t in
    rw (owed, held)
      (simp (own, same, repay_max, self_sub, unscale_round_trip scaled index large, ray_mul_none)
        (_, refl, refl, refl, refl))
