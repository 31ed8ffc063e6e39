-- ===== src/Calc/Conservation/Debt.antt =====
-- The available liquidity of the reserve after a borrow and after a repayment.
use kza_lending.Base.{◌≡◌, some, Bool, true, false, if◌then◌else◌}
use kza_lending.Base.Int.{ℤ, pos, ◌+ℤ◌, ◌-ℤ◌, ltb_ℤ}
use kza_lending.Base.Result.{ok, Ensures, after, either, need}
use kza_lending.WadRay.{ray_div, ray_mul, negated}
use kza_lending.Calc.Data.{ReserveData, ExpectedReserve, RateMode, is_stable, assigned}
use kza_lending.Calc.UserData.{UserReserveData, copy_user}
use kza_lending.Calc.Config.{Configuration}
use kza_lending.Calc.Interest.{
  calc_expected_variable_debt_token_balance, calc_expected_stable_debt_token_balance,
  calc_expected_average_stable_borrow_rate, calc_expected_total_stable_debt,
}
use kza_lending.Calc.State.{
  update_state, update_liquidity_and_usage_ratios, update_rates, assign_usage_ratios, assign_rates,
}
use kza_lending.Calc.Supply.{begin}
use kza_lending.Calc.Borrow.{
  borrow_stable, borrow_variable, variable_debt_now, calc_expected_reserve_data_after_borrow,
}
use kza_lending.Calc.Repay.{
  amount_to_repay, repay_stable, repay_variable, no_stable_debt,
  calc_expected_reserve_data_after_repay,
}
use kza_lending.Calc.Conservation.{
  Available, step, liquidity-Available, ratios-Available, assign-Available, rates-Available,
  total-Available,
}

stable-Available :
    (l : ℤ) (params : Configuration) (amount : ℤ) (before : ReserveData) (t now : ℤ)
    (e : ExpectedReserve)
    → Available l e
    → Ensures (Available l) (borrow_stable params amount before t now e)
unfolding borrow_stable
stable-Available l params amount before t now e a =
    let debt =
      calc_expected_total_stable_debt before.principal_stable_debt before.average_stable_borrow_rate
        before.total_stable_debt_last_updated t in
    after _
      (calc_expected_average_stable_borrow_rate before.average_stable_borrow_rate debt amount
        before.stable_borrow_rate)
      _
      λ average _. after _ (need e.total_variable_debt) _ λ variable _.
        let e₀ : ExpectedReserve = record e {
          average_stable_borrow_rate = some average;
          principal_stable_debt = some (debt +ℤ amount);
        } in
        step (Available l) (Available l) (assign_rates params before (debt +ℤ amount) variable e₀) _
          (assign-Available l params before (debt +ℤ amount) variable e₀ a)
          λ e₁ k.
            after _ (variable_debt_now e₁ before.scaled_variable_debt t now) _
              λ v _. ratios-Available l _ k

variable-Available :
    (l : ℤ) (params : Configuration) (amount : ℤ) (before : ReserveData) (t now : ℤ)
    (e : ExpectedReserve)
    → Available l e
    → Ensures (Available l) (borrow_variable params amount before t now e)
unfolding borrow_variable
variable-Available l params amount before t now e a =
    let debt_then =
      calc_expected_stable_debt_token_balance before.principal_stable_debt
        before.average_stable_borrow_rate before.total_stable_debt_last_updated t in
    let debt_now =
      calc_expected_total_stable_debt before.principal_stable_debt before.average_stable_borrow_rate
        before.total_stable_debt_last_updated now in
    after _ (need e.variable_borrow_index) _ λ index _. after _ (ray_div amount index) _ λ shares _.
      let scaled = before.scaled_variable_debt +ℤ shares in
      let e₀ : ExpectedReserve = record e {
        principal_stable_debt = some before.principal_stable_debt;
        total_stable_debt = some debt_now;
        average_stable_borrow_rate = some before.average_stable_borrow_rate;
        scaled_variable_debt = some scaled;
      } in
      step (Available l) (Available l) (assign_usage_ratios e₀) _ (ratios-Available l e₀ a) λ e₁ k.
        step (Available l) (Available l)
          (assign_rates params before debt_then (ray_mul scaled index) e₁) _
          (assign-Available l params before debt_then (ray_mul scaled index) e₁ k)
          λ e₂ k₂. after _ (variable_debt_now e₂ scaled t now) _ λ v _. ratios-Available l _ k₂

pub borrow-Available :
    (params : Configuration) (amount : ℤ) (mode : RateMode) (before : ReserveData) (t now : ℤ)
    → Ensures
        (Available (before.available_liquidity +ℤ pos 0 -ℤ amount))
        (calc_expected_reserve_data_after_borrow params amount mode before t now)
unfolding calc_expected_reserve_data_after_borrow
borrow-Available params amount mode before t now =
    let start : ExpectedReserve = record (begin before) { last_update_timestamp = some t } in
    let l = before.available_liquidity +ℤ pos 0 -ℤ amount in
    after _ (update_state before start t) _ λ e₁ _.
      step (Available l) (Available l) (update_liquidity_and_usage_ratios before e₁ (pos 0) amount)
        _ (liquidity-Available before e₁ (pos 0) amount)
        λ e₂ k.
          either _ (is_stable mode) (stable-Available l params amount before t now e₂ k)
            (variable-Available l params amount before t now e₂ k)

done : (l : ℤ) (e : ExpectedReserve) → Available l e → Ensures (Available l) (ok e)
done l e a = record { exact = λ e' h. cc }

repay_stable-Available :
    (l amount : ℤ) (before : ReserveData) (user : UserReserveData) (t : ℤ) (e : ExpectedReserve)
    → Available l e
    → Ensures (Available l) (repay_stable amount before user t e)
unfolding repay_stable
repay_stable-Available l amount before user t e a =
    let debt =
      calc_expected_total_stable_debt before.principal_stable_debt before.average_stable_borrow_rate
        before.total_stable_debt_last_updated t in
    either _ (ltb_ℤ (debt -ℤ amount) (pos 0)) (done l _ a) (
      after _
        (calc_expected_average_stable_borrow_rate before.average_stable_borrow_rate debt
          (negated amount) user.stable_borrow_rate)
        _ λ average _. done l _ (kept (ltb_ℤ average (pos 0)) (debt -ℤ amount) average))
  where
    kept :
        (b : Bool) (s average : ℤ)
        → Available l (
            if b then no_stable_debt e else record e {
              principal_stable_debt = some s;
              total_stable_debt = some s;
              average_stable_borrow_rate = some average;
            })
    kept true s average = a
    kept false s average = a

repay_variable-Available :
    (l amount : ℤ) (before : ReserveData) (e : ExpectedReserve)
    → Available l e
    → Ensures (Available l) (repay_variable amount before e)
unfolding repay_variable
repay_variable-Available l amount before e a =
    after _ (need e.variable_borrow_index) _
      λ index _. after _ (ray_div amount index) _ λ shares _. done l _ a

pub repay-Available :
    (params : Configuration) (amount : ℤ) (mode : RateMode) (before : ReserveData)
    (user : UserReserveData) (t debt : ℤ)
    → calc_expected_variable_debt_token_balance (assigned before) (copy_user user) t ≡ ok debt
    → Ensures
        (Available (
          before.available_liquidity
          +ℤ amount_to_repay amount mode
              (calc_expected_stable_debt_token_balance user.principal_stable_debt
                user.stable_borrow_rate user.stable_rate_last_updated t)
              debt
          -ℤ pos 0))
        (calc_expected_reserve_data_after_repay params amount mode before user t)
unfolding calc_expected_reserve_data_after_repay
repay-Available params amount mode before user t debt owed =
    let paid =
      amount_to_repay amount mode
        (calc_expected_stable_debt_token_balance user.principal_stable_debt user.stable_borrow_rate
          user.stable_rate_last_updated t)
        debt in
    let l = before.available_liquidity +ℤ paid -ℤ pos 0 in
    rw owed (
      after _ (update_state before (begin before) t) _ λ e₁ _.
        step (Available l) (Available l) (update_liquidity_and_usage_ratios before e₁ paid (pos 0))
          _ (liquidity-Available before e₁ paid (pos 0))
          λ e₂ k.
            step (Available l) (Available l)
              (if is_stable mode
                then repay_stable paid before user t e₂
                else repay_variable paid before e₂)
              _
              (either _ (is_stable mode) (repay_stable-Available l paid before user t e₂ k)
                (repay_variable-Available l paid before e₂ k))
              λ e₃ k₃.
                step (Available l) (Available l) (assign_usage_ratios e₃) _
                  (ratios-Available l e₃ k₃)
                  λ e₄ k₄.
                    step (Available l) (Available l) (update_rates params before e₄) _
                      (rates-Available l params before e₄ k₄) λ e₅ k₅. total-Available l _ k₅)
