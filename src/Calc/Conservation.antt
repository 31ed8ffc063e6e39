-- ===== src/Calc/Conservation.antt =====
-- The liquidity that an action of test-suites/helpers/utils/calculations.ts gives a reserve and the
-- amount that it takes out of the wallet of the user, together.
pub mod Debt
pub mod Transfers
use kza_lending.Base.{◌≡◌, refl, sym, ap, ◌∙◌, true, false, Option, some, if◌then◌else◌}
use kza_lending.Base.Int.{ℤ, pos, ◌+ℤ◌, ◌-ℤ◌, int_laws}
use kza_lending.Base.Result.{Result, ok, ◌>>=◌, Ensures, after, either, need, >>=-eq-ok}
use kza_lending.WadRay.{ray_div, ray_mul, negated}
use kza_lending.Calc.Data.{ReserveData, ExpectedReserve, RateMode, is_stable, assigned}
use kza_lending.Calc.UserData.{UserReserveData, ExpectedUser, copy_user}
use kza_lending.Calc.Config.{Configuration}
use kza_lending.Calc.Interest.{
  calc_expected_a_token_balance, calc_expected_scaled_a_token_balance,
  calc_expected_variable_debt_token_balance, calc_expected_stable_debt_token_balance,
  calc_expected_average_stable_borrow_rate, calc_expected_total_stable_debt,
  calc_expected_user_stable_rate,
}
use kza_lending.Calc.State.{
  update_state, update_liquidity_and_usage_ratios, update_rates, assign_usage_ratios, assign_rates,
  update_total_liquidity_and_usage_ratio,
}
use kza_lending.Calc.State.Inversion.{
  HasRatios, HasLiquidity, HasTotal, HasRates, update_liquidity-HasLiquidity, update_total-HasTotal,
  assign_usage_ratios-HasRatios, assign_rates-HasRates, update_rates-HasRates,
}
use kza_lending.Calc.Supply.{
  begin, amount_to_withdraw, calc_expected_reserve_data_after_deposit,
  calc_expected_reserve_data_after_withdraw, calc_expected_user_data_after_deposit,
  calc_expected_user_data_after_withdraw,
}
use kza_lending.Calc.Borrow.{
  borrow_stable, borrow_variable, variable_debt_now, borrow_user,
  calc_expected_reserve_data_after_borrow, calc_expected_user_data_after_borrow,
}
use kza_lending.Calc.Repay.{
  amount_to_repay, repay_stable, repay_variable, repay_user, calc_expected_reserve_data_after_repay,
  calc_expected_user_data_after_repay,
}

abbrev pub Available : ℤ → ExpectedReserve → Type 0
Available l e = e.available_liquidity ≡ some l

-- The steps of the reserve keep the available liquidity that the first of them assigns.
pub liquidity-Available :
    (before : ReserveData) (e : ExpectedReserve) (added taken : ℤ)
    → Ensures
        (Available (before.available_liquidity +ℤ added -ℤ taken))
        (update_liquidity_and_usage_ratios before e added taken)
liquidity-Available before e added taken = record {
  exact = λ e' h.
      let k = update_liquidity-HasLiquidity before e added taken h in rw k.ratios.result refl;
}

pub ratios-Available :
    (l : ℤ) (e : ExpectedReserve) → Available l e → Ensures (Available l) (assign_usage_ratios e)
ratios-Available l e a = record {
  exact = λ e' h. let k = assign_usage_ratios-HasRatios e h in rw k.result a;
}

pub total-Available :
    (l : ℤ) (e : ExpectedReserve)
    → Available l e
    → Ensures (Available l) (update_total_liquidity_and_usage_ratio e)
total-Available l e a = record {
  exact = λ e' h. let k = update_total-HasTotal e h in rw k.ratios.result a;
}

pub assign-Available :
    (l : ℤ) (params : Configuration) (before : ReserveData) (s v : ℤ) (e : ExpectedReserve)
    → Available l e
    → Ensures (Available l) (assign_rates params before s v e)
assign-Available l params before s v e a = record {
  exact = λ e' h. let k = assign_rates-HasRates params before s v e h in rw k.result a;
}

pub rates-Available :
    (l : ℤ) (params : Configuration) (before : ReserveData) (e : ExpectedReserve)
    → Available l e
    → Ensures (Available l) (update_rates params before e)
rates-Available l params before e a = record {
  exact = λ e' h. let (s, v, _, _, k) = update_rates-HasRates params before e h in rw k.result a;
}

-- A step, the property of its result, and the rest.
pub step {ℓ} :
    {A B : Type 0} (P : A → Type ℓ) (Q : B → Type ℓ) (m : Result A) (f : A → Result B)
    → Ensures P m
    → ((a : A) → P a → Ensures Q (f a))
    → Ensures Q (m >>= f)
step P Q m f p q = after Q m f λ a e. q a (p.exact a e)

-- The end of a deposit and of a withdrawal.
supply-Available :
    (l average : ℤ) (params : Configuration) (before : ReserveData) (e : ExpectedReserve)
    → Available l e
    → Ensures (Available l) (
        update_rates params before (record e { average_stable_borrow_rate = some average })
        >>= λ e₃. update_total_liquidity_and_usage_ratio e₃)
supply-Available l average params before e a =
    step (Available l) (Available l)
      (update_rates params before (record e { average_stable_borrow_rate = some average })) _
      (rates-Available l params before _ a) λ e₃ k. total-Available l e₃ k

pub deposit-Available :
    (params : Configuration) (amount : ℤ) (before : ReserveData) (t : ℤ)
    → Ensures
        (Available (before.available_liquidity +ℤ amount -ℤ pos 0))
        (calc_expected_reserve_data_after_deposit params amount before t)
unfolding calc_expected_reserve_data_after_deposit
deposit-Available params amount before t =
    let l = before.available_liquidity +ℤ amount -ℤ pos 0 in
    after _ (update_state before (begin before) t) _ λ e₁ _.
      step (Available l) (Available l) (update_liquidity_and_usage_ratios before e₁ amount (pos 0))
        _ (liquidity-Available before e₁ amount (pos 0))
        λ e₂ k. supply-Available l before.average_stable_borrow_rate params before e₂ k

pub withdraw-Available :
    (params : Configuration) (amount balance : ℤ) (before : ReserveData) (user : UserReserveData)
    (t : ℤ)
    → calc_expected_a_token_balance (assigned before) (copy_user user) t ≡ ok balance
    → Ensures
        (Available (before.available_liquidity +ℤ pos 0 -ℤ amount_to_withdraw amount balance))
        (calc_expected_reserve_data_after_withdraw params amount before user t)
unfolding calc_expected_reserve_data_after_withdraw
withdraw-Available params amount balance before user t held =
    let taken = amount_to_withdraw amount balance in
    let l = before.available_liquidity +ℤ pos 0 -ℤ taken in
    rw held (
      after _ (update_state before (begin before) t) _ λ e₁ _.
        step (Available l) (Available l) (update_liquidity_and_usage_ratios before e₁ (pos 0) taken)
          _ (liquidity-Available before e₁ (pos 0) taken)
          λ e₂ k. supply-Available l before.average_stable_borrow_rate params before e₂ k)
