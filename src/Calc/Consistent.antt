-- ===== src/Calc/Consistent.antt =====
-- How the usage ratios and the liquidity of an expected reserve of
-- test-suites/helpers/utils/calculations.ts fit its other fields.
pub mod Borrow
pub mod Actions
use kza_lending.Base.{◌≡◌, refl, sym, ◌∙◌, some, if◌then◌else◌}
use kza_lending.Base.Int.{ℤ, pos, ◌+ℤ◌, ◌-ℤ◌}
use kza_lending.Base.Result.{Ensures, after, ok, ◌>>=◌}
use kza_lending.Calc.Data.{
  ReserveData, ExpectedReserve, RateMode, is_stable, assigned, empty_reserve,
}
use kza_lending.Calc.UserData.{UserReserveData, copy_user}
use kza_lending.Calc.Config.{Configuration}
use kza_lending.Calc.Rates.{UsageRatios, calc_expected_usage_ratios}
use kza_lending.Calc.Interest.{
  calc_expected_a_token_balance, calc_expected_variable_debt_token_balance,
  calc_expected_stable_debt_token_balance, calc_expected_total_stable_debt,
  calc_expected_average_stable_borrow_rate, calc_expected_average_stable_borrow_rate_rebalance,
}
use kza_lending.Calc.State.{
  update_state, update_liquidity_and_usage_ratios, update_rates, assign_usage_ratios,
  update_total_liquidity_and_usage_ratio,
}
use kza_lending.Calc.State.Inversion.{HasTotal, update_total-HasTotal}
use kza_lending.Calc.Bridge.{
  finish_bridge, backing_amount, distribute_fee, calc_expected_reserve_data_after_mint_unbacked,
  calc_expected_reserve_data_after_back_unbacked,
}
use kza_lending.WadRay.{negated}
use kza_lending.Calc.Repay.{
  amount_to_repay, repay_stable, repay_variable, calc_expected_reserve_data_after_repay,
}
use kza_lending.Calc.Swap.{
  stable_debt_of, swap_to_variable, swap_to_stable, calc_expected_reserve_data_after_swap_rate_mode,
  calc_expected_reserve_data_after_stable_rate_rebalance,
}
use kza_lending.Calc.Supply.{
  begin, amount_to_withdraw, calc_expected_reserve_data_after_deposit,
  calc_expected_reserve_data_after_withdraw,
}

-- The total liquidity is the available liquidity with what is unbacked, and the two ratios are those of
-- the debts and the liquidity that the object itself holds.
pub record IsConsistent (e : ExpectedReserve) : Type 0 where
  pub stable_debt : ℤ
  pub variable_debt : ℤ
  pub available : ℤ
  pub unbacked : ℤ
  pub ratios : UsageRatios
  pub stable_is : e.total_stable_debt ≡ some stable_debt
  pub variable_is : e.total_variable_debt ≡ some variable_debt
  pub available_is : e.available_liquidity ≡ some available
  pub unbacked_is : e.unbacked ≡ some unbacked
  pub total_is : e.total_liquidity ≡ some (available +ℤ unbacked)
  pub borrow_is : e.borrow_usage_ratio ≡ some ratios.borrow
  pub supply_is : e.supply_usage_ratio ≡ some ratios.supply
  pub computed :
      calc_expected_usage_ratios stable_debt variable_debt available (available +ℤ unbacked)
      ≡ ok ratios

pub some_inj : {A : Type 0} {a b : A} → some a ≡ some b → a ≡ b
some_inj h = cc

HasTotal-IsConsistent : {e e' : ExpectedReserve} → HasTotal e e' → IsConsistent e'
HasTotal-IsConsistent h =
    let r = h.ratios in
    let ea : r.available ≡ h.available = some_inj (sym r.available_is ∙ h.available_is) in
    let et : r.total ≡ h.available +ℤ h.unbacked = some_inj (sym r.total_is) in
    rw r.result (record {
      stable_debt = r.stable;
      variable_debt = r.variable;
      available = h.available;
      unbacked = h.unbacked;
      ratios = r.ratios;
      stable_is = r.stable_is;
      variable_is = r.variable_is;
      available_is = h.available_is;
      unbacked_is = h.unbacked_is;
      total_is = refl;
      borrow_is = refl;
      supply_is = refl;
      computed = rw (ea, et) at r.computed;
    })

finish : (e : ExpectedReserve) → Ensures IsConsistent (update_total_liquidity_and_usage_ratio e)
finish e = record { exact = λ e' h. HasTotal-IsConsistent (update_total-HasTotal e h) }

abbrev with_average : ℤ → ExpectedReserve → ExpectedReserve
with_average a e = record e { average_stable_borrow_rate = some a }

pub deposit-IsConsistent :
    (params : Configuration) (amount : ℤ) (before : ReserveData) (t : ℤ)
    → Ensures IsConsistent (calc_expected_reserve_data_after_deposit params amount before t)
unfolding calc_expected_reserve_data_after_deposit
deposit-IsConsistent params amount before t =
    after _ (update_state before (begin before) t) _ λ e₁ _.
      after _ (update_liquidity_and_usage_ratios before e₁ amount (pos 0)) _ λ e₂ _.
        after _ (update_rates params before (with_average before.average_stable_borrow_rate e₂)) _
          λ e₃ _. finish e₃

pub withdraw-IsConsistent :
    (params : Configuration) (amount : ℤ) (before : ReserveData) (user : UserReserveData) (t : ℤ)
    → Ensures IsConsistent (calc_expected_reserve_data_after_withdraw params amount before user t)
unfolding calc_expected_reserve_data_after_withdraw
withdraw-IsConsistent params amount before user t =
    after _ (calc_expected_a_token_balance (assigned before) (copy_user user) t) _ λ b _.
      after _ (update_state before (begin before) t) _ λ e₁ _.
        after _ (update_liquidity_and_usage_ratios before e₁ (pos 0) (amount_to_withdraw amount b))
          _
          λ e₂ _.
            after _ (update_rates params before (with_average before.average_stable_borrow_rate e₂))
              _ λ e₃ _. finish e₃

bridge-IsConsistent :
    (params : Configuration) (before : ReserveData) (e : ExpectedReserve)
    → Ensures IsConsistent (finish_bridge params before e)
unfolding finish_bridge
bridge-IsConsistent params before e =
    after _
      (calc_expected_average_stable_borrow_rate before.average_stable_borrow_rate
        before.total_stable_debt (pos 0) before.stable_borrow_rate)
      _ λ a _. after _ (update_rates params before (with_average a e)) _ λ e' _. finish e'

abbrev bridge_start : ReserveData → ExpectedReserve
bridge_start before = record empty_reserve {
  address = some before.address;
  reserve_factor = some before.reserve_factor;
}

pub mint-IsConsistent :
    (params : Configuration) (amount : ℤ) (before : ReserveData) (t : ℤ)
    → Ensures IsConsistent (calc_expected_reserve_data_after_mint_unbacked params amount before t)
unfolding calc_expected_reserve_data_after_mint_unbacked
mint-IsConsistent params amount before t =
    after _ (update_state before (bridge_start before) t) _ λ e₁ _.
      after _
        (update_liquidity_and_usage_ratios before
          (record e₁ { unbacked = some (before.unbacked +ℤ amount) }) (pos 0) (pos 0))
        _ λ e₂ _. bridge-IsConsistent params before e₂

pub back-IsConsistent :
    (params : Configuration) (supply amount fee percent : ℤ) (before : ReserveData) (t : ℤ)
    → Ensures IsConsistent
        (calc_expected_reserve_data_after_back_unbacked params supply amount fee percent before t)
unfolding calc_expected_reserve_data_after_back_unbacked
back-IsConsistent params supply amount fee percent before t =
    let backing = backing_amount amount before.unbacked in
    after _ (update_state before (bridge_start before) t) _ λ e₁ _.
      after _ (distribute_fee supply fee percent e₁) _ λ e₂ _.
        after _
          (update_liquidity_and_usage_ratios before
            (record e₂ { unbacked = some (before.unbacked -ℤ backing) }) (backing +ℤ fee) (pos 0))
          _ λ e₃ _. bridge-IsConsistent params before e₃

-- The end of the actions on debts.
debt-IsConsistent :
    (params : Configuration) (before : ReserveData) (e : ExpectedReserve)
    → Ensures IsConsistent (
        assign_usage_ratios e >>= λ e₁.
        update_rates params before e₁ >>= λ e₂. update_total_liquidity_and_usage_ratio e₂)
debt-IsConsistent params before e =
    after _ (assign_usage_ratios e) _
      λ e₁ _. after _ (update_rates params before e₁) _ λ e₂ _. finish e₂

pub repay-IsConsistent :
    (params : Configuration) (amount : ℤ) (mode : RateMode) (before : ReserveData)
    (user : UserReserveData) (t : ℤ)
    → Ensures IsConsistent (calc_expected_reserve_data_after_repay params amount mode before user t)
unfolding calc_expected_reserve_data_after_repay
repay-IsConsistent params amount mode before user t =
    let owed =
      calc_expected_stable_debt_token_balance user.principal_stable_debt user.stable_borrow_rate
        user.stable_rate_last_updated t in
    after _ (calc_expected_variable_debt_token_balance (assigned before) (copy_user user) t) _
      λ d _.
        let paid = amount_to_repay amount mode owed d in
        after _ (update_state before (begin before) t) _ λ e₁ _.
          after _ (update_liquidity_and_usage_ratios before e₁ paid (pos 0)) _ λ e₂ _.
            after _
              (if is_stable mode
                then repay_stable paid before user t e₂
                else repay_variable paid before e₂)
              _
              λ e₃ _. after _ (assign_usage_ratios e₃) _ λ e₄ _.
                after _ (update_rates params before e₄) _
                  λ e₅ _. finish (record e₅ { last_update_timestamp = some t })

pub swap-IsConsistent :
    (params : Configuration) (before : ReserveData) (user : UserReserveData) (mode : RateMode)
    (t : ℤ)
    → Ensures IsConsistent
        (calc_expected_reserve_data_after_swap_rate_mode params before user mode t)
unfolding calc_expected_reserve_data_after_swap_rate_mode
swap-IsConsistent params before user mode t =
    after _ (update_state before (begin before) t) _ λ e₁ _.
      after _ (update_liquidity_and_usage_ratios before e₁ (pos 0) (pos 0)) _ λ e₂ _.
        after _ (calc_expected_variable_debt_token_balance (assigned before) (copy_user user) t) _
          λ d _.
            after _
              (if is_stable mode
                then swap_to_variable before user (stable_debt_of user t) e₂
                else swap_to_stable before d e₂)
              _ λ e₃ _. debt-IsConsistent params before e₃

pub rebalance-IsConsistent :
    (params : Configuration) (before : ReserveData) (user : UserReserveData) (t : ℤ)
    → Ensures IsConsistent
        (calc_expected_reserve_data_after_stable_rate_rebalance params before user t)
unfolding calc_expected_reserve_data_after_stable_rate_rebalance
rebalance-IsConsistent params before user t =
    let total =
      calc_expected_total_stable_debt before.principal_stable_debt before.average_stable_borrow_rate
        before.total_stable_debt_last_updated t in
    let own = stable_debt_of user t in
    after _ (update_state before (begin before) t) _ λ e₁ _.
      after _ (update_liquidity_and_usage_ratios before e₁ (pos 0) (pos 0)) _ λ e₂ _.
        after _
          (calc_expected_average_stable_borrow_rate_rebalance before.average_stable_borrow_rate
            total (negated own) user.stable_borrow_rate)
          _
          λ a _.
            after _
              (calc_expected_average_stable_borrow_rate_rebalance a (total -ℤ own) own
                before.stable_borrow_rate)
              _
              λ b _. debt-IsConsistent params before (record e₂ {
                principal_stable_debt = some total;
                total_stable_debt = some total;
                average_stable_borrow_rate = some b;
              })
