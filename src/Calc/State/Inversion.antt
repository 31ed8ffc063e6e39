-- ===== src/Calc/State/Inversion.antt =====
-- What a successful step of test-suites/helpers/utils/calculations.ts has read and assigned.
use kza_lending.Base.{◌≡◌, Option, none, some}
use kza_lending.Base.Int.{ℤ, ◌+ℤ◌, ◌-ℤ◌}
use kza_lending.Base.Result.{ok, need, >>=-eq-ok}
use kza_lending.Calc.Data.{ReserveData, ExpectedReserve}
use kza_lending.Calc.Config.{Configuration}
use kza_lending.Calc.Rates.{
  UsageRatios, Rates, calc_expected_usage_ratios, calc_expected_interest_rates,
}
use kza_lending.Calc.State.{
  accrue_debt, update_state, calc_expected_accrue_to_treasury, assign_usage_ratios,
  update_liquidity_and_usage_ratios, update_total_liquidity_and_usage_ratio, assign_rates,
  update_rates,
}

pub need-eq-ok : {A : Type 0} {o : Option A} {a : A} → need o ≡ ok a → o ≡ some a
need-eq-ok {o = none} h = cc
need-eq-ok {o = some b} h = cc

-- The expected reserve with the ratios assigned, and what they were computed from.
pub record HasRatios (e e' : ExpectedReserve) : Type 0 where
  pub stable : ℤ
  pub variable : ℤ
  pub available : ℤ
  pub total : ℤ
  pub ratios : UsageRatios
  pub stable_is : e.total_stable_debt ≡ some stable
  pub variable_is : e.total_variable_debt ≡ some variable
  pub available_is : e.available_liquidity ≡ some available
  pub total_is : e.total_liquidity ≡ some total
  pub computed : calc_expected_usage_ratios stable variable available total ≡ ok ratios
  pub result : e' ≡ record e {
    borrow_usage_ratio = some ratios.borrow;
    supply_usage_ratio = some ratios.supply;
  }

pub assign_usage_ratios-HasRatios :
    (e : ExpectedReserve) {e' : ExpectedReserve} → assign_usage_ratios e ≡ ok e' → HasRatios e e'
unfolding assign_usage_ratios
assign_usage_ratios-HasRatios e h =
    let (stable, e₁, h₁) = >>=-eq-ok (need e.total_stable_debt) _ h in
    let (variable, e₂, h₂) = >>=-eq-ok (need e.total_variable_debt) _ h₁ in
    let (available, e₃, h₃) = >>=-eq-ok (need e.available_liquidity) _ h₂ in
    let (total, e₄, h₄) = >>=-eq-ok (need e.total_liquidity) _ h₃ in
    let (ratios, e₅, h₅) =
      >>=-eq-ok (calc_expected_usage_ratios stable variable available total) _ h₄ in
    record {
      stable = stable;
      variable = variable;
      available = available;
      total = total;
      ratios = ratios;
      stable_is = need-eq-ok e₁;
      variable_is = need-eq-ok e₂;
      available_is = need-eq-ok e₃;
      total_is = need-eq-ok e₄;
      computed = e₅;
      result = cc;
    }

-- `updateLiquidityAndUsageRatios`
pub record HasLiquidity (before : ReserveData) (e e' : ExpectedReserve) (added taken : ℤ)
    : Type 0 where
  pub unbacked : ℤ
  pub unbacked_is : e.unbacked ≡ some unbacked
  pub ratios :
      HasRatios
        (record e {
          available_liquidity = some (before.available_liquidity +ℤ added -ℤ taken);
          total_liquidity = some (before.available_liquidity +ℤ added -ℤ taken +ℤ unbacked);
        })
        e'

pub update_liquidity-HasLiquidity :
    (before : ReserveData) (e : ExpectedReserve) (added taken : ℤ) {e' : ExpectedReserve}
    → update_liquidity_and_usage_ratios before e added taken ≡ ok e'
    → HasLiquidity before e e' added taken
unfolding update_liquidity_and_usage_ratios
update_liquidity-HasLiquidity before e added taken h =
    let (unbacked, e₁, h₁) = >>=-eq-ok (need e.unbacked) _ h in
    record {
      unbacked = unbacked;
      unbacked_is = need-eq-ok e₁;
      ratios = assign_usage_ratios-HasRatios _ h₁;
    }

-- `updateTotalLiquidityAndUsageRatio`
pub record HasTotal (e e' : ExpectedReserve) : Type 0 where
  pub available : ℤ
  pub unbacked : ℤ
  pub available_is : e.available_liquidity ≡ some available
  pub unbacked_is : e.unbacked ≡ some unbacked
  pub ratios : HasRatios (record e { total_liquidity = some (available +ℤ unbacked) }) e'

pub update_total-HasTotal :
    (e : ExpectedReserve) {e' : ExpectedReserve}
    → update_total_liquidity_and_usage_ratio e ≡ ok e'
    → HasTotal e e'
unfolding update_total_liquidity_and_usage_ratio
update_total-HasTotal e h =
    let (available, e₁, h₁) = >>=-eq-ok (need e.available_liquidity) _ h in
    let (unbacked, e₂, h₂) = >>=-eq-ok (need e.unbacked) _ h₁ in
    record {
      available = available;
      unbacked = unbacked;
      available_is = need-eq-ok e₁;
      unbacked_is = need-eq-ok e₂;
      ratios = assign_usage_ratios-HasRatios _ h₂;
    }

-- The block of rates.
pub record HasRates (params : Configuration) (before : ReserveData) (stable variable : ℤ)
    (e e' : ExpectedReserve) : Type 0 where
  pub average : ℤ
  pub available : ℤ
  pub total : ℤ
  pub rates : Rates
  pub average_is : e.average_stable_borrow_rate ≡ some average
  pub available_is : e.available_liquidity ≡ some available
  pub total_is : e.total_liquidity ≡ some total
  pub computed :
      calc_expected_interest_rates params before.symbol before.market_stable_rate stable variable
        average available total
      ≡ ok rates
  pub result : e' ≡ record e {
    liquidity_rate = some rates.liquidity;
    stable_borrow_rate = some rates.stable;
    variable_borrow_rate = some rates.variable;
  }

pub assign_rates-HasRates :
    (params : Configuration) (before : ReserveData) (stable variable : ℤ) (e : ExpectedReserve)
    {e' : ExpectedReserve}
    → assign_rates params before stable variable e ≡ ok e'
    → HasRates params before stable variable e e'
unfolding assign_rates
assign_rates-HasRates params before stable variable e h =
    let (average, e₁, h₁) = >>=-eq-ok (need e.average_stable_borrow_rate) _ h in
    let (available, e₂, h₂) = >>=-eq-ok (need e.available_liquidity) _ h₁ in
    let (total, e₃, h₃) = >>=-eq-ok (need e.total_liquidity) _ h₂ in
    let (rates, e₄, h₄) =
      >>=-eq-ok
        (calc_expected_interest_rates params before.symbol before.market_stable_rate stable variable
          average available total)
        _ h₃ in
    record {
      average = average;
      available = available;
      total = total;
      rates = rates;
      average_is = need-eq-ok e₁;
      available_is = need-eq-ok e₂;
      total_is = need-eq-ok e₃;
      computed = e₄;
      result = cc;
    }

pub update_rates-HasRates :
    (params : Configuration) (before : ReserveData) (e : ExpectedReserve) {e' : ExpectedReserve}
    → update_rates params before e ≡ ok e'
    → (stable : ℤ) × (variable : ℤ) × (e.total_stable_debt ≡ some stable)
      × (e.total_variable_debt ≡ some variable)
      × HasRates params before stable variable e e'
unfolding update_rates
update_rates-HasRates params before e h =
    let (stable, e₁, h₁) = >>=-eq-ok (need e.total_stable_debt) _ h in
    let (variable, e₂, h₂) = >>=-eq-ok (need e.total_variable_debt) _ h₁ in
    (
      stable,
      variable,
      need-eq-ok e₁,
      need-eq-ok e₂,
      assign_rates-HasRates params before stable variable e h₂,
    )

-- `updateState`
pub update_state_inv :
    (before : ReserveData) (e : ExpectedReserve) (t : ℤ) {e' : ExpectedReserve}
    → update_state before e t ≡ ok e'
    → (accrued : ℤ) × (calc_expected_accrue_to_treasury before (accrue_debt before e t)
        ≡ ok accrued)
      × (e' ≡ record (accrue_debt before e t) { accrued_to_treasury_scaled = some accrued })
unfolding update_state
update_state_inv before e t h =
    let (accrued, e₁, h₁) =
      >>=-eq-ok (calc_expected_accrue_to_treasury before (accrue_debt before e t)) _ h in
    (accrued, e₁, cc)
