-- ===== src/Calc/State.antt =====
-- The steps that every action shares, which assign fields of the expected reserve: `updateState`,
-- `updateLiquidityAndUsageRatios`, `updateTotalLiquidityAndUsageRatio` and the block of rates of
-- test-suites/helpers/utils/calculations.ts. A function that mutates the expected reserve returns it.
pub mod Inversion
use kza_lending.Base.{some, if◌then◌else◌}
use kza_lending.Base.Int.{ℤ, pos, ◌+ℤ◌, ◌-ℤ◌, ltb_ℤ, eqb_ℤ}
use kza_lending.Base.Result.{Result, ok, ◌>>=◌, need}
use kza_lending.WadRay.{ray_mul, ray_div, percent_mul}
use kza_lending.Calc.Data.{ReserveData, ExpectedReserve}
use kza_lending.Calc.Config.{Configuration}
use kza_lending.Calc.Interest.{
  calc_compounded_interest, calc_expected_liquidity_index, calc_expected_variable_borrow_index,
  calc_expected_total_stable_debt, calc_expected_total_variable_debt,
}
use kza_lending.Calc.Rates.{calc_expected_usage_ratios, calc_expected_interest_rates}

unfoldable pub calc_expected_accrue_to_treasury : ReserveData → ExpectedReserve → Result ℤ
calc_expected_accrue_to_treasury reserve_data next =
    let prev_total_variable_debt =
      ray_mul reserve_data.scaled_variable_debt reserve_data.variable_borrow_index in
    let cumulated_stable_interest =
      calc_compounded_interest reserve_data.average_stable_borrow_rate
        reserve_data.last_update_timestamp reserve_data.total_stable_debt_last_updated in
    let prev_total_stable_debt =
      ray_mul reserve_data.principal_stable_debt cumulated_stable_interest in
    let accrue : Result ℤ = (do
      scaled ← need next.scaled_variable_debt
      index ← need next.variable_borrow_index
      let curr_total_variable_debt = ray_mul scaled index
      total_stable_debt ← need next.total_stable_debt
      let total_debt_accrued =
          curr_total_variable_debt +ℤ total_stable_debt -ℤ prev_total_variable_debt
          -ℤ prev_total_stable_debt
      let amount_to_mint = percent_mul total_debt_accrued reserve_data.reserve_factor
      let minted : Result ℤ = (do
        liquidity_index ← need next.liquidity_index
        shares ← ray_div amount_to_mint liquidity_index
        ok (reserve_data.accrued_to_treasury_scaled +ℤ shares))
      if ltb_ℤ (pos 0) amount_to_mint
          then minted
          else ok reserve_data.accrued_to_treasury_scaled) in
    if eqb_ℤ reserve_data.reserve_factor (pos 0)
    then ok reserve_data.accrued_to_treasury_scaled
    else accrue

-- The fields that `updateState` assigns before the last one.
unfoldable pub accrue_debt : ReserveData → ExpectedReserve → ℤ → ExpectedReserve
accrue_debt before e tx_timestamp =
    let variable_borrow_index = calc_expected_variable_borrow_index before tx_timestamp in
    record e {
      liquidity_index = some (calc_expected_liquidity_index before tx_timestamp);
      variable_borrow_index = some variable_borrow_index;
      total_stable_debt = some (
          calc_expected_total_stable_debt before.principal_stable_debt
            before.average_stable_borrow_rate before.total_stable_debt_last_updated tx_timestamp);
      total_variable_debt = some (calc_expected_total_variable_debt before variable_borrow_index);
      scaled_variable_debt = some before.scaled_variable_debt;
      principal_stable_debt = some before.principal_stable_debt;
    }

unfoldable pub update_state : ReserveData → ExpectedReserve → ℤ → Result ExpectedReserve
unfolding accrue_debt
update_state before e tx_timestamp = do
  let next = accrue_debt before e tx_timestamp
  accrued ← calc_expected_accrue_to_treasury before next
  ok (record next { accrued_to_treasury_scaled = some accrued })

-- `[e.borrowUsageRatio, e.supplyUsageRatio] = calcExpectedUsageRatios(...)`
unfoldable pub assign_usage_ratios : ExpectedReserve → Result ExpectedReserve
assign_usage_ratios e = do
  total_stable_debt ← need e.total_stable_debt
  total_variable_debt ← need e.total_variable_debt
  available_liquidity ← need e.available_liquidity
  total_liquidity ← need e.total_liquidity
  usage ←
      calc_expected_usage_ratios total_stable_debt total_variable_debt available_liquidity
        total_liquidity
  ok (record e { borrow_usage_ratio = some usage.borrow; supply_usage_ratio = some usage.supply })

unfoldable pub update_liquidity_and_usage_ratios :
    ReserveData → ExpectedReserve → ℤ → ℤ → Result ExpectedReserve
unfolding assign_usage_ratios
update_liquidity_and_usage_ratios before e liquidity_added liquidity_taken = do
  let available = before.available_liquidity +ℤ liquidity_added -ℤ liquidity_taken
  unbacked ← need e.unbacked
  assign_usage_ratios (record e {
    available_liquidity = some available;
    total_liquidity = some (available +ℤ unbacked);
  })

unfoldable pub update_total_liquidity_and_usage_ratio : ExpectedReserve → Result ExpectedReserve
unfolding assign_usage_ratios
update_total_liquidity_and_usage_ratio e = do
  available ← need e.available_liquidity
  unbacked ← need e.unbacked
  assign_usage_ratios (record e { total_liquidity = some (available +ℤ unbacked) })

-- The block that stands in every action: `const rates = calcExpectedInterestRates(...)` over the
-- given debts, and the assignment of the three rates.
unfoldable pub assign_rates :
    Configuration → ReserveData → ℤ → ℤ → ExpectedReserve → Result ExpectedReserve
assign_rates params before total_stable_debt total_variable_debt e = do
  average_stable_borrow_rate ← need e.average_stable_borrow_rate
  available_liquidity ← need e.available_liquidity
  total_liquidity ← need e.total_liquidity
  rates ←
      calc_expected_interest_rates params before.symbol before.market_stable_rate total_stable_debt
        total_variable_debt average_stable_borrow_rate available_liquidity total_liquidity
  ok (record e {
    liquidity_rate = some rates.liquidity;
    stable_borrow_rate = some rates.stable;
    variable_borrow_rate = some rates.variable;
  })

-- The same block over the debts of the expected reserve.
unfoldable pub update_rates : Configuration → ReserveData → ExpectedReserve → Result ExpectedReserve
unfolding assign_rates
update_rates params before e = do
  total_stable_debt ← need e.total_stable_debt
  total_variable_debt ← need e.total_variable_debt
  assign_rates params before total_stable_debt total_variable_debt e
