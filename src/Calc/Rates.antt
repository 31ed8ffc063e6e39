-- ===== src/Calc/Rates.antt =====
-- Usage ratios and interest rates of test-suites/helpers/utils/calculations.ts.
pub mod Ratios
pub mod Given
use kza_lending.Base.{String, if◌then◌else◌}
use kza_lending.Base.Int.{ℤ, pos, ◌+ℤ◌, ◌-ℤ◌, ltb_ℤ, leb_ℤ, eqb_ℤ}
use kza_lending.Base.Result.{Result, ok, ◌>>=◌, ◌>>◌, assert}
use kza_lending.WadRay.{ray, percentage_factor, ray_mul, ray_div, percent_mul, wad_to_ray}
use kza_lending.Calc.Config.{StrategyParams, Configuration, reserve_configuration}

-- The ratio of a debt that may be 0 to the liquidity with the debt added.
unfoldable pub usage_ratio : ℤ → ℤ → Result ℤ
usage_ratio total_debt liquidity =
    if eqb_ℤ total_debt (pos 0) then ok (pos 0) else ray_div total_debt (liquidity +ℤ total_debt)

pub record UsageRatios : Type 0 where
  pub borrow : ℤ
  pub supply : ℤ

unfoldable pub calc_expected_usage_ratios : ℤ → ℤ → ℤ → ℤ → Result UsageRatios
unfolding usage_ratio
calc_expected_usage_ratios total_stable_debt total_variable_debt available total_liquidity = do
  let total_debt = total_stable_debt +ℤ total_variable_debt
  borrow_usage_ratio ← usage_ratio total_debt available
  supply_usage_ratio ← usage_ratio total_debt total_liquidity
  assert (leb_ℤ supply_usage_ratio borrow_usage_ratio)
  ok (record { borrow = borrow_usage_ratio; supply = supply_usage_ratio })

unfoldable pub calc_expected_overall_borrow_rate : ℤ → ℤ → ℤ → ℤ → Result ℤ
calc_expected_overall_borrow_rate total_stable total_variable variable_rate average_stable_rate =
    let total_borrows = total_stable +ℤ total_variable in
    let weighted_variable_rate = ray_mul (wad_to_ray total_variable) variable_rate in
    let weighted_stable_rate = ray_mul (wad_to_ray total_stable) average_stable_rate in
    if eqb_ℤ total_borrows (pos 0)
    then ok (pos 0)
    else ray_div (weighted_variable_rate +ℤ weighted_stable_rate) (wad_to_ray total_borrows)

pub record Rates : Type 0 where
  pub liquidity : ℤ
  pub stable : ℤ
  pub variable : ℤ

-- The first `if` of `calcExpectedInterestRates`, which follows the usage of the reserve: the stable
-- rate, then the variable rate.
unfoldable pub sloped_rates : StrategyParams → ℤ → ℤ → Result (ℤ × ℤ)
sloped_rates s market_stable_rate borrow_usage_ratio =
    let max_excess_usage_ratio = ray -ℤ s.optimal_usage_ratio in
    let above : Result (ℤ × ℤ) = (do
      excess ← ray_div (borrow_usage_ratio -ℤ s.optimal_usage_ratio) max_excess_usage_ratio
      ok (
        market_stable_rate +ℤ s.stable_rate_slope1 +ℤ ray_mul s.stable_rate_slope2 excess,
        s.base_variable_borrow_rate
            +ℤ s.variable_rate_slope1
            +ℤ ray_mul s.variable_rate_slope2 excess,
      )) in
    let below : Result (ℤ × ℤ) = (do
      stable ← ray_div (ray_mul s.stable_rate_slope1 borrow_usage_ratio) s.optimal_usage_ratio
      variable ← ray_div (ray_mul s.variable_rate_slope1 borrow_usage_ratio) s.optimal_usage_ratio
      ok (market_stable_rate +ℤ stable, s.base_variable_borrow_rate +ℤ variable)) in
    if ltb_ℤ s.optimal_usage_ratio borrow_usage_ratio then above else below

-- The second `if`, which follows the share of the stable debt: what the stable rate grows by.
unfoldable pub stable_excess_rate : StrategyParams → ℤ → Result ℤ
stable_excess_rate s stable_to_total_debt_ratio =
    let max_excess = ray -ℤ s.optimal_stable_to_total_debt_ratio in
    let above : Result ℤ = (do
      excess ←
          ray_div (stable_to_total_debt_ratio -ℤ s.optimal_stable_to_total_debt_ratio) max_excess
      ok (ray_mul s.stable_rate_excess_offset excess)) in
    if ltb_ℤ s.optimal_stable_to_total_debt_ratio stable_to_total_debt_ratio
    then above
    else ok (pos 0)

unfoldable pub stable_to_total_ratio : ℤ → ℤ → Result ℤ
stable_to_total_ratio total_stable_debt total_debt =
    if ltb_ℤ (pos 0) total_stable_debt then ray_div total_stable_debt total_debt else ok (pos 0)

unfoldable pub calc_expected_interest_rates :
    Configuration → String → ℤ → ℤ → ℤ → ℤ → ℤ → ℤ → Result Rates
unfolding reserve_configuration calc_expected_usage_ratios stable_to_total_ratio sloped_rates
    stable_excess_rate calc_expected_overall_borrow_rate
calc_expected_interest_rates params symbol market_stable_rate total_stable_debt total_variable_debt
      average_stable_borrow_rate available_liquidity total_liquidity =
    do
      c ← reserve_configuration params symbol
      usage ←
          calc_expected_usage_ratios total_stable_debt total_variable_debt available_liquidity
            total_liquidity
      let total_debt = total_stable_debt +ℤ total_variable_debt
      stable_to_total_debt_ratio ← stable_to_total_ratio total_stable_debt total_debt
      (stable_rate, variable_borrow_rate) ← sloped_rates c.strategy market_stable_rate usage.borrow
      excess ← stable_excess_rate c.strategy stable_to_total_debt_ratio
      overall ←
          calc_expected_overall_borrow_rate total_stable_debt total_variable_debt
            variable_borrow_rate average_stable_borrow_rate
      ok (record {
        liquidity =
            percent_mul (ray_mul overall usage.supply) (percentage_factor -ℤ c.reserve_factor);
        stable = stable_rate +ℤ excess;
        variable = variable_borrow_rate;
      })
