-- ===== src/Contracts/RateStrategy.antt =====
-- contracts/protocol/pool/DefaultReserveInterestRateStrategy.sol. The balance of the reserve's token
-- at the aToken is an argument.
pub mod Steps
pub mod Parts
pub mod Agree
pub mod Built
use kza_lending.Base.{ℕ, ◌-◌, ◌&&◌, Option, none, some, ltb, leb, ◌==◌, if◌then◌else◌}
use kza_lending.WadRay.{nat_ray}
use kza_lending.Contracts.Words.{◌>>=◌, checked_add, checked_sub}
use kza_lending.Contracts.FixedPoint.{
  contract_ray_mul, contract_ray_div, contract_wad_to_ray, contract_percent_mul,
}

-- What the constructor stores.
pub record Strategy : Type 0 where
  pub optimal_usage_ratio : ℕ
  pub max_excess_usage_ratio : ℕ
  pub optimal_stable_to_total_debt_ratio : ℕ
  pub max_excess_stable_to_total_debt_ratio : ℕ
  pub base_variable_borrow_rate : ℕ
  pub variable_rate_slope1 : ℕ
  pub variable_rate_slope2 : ℕ
  pub stable_rate_slope1 : ℕ
  pub stable_rate_slope2 : ℕ
  pub base_stable_rate_offset : ℕ
  pub stable_rate_excess_offset : ℕ

-- `constructor`, with its two `require`s.
unfoldable pub constructor : ℕ → ℕ → ℕ → ℕ → ℕ → ℕ → ℕ → ℕ → ℕ → Option Strategy
constructor optimal base slope1 slope2 stable1 stable2 offset excess_offset optimal_stable =
    if leb optimal nat_ray && leb optimal_stable nat_ray
    then some (record {
      optimal_usage_ratio = optimal;
      max_excess_usage_ratio = nat_ray - optimal;
      optimal_stable_to_total_debt_ratio = optimal_stable;
      max_excess_stable_to_total_debt_ratio = nat_ray - optimal_stable;
      base_variable_borrow_rate = base;
      variable_rate_slope1 = slope1;
      variable_rate_slope2 = slope2;
      stable_rate_slope1 = stable1;
      stable_rate_slope2 = stable2;
      base_stable_rate_offset = offset;
      stable_rate_excess_offset = excess_offset;
    })
    else none

unfoldable pub get_base_stable_borrow_rate : Strategy → Option ℕ
get_base_stable_borrow_rate s = checked_add s.variable_rate_slope1 s.base_stable_rate_offset

unfoldable pub get_max_variable_borrow_rate : Strategy → Option ℕ
get_max_variable_borrow_rate s = do
  rate ← checked_add s.base_variable_borrow_rate s.variable_rate_slope1
  checked_add rate s.variable_rate_slope2

-- `CalculateInterestRatesParams`, with `balance` for the token's balance of the aToken.
pub record RateParams : Type 0 where
  pub unbacked : ℕ
  pub liquidity_added : ℕ
  pub liquidity_taken : ℕ
  pub total_stable_debt : ℕ
  pub total_variable_debt : ℕ
  pub average_stable_borrow_rate : ℕ
  pub reserve_factor : ℕ
  pub balance : ℕ

-- `_getOverallBorrowRate`
unfoldable pub get_overall_borrow_rate : ℕ → ℕ → ℕ → ℕ → Option ℕ
get_overall_borrow_rate total_stable total_variable variable_rate average_stable_rate = do
  total_debt ← checked_add total_stable total_variable
  let weighted : Option ℕ = (do
    variable_in_ray ← contract_wad_to_ray total_variable
    weighted_variable ← contract_ray_mul variable_in_ray variable_rate
    stable_in_ray ← contract_wad_to_ray total_stable
    weighted_stable ← contract_ray_mul stable_in_ray average_stable_rate
    sum ← checked_add weighted_variable weighted_stable
    total_in_ray ← contract_wad_to_ray total_debt
    contract_ray_div sum total_in_ray)
  if total_debt == 0 then some 0 else weighted

pub record Usage : Type 0 where
  pub stable_to_total : ℕ
  pub borrow : ℕ
  pub supply : ℕ

-- The first `if` of `calculateInterestRates`: the three ratios, which are 0 where there is no debt.
unfoldable pub usage : RateParams → ℕ → Option Usage
usage p total_debt =
    let with_debt : Option Usage = (do
      stable_to_total ← contract_ray_div p.total_stable_debt total_debt
      balance ← checked_add p.balance p.liquidity_added
      available ← checked_sub balance p.liquidity_taken
      available_plus_debt ← checked_add available total_debt
      borrow ← contract_ray_div total_debt available_plus_debt
      all ← checked_add available_plus_debt p.unbacked
      supply ← contract_ray_div total_debt all
      some (record { stable_to_total = stable_to_total; borrow = borrow; supply = supply })) in
    if total_debt == 0
    then some (record { stable_to_total = 0; borrow = 0; supply = 0 })
    else with_debt

-- The second `if`: the stable rate, then the variable rate.
unfoldable pub sloped : Strategy → ℕ → ℕ → Option (ℕ × ℕ)
sloped s base_stable borrow_usage_ratio =
    let above : Option (ℕ × ℕ) = (do
      over ← checked_sub borrow_usage_ratio s.optimal_usage_ratio
      excess ← contract_ray_div over s.max_excess_usage_ratio
      steep ← contract_ray_mul s.stable_rate_slope2 excess
      slope ← checked_add s.stable_rate_slope1 steep
      stable ← checked_add base_stable slope
      steep' ← contract_ray_mul s.variable_rate_slope2 excess
      slope' ← checked_add s.variable_rate_slope1 steep'
      variable ← checked_add s.base_variable_borrow_rate slope'
      some (stable, variable)) in
    let below : Option (ℕ × ℕ) = (do
      part ← contract_ray_mul s.stable_rate_slope1 borrow_usage_ratio
      slope ← contract_ray_div part s.optimal_usage_ratio
      stable ← checked_add base_stable slope
      part' ← contract_ray_mul s.variable_rate_slope1 borrow_usage_ratio
      slope' ← contract_ray_div part' s.optimal_usage_ratio
      variable ← checked_add s.base_variable_borrow_rate slope'
      some (stable, variable)) in
    if ltb s.optimal_usage_ratio borrow_usage_ratio then above else below

-- The third `if`: the stable rate with the excess of stable debt.
unfoldable pub with_stable_excess : Strategy → ℕ → ℕ → Option ℕ
with_stable_excess s stable_to_total stable =
    let above : Option ℕ = (do
      over ← checked_sub stable_to_total s.optimal_stable_to_total_debt_ratio
      excess ← contract_ray_div over s.max_excess_stable_to_total_debt_ratio
      more ← contract_ray_mul s.stable_rate_excess_offset excess
      checked_add stable more) in
    if ltb s.optimal_stable_to_total_debt_ratio stable_to_total then above else some stable

-- `calculateInterestRates`: the liquidity rate, the stable rate and the variable rate.
unfoldable pub calculate_interest_rates : Strategy → RateParams → Option (ℕ × ℕ × ℕ)
unfolding usage sloped with_stable_excess get_overall_borrow_rate get_base_stable_borrow_rate
calculate_interest_rates s p = do
  total_debt ← checked_add p.total_stable_debt p.total_variable_debt
  base_stable ← get_base_stable_borrow_rate s
  u ← usage p total_debt
  (sloped_stable, variable) ← sloped s base_stable u.borrow
  stable ← with_stable_excess s u.stable_to_total sloped_stable
  overall ←
      get_overall_borrow_rate p.total_stable_debt p.total_variable_debt variable
        p.average_stable_borrow_rate
  supplied ← contract_ray_mul overall u.supply
  kept ← checked_sub 10000 p.reserve_factor
  liquidity ← contract_percent_mul supplied kept
  some (liquidity, stable, variable)
