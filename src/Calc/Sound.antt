-- ===== src/Calc/Sound.antt =====
-- Reserves as the chain stores them: no number is negative, indexes start at one ray, the debt tokens
-- were updated before the reserve, and the reserve factor is at most 100 percent.
use kza_lending.Base.Int.{pos, ◌≤ℤ◌}
use kza_lending.WadRay.{ray, percentage_factor}
use kza_lending.Calc.Data.{ReserveData}

pub record IsSound (r : ReserveData) : Type 0 where
  pub available_nonneg : pos 0 ≤ℤ r.available_liquidity
  pub unbacked_nonneg : pos 0 ≤ℤ r.unbacked
  pub scaled_debt_nonneg : pos 0 ≤ℤ r.scaled_variable_debt
  pub principal_nonneg : pos 0 ≤ℤ r.principal_stable_debt
  pub average_rate_nonneg : pos 0 ≤ℤ r.average_stable_borrow_rate
  pub variable_rate_nonneg : pos 0 ≤ℤ r.variable_borrow_rate
  pub liquidity_rate_nonneg : pos 0 ≤ℤ r.liquidity_rate
  pub liquidity_index_ge : ray ≤ℤ r.liquidity_index
  pub variable_index_ge : ray ≤ℤ r.variable_borrow_index
  pub stable_updated_nonneg : pos 0 ≤ℤ r.total_stable_debt_last_updated
  pub stable_updated_le : r.total_stable_debt_last_updated ≤ℤ r.last_update_timestamp
  pub accrued_nonneg : pos 0 ≤ℤ r.accrued_to_treasury_scaled
  pub factor_nonneg : pos 0 ≤ℤ r.reserve_factor
  pub factor_le : r.reserve_factor ≤ℤ percentage_factor
