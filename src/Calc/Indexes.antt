-- ===== src/Calc/Indexes.antt =====
-- The indexes and the debts that `updateState` of test-suites/helpers/utils/calculations.ts computes,
-- against those of the reserve.
pub mod Same
use kza_lending.Base.{arith}
use kza_lending.Base.Int.{ℤ, pos, ◌≤ℤ◌}
use kza_lending.WadRay.{ray}
use kza_lending.Calc.Data.{ReserveData}
use kza_lending.Calc.Sound.{IsSound}
use kza_lending.Calc.Interest.{
  calc_expected_liquidity_index, calc_expected_variable_borrow_index,
  calc_expected_total_stable_debt, calc_expected_stable_debt_token_balance,
}
use kza_lending.Calc.Interest.Growth.{
  le-ray_mul, le-ray_mul_right, ray-le-compounded, ray-le-calc_linear,
}

-- On a reserve that is sound, at a time that is not before its last update, neither index falls, the
-- indexes stay at one ray or more, and the total stable debt is at least the principal.
pub indexes_grow :
    (r : ReserveData) (timestamp : ℤ)
    → IsSound r
    → r.last_update_timestamp ≤ℤ timestamp
    → (r.liquidity_index ≤ℤ calc_expected_liquidity_index r timestamp)
      × (ray ≤ℤ calc_expected_liquidity_index r timestamp)
      × (r.variable_borrow_index ≤ℤ calc_expected_variable_borrow_index r timestamp)
      × (ray ≤ℤ calc_expected_variable_borrow_index r timestamp)
      × (r.principal_stable_debt
          ≤ℤ calc_expected_total_stable_debt r.principal_stable_debt r.average_stable_borrow_rate
              r.total_stable_debt_last_updated timestamp)
unfolding calc_expected_liquidity_index calc_expected_variable_borrow_index
    calc_expected_total_stable_debt
indexes_grow r timestamp s later =
    let linear =
      ray-le-calc_linear r.liquidity_rate timestamp r.last_update_timestamp s.liquidity_rate_nonneg
        (omega arith) later in
    let variable =
      ray-le-compounded r.variable_borrow_rate timestamp r.last_update_timestamp
        s.variable_rate_nonneg (omega arith) later in
    let stable =
      ray-le-compounded r.average_stable_borrow_rate timestamp r.total_stable_debt_last_updated
        s.average_rate_nonneg s.stable_updated_nonneg (omega arith) in
    let a = le-ray_mul _ r.liquidity_index linear (omega arith) in
    let b = le-ray_mul _ r.variable_borrow_index variable (omega arith) in
    let c = le-ray_mul _ r.principal_stable_debt stable s.principal_nonneg in
    (ground arith, ground arith, ground arith, ground arith, c)

-- The balance of a stable debt is at least its principal.
stable_balance_grows :
    (principal rate last now : ℤ)
    → pos 0 ≤ℤ principal
    → pos 0 ≤ℤ rate
    → pos 0 ≤ℤ last
    → last ≤ℤ now
    → principal ≤ℤ calc_expected_stable_debt_token_balance principal rate last now
unfolding calc_expected_stable_debt_token_balance
stable_balance_grows principal rate last now h k l m =
    let c = le-ray_mul_right principal _ h (ray-le-compounded rate now last k l m) in ground arith
