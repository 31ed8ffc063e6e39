-- ===== src/Calc/Indexes/Same.antt =====
-- The indexes that `updateState` of test-suites/helpers/utils/calculations.ts assigns, and the ones that
-- its balances are computed with: two formulas, which test different fields of the reserve.
use kza_lending.Base.{
  ◌≡◌, refl, ap, ◌∙◌, Bool, true, false, arith, Bool-cases, inl, inr, if◌then◌else◌,
}
use kza_lending.Base.Int.{ℤ, pos, negsuc, ◌+ℤ◌, ◌*ℤ◌, ◌/ℤ◌, ◌≤ℤ◌, eqb_ℤ, eqb_ℤ→eq, *ℤ_comm}
use kza_lending.Base.Result.{ok}
use kza_lending.WadRay.{ray, ray_mul, ray_mul_pos, nat_ray_mul_one, one_year}
use kza_lending.Calc.Data.{ReserveData, assigned}
use kza_lending.Calc.Sound.{IsSound}
use kza_lending.Calc.Interest.{
  calc_linear_interest, calc_compounded_interest, calc_expected_liquidity_index,
  calc_expected_variable_borrow_index, calc_expected_reserve_normalized_income,
  calc_expected_reserve_normalized_debt,
}

zero_mul : (a : ℤ) → pos 0 *ℤ a ≡ pos 0
unfolding ◌*ℤ◌
zero_mul (pos a) = ground arith
zero_mul (negsuc a) = ground arith

mul_zero : (a : ℤ) → a *ℤ pos 0 ≡ pos 0
mul_zero a = *ℤ_comm a (pos 0) ∙ zero_mul a

-- At no rate there is no interest.
no_linear : (t last : ℤ) → calc_linear_interest (pos 0) t last ≡ ray
unfolding calc_linear_interest ◌+ℤ◌ ◌/ℤ◌
no_linear t last = rw zero_mul refl

no_power_two : ray_mul (pos 0) (pos 0) /ℤ (one_year *ℤ one_year) ≡ pos 0
unfolding ray_mul ◌+ℤ◌ ◌/ℤ◌ ◌*ℤ◌
no_power_two = refl

no_power_three : ray_mul (pos 0) (pos 0) /ℤ one_year ≡ pos 0
unfolding ray_mul ◌+ℤ◌ ◌/ℤ◌ ◌*ℤ◌
no_power_three = refl

no_terms : ray +ℤ pos 0 /ℤ one_year +ℤ pos 0 /ℤ pos 2 +ℤ pos 0 /ℤ pos 6 ≡ ray
unfolding ◌+ℤ◌ ◌/ℤ◌
no_terms = refl

if_same : (b : Bool) (a : ℤ) → (if b then a else a) ≡ a
if_same true a = refl
if_same false a = refl

no_compounded : (t last : ℤ) → calc_compounded_interest (pos 0) t last ≡ ray
unfolding calc_compounded_interest
no_compounded t last =
    rw (no_power_two, no_power_three, zero_mul, mul_zero, mul_zero, no_terms) (if_same _ ray)

ray_mul_one : (a : ℤ) → pos 0 ≤ℤ a → ray_mul ray a ≡ a
ray_mul_one (pos a) h = ray_mul_pos _ a ∙ ap pos (nat_ray_mul_one a)
ray_mul_one (negsuc a) h = absurd (omega arith)

pub income-index :
    (r : ReserveData) (t : ℤ)
    → IsSound r
    → eqb_ℤ r.supply_usage_ratio (pos 0) ≡ false
    → calc_expected_reserve_normalized_income (assigned r) t
      ≡ ok (calc_expected_liquidity_index r t)
unfolding calc_expected_reserve_normalized_income calc_expected_liquidity_index
income-index r t s used = elim (Bool-cases (eqb_ℤ r.liquidity_rate (pos 0))) [
  | inl z ↦
      rw
        (
          used,
          z,
          eqb_ℤ→eq r.liquidity_rate (pos 0) z,
          no_linear t r.last_update_timestamp,
          ray_mul_one r.liquidity_index (omega (arith, s.liquidity_index_ge)),
        )
        refl
  | inr nz ↦ rw (used, nz) refl
]

pub debt-index :
    (r : ReserveData) (t : ℤ)
    → IsSound r
    → eqb_ℤ r.total_variable_debt (pos 0) ≡ false
    → calc_expected_reserve_normalized_debt r.variable_borrow_rate r.variable_borrow_index
        r.last_update_timestamp t
      ≡ calc_expected_variable_borrow_index r t
unfolding calc_expected_reserve_normalized_debt calc_expected_variable_borrow_index
debt-index r t s owed = elim (Bool-cases (eqb_ℤ r.variable_borrow_rate (pos 0))) [
  | inl z ↦
      rw
        (
          owed,
          z,
          eqb_ℤ→eq r.variable_borrow_rate (pos 0) z,
          no_compounded t r.last_update_timestamp,
          ray_mul_one r.variable_borrow_index (omega (arith, s.variable_index_ge)),
        )
        refl
  | inr nz ↦ rw (owed, nz) refl
]

-- On a reserve that is sound, whose supply is used, the income that balances are computed with is the
-- liquidity index that `updateState` assigns, at any time and at any rate, 0 included; and if it has
-- variable debt, then the normalized debt is the variable borrow index that `updateState` assigns.
pub normalized_indexes_agree :
    (r : ReserveData) (t : ℤ)
    → IsSound r
    → eqb_ℤ r.supply_usage_ratio (pos 0) ≡ false
    → eqb_ℤ r.total_variable_debt (pos 0) ≡ false
    → (calc_expected_reserve_normalized_income (assigned r) t
        ≡ ok (calc_expected_liquidity_index r t))
      × (calc_expected_reserve_normalized_debt r.variable_borrow_rate r.variable_borrow_index
            r.last_update_timestamp t
          ≡ calc_expected_variable_borrow_index r t)
normalized_indexes_agree r t s used owed = (income-index r t s used, debt-index r t s owed)
