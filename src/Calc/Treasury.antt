-- ===== src/Calc/Treasury.antt =====
-- What `updateState` of test-suites/helpers/utils/calculations.ts accrues to the treasury.
use kza_lending.Base.{
  ◌≡◌, refl, arith, Bool, true, false, some, if◌then◌else◌, Bool-cases, inl, inr,
}
use kza_lending.Base.Int.{ℤ, pos, negsuc, ◌+ℤ◌, ◌-ℤ◌, ◌≤ℤ◌, ltb_ℤ, eqb_ℤ, int_laws}
use kza_lending.Base.Result.{Result, ok, ◌>>=◌}
use kza_lending.WadRay.{ray, ray_mul, ray_div, percent_mul, ray_div_pos, nat_ray_div}
use kza_lending.Calc.Data.{ReserveData, ExpectedReserve}
use kza_lending.Calc.Sound.{IsSound}
use kza_lending.Calc.Interest.{
  calc_compounded_interest, calc_expected_liquidity_index, calc_expected_variable_borrow_index,
  calc_expected_total_stable_debt,
}
use kza_lending.Calc.Indexes.{indexes_grow}
use kza_lending.Calc.State.{calc_expected_accrue_to_treasury, accrue_debt, update_state}

ray_div_nonneg : (a b : ℤ) → pos 0 ≤ℤ a → ray ≤ℤ b → (s : ℤ) × (ray_div a b ≡ ok s) × (pos 0 ≤ℤ s)
ray_div_nonneg (pos a) (pos b) h k =
    (pos (nat_ray_div a b), ray_div_pos a b (omega arith), omega arith)
ray_div_nonneg (negsuc a) b h k = absurd (omega arith)
ray_div_nonneg (pos a) (negsuc b) h k = absurd (omega arith)

ltb_nonneg : (a : ℤ) → ltb_ℤ (pos 0) a ≡ true → pos 0 ≤ℤ a
ltb_nonneg a h = ground arith

mint_grows :
    (accrued mint index : ℤ)
    → ray ≤ℤ index
    → (a : ℤ) × ((if ltb_ℤ (pos 0) mint
          then (ray_div mint index >>= λ shares. ok (accrued +ℤ shares))
          else ok accrued)
        ≡ ok a)
      × (accrued ≤ℤ a)
mint_grows accrued mint index large = elim (Bool-cases (ltb_ℤ (pos 0) mint)) [
  | inl more ↦
      let (s, e, nonneg) = ray_div_nonneg mint index (ltb_nonneg mint more) large in
      (accrued +ℤ s, rw (more, e), omega (int_laws, nonneg))
  | inr none_minted ↦ (accrued, rw none_minted, omega arith)
]

either_grows :
    (b : Bool) (accrued : ℤ) (m : Result ℤ)
    → ((a : ℤ) × (m ≡ ok a) × (accrued ≤ℤ a))
    → (a : ℤ) × ((if b then ok accrued else m) ≡ ok a) × (accrued ≤ℤ a)
either_grows true accrued m h = (accrued, refl, omega arith)
either_grows false accrued m h = h

-- On a reserve that is sound, at a time that is not before its last update, `updateState` gives a
-- result, whatever was assigned before: nothing divides by 0 and no field is read that is not
-- assigned; and what is accrued to the treasury does not fall.
pub accrual_grows :
    (r : ReserveData) (e : ExpectedReserve) (t : ℤ)
    → IsSound r
    → r.last_update_timestamp ≤ℤ t
    → (e' : ExpectedReserve) × (accrued : ℤ) × (update_state r e t ≡ ok e')
      × (e'.accrued_to_treasury_scaled ≡ some accrued)
      × (r.accrued_to_treasury_scaled ≤ℤ accrued)
unfolding update_state calc_expected_accrue_to_treasury accrue_debt
accrual_grows r e t s later =
    let grown = indexes_grow r t s later in
    let (a, given, le) =
      either_grows (eqb_ℤ r.reserve_factor (pos 0)) r.accrued_to_treasury_scaled _ (
        mint_grows r.accrued_to_treasury_scaled
          (percent_mul
            (ray_mul r.scaled_variable_debt (calc_expected_variable_borrow_index r t)
              +ℤ calc_expected_total_stable_debt r.principal_stable_debt
                  r.average_stable_borrow_rate r.total_stable_debt_last_updated t
              -ℤ ray_mul r.scaled_variable_debt r.variable_borrow_index
              -ℤ ray_mul r.principal_stable_debt (
                  calc_compounded_interest r.average_stable_borrow_rate r.last_update_timestamp
                    r.total_stable_debt_last_updated))
            r.reserve_factor)
          (calc_expected_liquidity_index r t) grown.1) in
    rw given (_, a, refl, refl, le)
