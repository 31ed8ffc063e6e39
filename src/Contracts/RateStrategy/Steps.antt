-- ===== src/Contracts/RateStrategy/Steps.antt =====
-- The slopes and the overall rate of contracts/protocol/pool/DefaultReserveInterestRateStrategy.sol
-- against `calcExpectedInterestRates` of test-suites/helpers/utils/calculations.ts.
use kza_lending.Base.{ℕ, ◌-◌, ◌≤◌, ◌≡◌, some, ltb, ◌==◌}
use kza_lending.Base.Int.{ℤ, pos, ◌+ℤ◌, ◌-ℤ◌, pos-sub}
use kza_lending.Base.Result
use kza_lending.Base.Result.{Result, ok, ◌>>=◌}
use kza_lending.WadRay.{nat_ray, ray, ray_mul, ray_div}
use kza_lending.Calc.Config.{StrategyParams}
use kza_lending.Calc.Rates.{calc_expected_overall_borrow_rate, sloped_rates}
use kza_lending.Contracts.Words
use kza_lending.Contracts.Words.{checked_add, checked_sub}
use kza_lending.Contracts.FixedPoint.{contract_ray_mul, contract_ray_div}
use kza_lending.Contracts.Predicts.{
  Predicts, predict, skip, both, branch, ray_div-Predicts, ray_mul_agrees, wad_to_ray_agrees,
  add_agrees, sub_agrees, eqb_pos, ltb_pos, add_add_agrees,
}
use kza_lending.Contracts.RateStrategy.{Strategy, sloped, get_overall_borrow_rate}

pub overall-Predicts :
    (S V vr ar : ℕ)
    → Predicts pos
        (calc_expected_overall_borrow_rate (pos S) (pos V) (pos vr) (pos ar))
        (get_overall_borrow_rate S V vr ar)
unfolding calc_expected_overall_borrow_rate get_overall_borrow_rate
overall-Predicts S V vr ar = skip pos _ _ λ total e.
    rw (add_agrees S V e, eqb_pos)
      (branch pos (total == 0) (predict pos 0) (
        skip pos _ _ λ vir e₁. skip pos _ _ λ wv e₂. skip pos _ _ λ sir e₃. skip pos _ _ λ ws e₄.
          skip pos _ _ λ sum e₅. skip pos _ _ λ tir e₆.
            rw
              (
                wad_to_ray_agrees V e₁,
                ray_mul_agrees vir vr e₂,
                wad_to_ray_agrees S e₃,
                ray_mul_agrees sir ar e₄,
                add_agrees wv ws e₅,
                wad_to_ray_agrees total e₆,
              )
              (ray_div-Predicts sum tir)))

-- The parameters of a strategy as the configuration writes them.
abbrev pub params_of : Strategy → StrategyParams
params_of s = record {
  optimal_usage_ratio = pos s.optimal_usage_ratio;
  base_variable_borrow_rate = pos s.base_variable_borrow_rate;
  variable_rate_slope1 = pos s.variable_rate_slope1;
  variable_rate_slope2 = pos s.variable_rate_slope2;
  stable_rate_slope1 = pos s.stable_rate_slope1;
  stable_rate_slope2 = pos s.stable_rate_slope2;
  base_stable_rate_offset = pos s.base_stable_rate_offset;
  stable_rate_excess_offset = pos s.stable_rate_excess_offset;
  optimal_stable_to_total_debt_ratio = pos s.optimal_stable_to_total_debt_ratio;
}

abbrev pub pos_pair : ℕ × ℕ → ℤ × ℤ
pos_pair (a, b) = (pos a, pos b)

-- What the constructor ensures of the stored excesses.
pub record IsBuilt (s : Strategy) : Type 0 where
  pub usage_le : s.optimal_usage_ratio ≤ nat_ray
  pub usage_excess : s.max_excess_usage_ratio ≡ nat_ray - s.optimal_usage_ratio
  pub stable_le : s.optimal_stable_to_total_debt_ratio ≤ nat_ray
  pub stable_excess :
      s.max_excess_stable_to_total_debt_ratio ≡ nat_ray - s.optimal_stable_to_total_debt_ratio

pub excess_agrees : (o m : ℕ) → o ≤ nat_ray → m ≡ nat_ray - o → ray -ℤ pos o ≡ pos m
excess_agrees o m h e = rw e (pos-sub nat_ray o h)

below_variable :
    (s : Strategy) (base b t : ℕ)
    → Predicts pos_pair
        (Result.◌>>=◌
          (ray_div (ray_mul (pos s.variable_rate_slope1) (pos b)) (pos s.optimal_usage_ratio))
          (λ variable. ok (pos base +ℤ pos t, pos s.base_variable_borrow_rate +ℤ variable)))
        (Words.◌>>=◌ (checked_add base t) λ stable.
          Words.◌>>=◌ (contract_ray_mul s.variable_rate_slope1 b) λ part.
            Words.◌>>=◌ (contract_ray_div part s.optimal_usage_ratio) λ slope.
              Words.◌>>=◌
                (checked_add s.base_variable_borrow_rate slope)
                λ variable. some (stable, variable))
below_variable s base b t = skip pos_pair (checked_add base t) _ λ st e.
    skip pos_pair (contract_ray_mul s.variable_rate_slope1 b) _ λ m e₁.
      rw (ray_mul_agrees s.variable_rate_slope1 b e₁) (
        both pos pos_pair _ _ _ _ (ray_div-Predicts m s.optimal_usage_ratio) λ t' e₂.
          skip pos_pair (checked_add s.base_variable_borrow_rate t') _ λ v e₃.
            rw (add_agrees base t e, add_agrees s.base_variable_borrow_rate t' e₃)
              (predict pos_pair (st, v)))

pub sloped-Predicts :
    (s : Strategy) (base b : ℕ)
    → IsBuilt s
    → Predicts pos_pair (sloped_rates (params_of s) (pos base) (pos b)) (sloped s base b)
unfolding sloped_rates sloped
sloped-Predicts s base b built = rw ltb_pos (
    branch pos_pair (ltb s.optimal_usage_ratio b)
      (skip pos_pair _ _ λ over e₀.
        rw
          (
            sub_agrees b s.optimal_usage_ratio e₀,
            excess_agrees s.optimal_usage_ratio s.max_excess_usage_ratio built.usage_le
                built.usage_excess,
          )
          (both pos pos_pair _ _ _ _ (ray_div-Predicts over s.max_excess_usage_ratio) λ excess e₁.
            skip pos_pair _ _ λ m e₂. skip pos_pair _ _ λ t e₃. skip pos_pair _ _ λ st e₄.
              skip pos_pair _ _ λ m' e₅. skip pos_pair _ _ λ t' e₆. skip pos_pair _ _ λ v e₇.
                rw
                  (
                    ray_mul_agrees s.stable_rate_slope2 excess e₂,
                    add_add_agrees base s.stable_rate_slope1 m e₃ e₄,
                    ray_mul_agrees s.variable_rate_slope2 excess e₅,
                    add_add_agrees s.base_variable_borrow_rate s.variable_rate_slope1 m' e₆ e₇,
                  )
                  (predict pos_pair (st, v))))
      (skip pos_pair _ _ λ m e₀. rw (ray_mul_agrees s.stable_rate_slope1 b e₀) (
        both pos pos_pair _ _ _
          (λ stable. do
            variable ←
                ray_div (ray_mul (pos s.variable_rate_slope1) (pos b)) (pos s.optimal_usage_ratio)
            ok (pos base +ℤ stable, pos s.base_variable_borrow_rate +ℤ variable))
          (ray_div-Predicts m s.optimal_usage_ratio) λ t e₁. below_variable s base b t)))
