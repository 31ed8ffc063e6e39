-- ===== src/Contracts/RateStrategy/Agree.antt =====
-- `calculateInterestRates` of contracts/protocol/pool/DefaultReserveInterestRateStrategy.sol against
-- `calcExpectedInterestRates` of test-suites/helpers/utils/calculations.ts.
use kza_lending.Base.{ℕ, ◌+◌, ◌≡◌, some, String}
use kza_lending.Base.Int.{pos, ◌+ℤ◌, ◌-ℤ◌, int_laws}
use kza_lending.Base.Result
use kza_lending.Base.Result.{Result, ok, ◌>>=◌}
use kza_lending.WadRay.{percent_mul, ray_mul}
use kza_lending.Calc.Config.{Configuration, reserve_configuration}
use kza_lending.Calc.Rates.{
  Rates, calc_expected_overall_borrow_rate, calc_expected_interest_rates, sloped_rates,
  stable_excess_rate,
}
use kza_lending.Contracts.Words
use kza_lending.Contracts.Words.{
  checked_add, checked_sub, Gives, checked_sub-Gives, checked_add-Gives,
}
use kza_lending.Contracts.FixedPoint.{contract_ray_mul, contract_percent_mul}
use kza_lending.Contracts.Predicts.{
  Predicts, predict, skip, both, ray_mul_agrees, percent_mul_agrees, sub_agrees,
}
use kza_lending.Contracts.RateStrategy.{
  Strategy, RateParams, Usage, usage, sloped, with_stable_excess, get_overall_borrow_rate,
  get_base_stable_borrow_rate, calculate_interest_rates,
}
use kza_lending.Contracts.RateStrategy.Steps.{
  params_of, pos_pair, IsBuilt, overall-Predicts, sloped-Predicts,
}
use kza_lending.WadRay.{percentage_factor}
use kza_lending.Contracts.RateStrategy.Parts.{
  available_of, growth, stable_excess-Predicts, usage-Predicts, share-Predicts,
}

abbrev rates_of : ℕ × ℕ × ℕ → Rates
rates_of (l, s, v) = record { liquidity = pos l; stable = pos s; variable = pos v }

growth_back : (stable total : ℕ) → pos stable +ℤ growth stable total ≡ pos total
growth_back stable total = omega int_laws

-- The code behind the ratios.
after_usage :
    (s : Strategy) (p : RateParams) (base : ℕ) (u : Usage)
    → IsBuilt s
    → Predicts rates_of
        (Result.◌>>=◌ (sloped_rates (params_of s) (pos base) (pos u.borrow)) λ sv.
          Result.◌>>=◌ (stable_excess_rate (params_of s) (pos u.stable_to_total)) λ excess.
            Result.◌>>=◌
              (calc_expected_overall_borrow_rate
                (pos p.total_stable_debt)
                (pos p.total_variable_debt)
                sv.1
                (pos p.average_stable_borrow_rate))
              λ overall. ok (record {
                liquidity =
                    percent_mul
                      (ray_mul overall (pos u.supply))
                      (percentage_factor -ℤ pos p.reserve_factor);
                stable = sv.0 +ℤ excess;
                variable = sv.1;
              }))
        (Words.◌>>=◌ (sloped s base u.borrow) λ sv.
          Words.◌>>=◌ (with_stable_excess s u.stable_to_total sv.0) λ stable.
            Words.◌>>=◌
              (get_overall_borrow_rate p.total_stable_debt p.total_variable_debt sv.1
                p.average_stable_borrow_rate)
              λ overall. Words.◌>>=◌ (contract_ray_mul overall u.supply) λ supplied.
                Words.◌>>=◌ (checked_sub 10000 p.reserve_factor) λ kept.
                  Words.◌>>=◌
                    (contract_percent_mul supplied kept)
                    λ liquidity. some (liquidity, stable, sv.1))
after_usage s p base u built =
    both pos_pair rates_of _ _ _ _ (sloped-Predicts s base u.borrow built) λ sv e₂.
      both (growth sv.0) rates_of _ _ _ _ (stable_excess-Predicts s u.stable_to_total sv.0 built)
        λ st e₃.
          both pos rates_of _ _ _ _
            (overall-Predicts p.total_stable_debt p.total_variable_debt sv.1
              p.average_stable_borrow_rate)
            λ o e₄. skip rates_of (contract_ray_mul o u.supply) _ λ x e₅.
              skip rates_of (checked_sub 10000 p.reserve_factor) _ λ kept e₆.
                skip rates_of (contract_percent_mul x kept) _ λ l e₇.
                  rw
                    (
                      ray_mul_agrees o u.supply e₅,
                      sub_agrees 10000 p.reserve_factor e₆,
                      percent_mul_agrees x kept e₇,
                      growth_back sv.0 st,
                    )
                    (predict rates_of (l, st, sv.1))

rates_predicted :
    (s : Strategy) (p : RateParams) (params : Configuration) (symbol : String) (base : ℕ)
    → IsBuilt s
    → reserve_configuration params symbol
      ≡ ok (record { reserve_factor = pos p.reserve_factor; strategy = params_of s })
    → get_base_stable_borrow_rate s ≡ some base
    → Predicts rates_of
        (calc_expected_interest_rates params symbol
          (pos base)
          (pos p.total_stable_debt)
          (pos p.total_variable_debt)
          (pos p.average_stable_borrow_rate)
          (available_of p)
          (available_of p +ℤ pos p.unbacked))
        (calculate_interest_rates s p)
unfolding calculate_interest_rates calc_expected_interest_rates
rates_predicted s p params symbol base built config e_base =
    skip rates_of (checked_add p.total_stable_debt p.total_variable_debt) _ λ total e₀.
      rw
        (
          e_base,
          config,
          (checked_add-Gives p.total_stable_debt p.total_variable_debt).exact total e₀,
        )
        (skip rates_of (usage p (p.total_stable_debt + p.total_variable_debt)) _ λ u e₁.
          rw ((usage-Predicts p).exact u e₁, (share-Predicts p).exact u e₁)
            (after_usage s p base u built))

-- If the strategy of the contract does not revert, then `calcExpectedInterestRates` gives the three
-- rates that it returns: for a strategy that the constructor built and the configuration records, the
-- stable rate of the market that the contract reports, and the liquidity after the action.
pub rates_agree :
    (s : Strategy) (p : RateParams) (params : Configuration) (symbol : String)
    (base liquidity stable variable : ℕ)
    → IsBuilt s
    → reserve_configuration params symbol
      ≡ ok (record { reserve_factor = pos p.reserve_factor; strategy = params_of s })
    → get_base_stable_borrow_rate s ≡ some base
    → calculate_interest_rates s p ≡ some (liquidity, stable, variable)
    → calc_expected_interest_rates params symbol
        (pos base)
        (pos p.total_stable_debt)
        (pos p.total_variable_debt)
        (pos p.average_stable_borrow_rate)
        (available_of p)
        (available_of p +ℤ pos p.unbacked)
      ≡ ok (record { liquidity = pos liquidity; stable = pos stable; variable = pos variable })
rates_agree s p params symbol base liquidity stable variable built config e_base returned =
    (rates_predicted s p params symbol base built config e_base).exact _ returned
