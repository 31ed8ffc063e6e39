-- ===== src/Contracts/RateStrategy/Parts.antt =====
-- The ratios of contracts/protocol/pool/DefaultReserveInterestRateStrategy.sol, and what the stable
-- rate grows by, against test-suites/helpers/utils/calculations.ts.
use kza_lending.Base.{
  ℕ, zero, suc, ◌+◌, ◌≡◌, refl, sym, ap, ◌∙◌, true, false, some, arith, ltb, ◌==◌, Bool-cases, inl,
  inr,
}
use kza_lending.Base.Int.{ℤ, pos, ◌+ℤ◌, ◌-ℤ◌, pos-add}
use kza_lending.Base.Result.{ok}
use kza_lending.WadRay.{nat_ray_div_zero}
use kza_lending.Calc.Rates.{
  UsageRatios, calc_expected_usage_ratios, stable_excess_rate, stable_to_total_ratio,
}
use kza_lending.Calc.Rates.Ratios.{nat_usage, usage_ratios_pos, usage_ratios_no_debt}
use kza_lending.Contracts.Words.{checked_add, checked_sub, checked_add-Gives}
use kza_lending.Contracts.FixedPoint.{contract_ray_div, contract_ray_div-some}
use kza_lending.Contracts.Predicts.{
  Predicts, predict, skip, both, branch, ray_div-Predicts, ray_mul_agrees, add_agrees, sub_agrees,
  ltb_pos,
}
use kza_lending.Contracts.RateStrategy.{Strategy, RateParams, Usage, usage, with_stable_excess}
use kza_lending.Contracts.RateStrategy.Steps.{params_of, IsBuilt, excess_agrees}

abbrev pub growth : ℕ → ℕ → ℤ
growth stable total = pos total -ℤ pos stable

growth_of : (stable m c : ℕ) → checked_add stable m ≡ some c → pos m ≡ growth stable c
unfolding checked_add ◌-ℤ◌
growth_of stable m c e = ground arith

growth_none : (stable c : ℕ) → some stable ≡ some c → pos 0 ≡ growth stable c
unfolding ◌-ℤ◌
growth_none stable c e = ground arith

pub stable_excess-Predicts :
    (s : Strategy) (r stable : ℕ)
    → IsBuilt s
    → Predicts
        (growth stable)
        (stable_excess_rate (params_of s) (pos r))
        (with_stable_excess s r stable)
unfolding stable_excess_rate with_stable_excess
stable_excess-Predicts s r stable built = rw ltb_pos (
    branch (growth stable) (ltb s.optimal_stable_to_total_debt_ratio r)
      (skip (growth stable) _ _ λ over e₀.
        rw
          (
            sub_agrees r s.optimal_stable_to_total_debt_ratio e₀,
            excess_agrees s.optimal_stable_to_total_debt_ratio
                s.max_excess_stable_to_total_debt_ratio built.stable_le built.stable_excess,
          )
          (both pos (growth stable) _ _ _ _
            (ray_div-Predicts over s.max_excess_stable_to_total_debt_ratio)
            λ excess e₁. skip (growth stable) _ _ λ m e₂.
              rw (ray_mul_agrees s.stable_rate_excess_offset excess e₂)
                (record { exact = λ c e. ap ok (growth_of stable m c e) })))
      (record { exact = λ c e. ap ok (growth_none stable c e) }))

-- The liquidity that the contract reads, and that liquidity with what is unbacked.
abbrev pub available_of : RateParams → ℤ
available_of p = pos p.balance +ℤ pos p.liquidity_added -ℤ pos p.liquidity_taken

abbrev pub ratios_of : Usage → UsageRatios
ratios_of u = record { borrow = pos u.borrow; supply = pos u.supply }

abbrev pub stable_part : Usage → ℤ
stable_part u = pos u.stable_to_total

no_debt_ratios :
    (S V : ℕ) (available total : ℤ)
    → S + V ≡ 0
    → calc_expected_usage_ratios (pos S) (pos V) available total
      ≡ ok (record { borrow = pos 0; supply = pos 0 })
no_debt_ratios zero zero available total e = usage_ratios_no_debt available total
no_debt_ratios zero (suc V) available total e = absurd (omega arith)
no_debt_ratios (suc S) V available total e = absurd (omega arith)

ratio_found :
    (total avail all b : ℕ)
    → (total == 0) ≡ false
    → all ≡ avail + total
    → contract_ray_div total all ≡ some b
    → nat_usage total avail ≡ b
unfolding nat_usage
ratio_found total avail all b some_debt e h =
    rw some_debt (sym (rw e at (contract_ray_div-some total all h).1))

pub usage-Predicts :
    (p : RateParams)
    → Predicts ratios_of
        (calc_expected_usage_ratios
          (pos p.total_stable_debt)
          (pos p.total_variable_debt)
          (available_of p)
          (available_of p +ℤ pos p.unbacked))
        (usage p (p.total_stable_debt + p.total_variable_debt))
unfolding usage
usage-Predicts p =
    let total = p.total_stable_debt + p.total_variable_debt in
    elim (Bool-cases (total == 0)) [
      | inl no_debt ↦
          let none_left : total ≡ 0 = ground arith in
          rw
            (
              no_debt,
              no_debt_ratios p.total_stable_debt p.total_variable_debt (available_of p)
                  (available_of p +ℤ pos p.unbacked) none_left,
            )
            (predict ratios_of (record { stable_to_total = 0; borrow = 0; supply = 0 }))
      | inr some_debt ↦ rw some_debt (
          skip ratios_of (contract_ray_div p.total_stable_debt total) _ λ st e₀.
            skip ratios_of (checked_add p.balance p.liquidity_added) _ λ bal e₁.
              skip ratios_of (checked_sub bal p.liquidity_taken) _ λ avail e₂.
                skip ratios_of (checked_add avail total) _ λ all e₃.
                  skip ratios_of (contract_ray_div total all) _ λ b e₄.
                    skip ratios_of (checked_add all p.unbacked) _ λ most e₅.
                      skip ratios_of (contract_ray_div total most) _ λ s e₆.
                        let all_is = (checked_add-Gives avail total).exact all e₃ in
                        let most_is = (checked_add-Gives all p.unbacked).exact most e₅ in
                        rw
                          (
                            add_agrees p.balance p.liquidity_added e₁,
                            sub_agrees bal p.liquidity_taken e₂,
                            pos-add avail p.unbacked,
                            usage_ratios_pos p.total_stable_debt p.total_variable_debt avail
                                p.unbacked,
                            ratio_found total avail all b some_debt all_is e₄,
                            ratio_found total (avail + p.unbacked) most s some_debt (omega arith)
                                e₆,
                          )
                          (predict ratios_of
                            (record { stable_to_total = st; borrow = b; supply = s })))
    ]

share_no_debt : (S V : ℕ) (total : ℤ) → S + V ≡ 0 → stable_to_total_ratio (pos S) total ≡ ok (pos 0)
unfolding stable_to_total_ratio
share_no_debt zero V total e = refl
share_no_debt (suc S) V total e = absurd (omega arith)

share_some :
    (S total : ℕ) {st : ℕ}
    → contract_ray_div S total ≡ some st
    → stable_to_total_ratio (pos S) (pos total) ≡ ok (pos st)
unfolding stable_to_total_ratio
share_some zero total e =
    let d = contract_ray_div-some 0 total e in
    ap (λ x. ok (pos x)) (sym (d.1 ∙ nat_ray_div_zero total d.0))
share_some (suc S) total e =
    rw (let q : ltb 0 (suc S + 0) ≡ true = ground arith in q)
      ((ray_div-Predicts (suc S) total).exact _ e)

pub share-Predicts :
    (p : RateParams)
    → Predicts stable_part
        (stable_to_total_ratio
          (pos p.total_stable_debt)
          (pos p.total_stable_debt +ℤ pos p.total_variable_debt))
        (usage p (p.total_stable_debt + p.total_variable_debt))
unfolding usage
share-Predicts p =
    let total = p.total_stable_debt + p.total_variable_debt in
    elim (Bool-cases (total == 0)) [
      | inl no_debt ↦
          rw
            (
              no_debt,
              share_no_debt p.total_stable_debt p.total_variable_debt _
                  (let q : total ≡ 0 = ground arith in q),
            )
            (predict stable_part (record { stable_to_total = 0; borrow = 0; supply = 0 }))
      | inr some_debt ↦
          rw (some_debt, pos-add p.total_stable_debt p.total_variable_debt)
            (skip stable_part (contract_ray_div p.total_stable_debt total) _ λ st e₀.
              skip stable_part (checked_add p.balance p.liquidity_added) _ λ bal e₁.
                skip stable_part (checked_sub bal p.liquidity_taken) _ λ avail e₂.
                  skip stable_part (checked_add avail total) _ λ all e₃.
                    skip stable_part (contract_ray_div total all) _ λ b e₄.
                      skip stable_part (checked_add all p.unbacked) _ λ most e₅.
                        skip stable_part (contract_ray_div total most) _ λ s e₆.
                          rw (share_some p.total_stable_debt total e₀) (
                            predict stable_part
                              (record { stable_to_total = st; borrow = b; supply = s })))
    ]
