-- ===== src/Calc/Rates/Given.antt =====
-- When the rates of test-suites/helpers/utils/calculations.ts are given, with nothing thrown.
use kza_lending.Base.{
  ℕ, zero, suc, ◌+◌, ◌≡◌, refl, arith, Bool, true, false, String, if◌then◌else◌, Bool-cases, inl,
  inr,
}
use kza_lending.Base.Int.{ℤ, pos, ◌+ℤ◌, ◌-ℤ◌, ◌*ℤ◌, ◌/ℤ◌, eqb_ℤ, ltb_ℤ, pos-add}
use kza_lending.Base.Result.{Result, ok, ◌>>=◌, div}
use kza_lending.WadRay.{ray, ray_mul, ray_div, wad_to_ray, wad_to_ray_pos}
use kza_lending.Calc.Config.{StrategyParams, ReserveParams, Configuration, reserve_configuration}
use kza_lending.Calc.Rates.{
  Rates, calc_expected_overall_borrow_rate, sloped_rates, stable_excess_rate, stable_to_total_ratio,
  calc_expected_interest_rates,
}
use kza_lending.Calc.Rates.Ratios.{usage_ratios_total}

-- A call that returns.
pub record IsGiven {ℓ} {A : Type ℓ} (m : Result A) : Type ℓ where
  pub value : A
  pub is : m ≡ ok value

IsGiven-ok {ℓ} : {A : Type ℓ} (a : A) → IsGiven (ok a)
IsGiven-ok a = record { value = a; is = refl }

IsGiven-bind {ℓ κ} :
    {A : Type ℓ} {B : Type κ} (m : Result A) (f : A → Result B)
    → IsGiven m
    → ((a : A) → m ≡ ok a → IsGiven (f a))
    → IsGiven (m >>= f)
IsGiven-bind m f g h = let r = h g.value g.is in record { value = r.value; is = rw g.is r.is }

IsGiven-if {ℓ} :
    {A : Type ℓ} (b : Bool) {m n : Result A} → IsGiven m → IsGiven n → IsGiven (if b then m else n)
IsGiven-if true g h = g
IsGiven-if false g h = h

pub ray_div-IsGiven : (a b : ℤ) → eqb_ℤ b (pos 0) ≡ false → IsGiven (ray_div a b)
unfolding ray_div div
ray_div-IsGiven a b h = record { value = (b /ℤ pos 2 +ℤ a *ℤ ray) /ℤ b; is = rw h refl }

-- Strategies with room on both sides of their optimal usage, and above their optimal share of stable
-- debt.
pub record HasRoom (s : StrategyParams) : Type 0 where
  pub usage_nonzero : eqb_ℤ s.optimal_usage_ratio (pos 0) ≡ false
  pub usage_room : eqb_ℤ (ray -ℤ s.optimal_usage_ratio) (pos 0) ≡ false
  pub stable_room : eqb_ℤ (ray -ℤ s.optimal_stable_to_total_debt_ratio) (pos 0) ≡ false

sloped_rates-IsGiven :
    (s : StrategyParams) (market usage : ℤ) → HasRoom s → IsGiven (sloped_rates s market usage)
unfolding sloped_rates
sloped_rates-IsGiven s market usage room =
    IsGiven-if (ltb_ℤ s.optimal_usage_ratio usage)
      (IsGiven-bind (ray_div (usage -ℤ s.optimal_usage_ratio) (ray -ℤ s.optimal_usage_ratio)) _
        (ray_div-IsGiven _ _ room.usage_room) λ x _. IsGiven-ok _)
      (IsGiven-bind (ray_div (ray_mul s.stable_rate_slope1 usage) s.optimal_usage_ratio) _
        (ray_div-IsGiven _ _ room.usage_nonzero)
        λ x _.
          IsGiven-bind (ray_div (ray_mul s.variable_rate_slope1 usage) s.optimal_usage_ratio) _
            (ray_div-IsGiven _ _ room.usage_nonzero) λ y _. IsGiven-ok _)

stable_excess_rate-IsGiven :
    (s : StrategyParams) (share : ℤ) → HasRoom s → IsGiven (stable_excess_rate s share)
unfolding stable_excess_rate
stable_excess_rate-IsGiven s share room =
    IsGiven-if (ltb_ℤ s.optimal_stable_to_total_debt_ratio share)
      (IsGiven-bind
        (ray_div (share -ℤ s.optimal_stable_to_total_debt_ratio)
          (ray -ℤ s.optimal_stable_to_total_debt_ratio))
        _ (ray_div-IsGiven _ _ room.stable_room) λ x _. IsGiven-ok _)
      (IsGiven-ok _)

share-IsGiven :
    (stable variable : ℕ)
    → IsGiven (stable_to_total_ratio (pos stable) (pos stable +ℤ pos variable))
unfolding stable_to_total_ratio
share-IsGiven zero variable = IsGiven-ok _
share-IsGiven (suc stable) variable =
    IsGiven-if (ltb_ℤ (pos 0) (pos (suc stable))) (ray_div-IsGiven _ _ (rw pos-add (ground arith)))
      (IsGiven-ok _)

wad_to_ray_nonzero :
    (t : ℕ) → eqb_ℤ (pos t) (pos 0) ≡ false → eqb_ℤ (wad_to_ray (pos t)) (pos 0) ≡ false
wad_to_ray_nonzero t h = rw wad_to_ray_pos (ground arith)

overall-IsGiven :
    (stable variable : ℕ) (rate average : ℤ)
    → IsGiven (calc_expected_overall_borrow_rate (pos stable) (pos variable) rate average)
unfolding calc_expected_overall_borrow_rate
overall-IsGiven stable variable rate average =
    rw pos-add (elim (Bool-cases (eqb_ℤ (pos (stable + variable)) (pos 0))) [
      | inl z ↦ rw z (IsGiven-ok _)
      | inr nz ↦ rw nz (ray_div-IsGiven _ _ (wad_to_ray_nonzero (stable + variable) nz))
    ])

-- On debts and liquidity that are not negative, with a total liquidity of at least the available one,
-- for a reserve that the configuration names with a strategy that has room, the three rates are given:
-- nothing divides by 0 and no assertion fails.
pub interest_rates_total :
    (params : Configuration) (symbol : String) (c : ReserveParams) (market average : ℤ)
    (stable variable available more : ℕ)
    → reserve_configuration params symbol ≡ ok c
    → HasRoom c.strategy
    → (r : Rates) × (calc_expected_interest_rates params symbol market
          (pos stable)
          (pos variable)
          average
          (pos available)
          (pos (available + more))
        ≡ ok r)
unfolding calc_expected_interest_rates
interest_rates_total params symbol c market average stable variable available more named room =
    let (u, ratios, _, _, _) = usage_ratios_total stable variable available more in
    let g : IsGiven (
        calc_expected_interest_rates params symbol market (pos stable) (pos variable) average
          (pos available) (pos (available + more))) =
      rw (named, ratios)
        (IsGiven-bind (stable_to_total_ratio (pos stable) (pos stable +ℤ pos variable)) _
          (share-IsGiven stable variable)
          λ share _.
            IsGiven-bind (sloped_rates c.strategy market u.borrow) _
              (sloped_rates-IsGiven c.strategy market u.borrow room)
              λ sv _.
                IsGiven-bind (stable_excess_rate c.strategy share) _
                  (stable_excess_rate-IsGiven c.strategy share room)
                  λ excess _.
                    IsGiven-bind
                      (calc_expected_overall_borrow_rate (pos stable) (pos variable) sv.1 average) _
                      (overall-IsGiven stable variable sv.1 average) λ overall _. IsGiven-ok _) in
    (g.value, g.is)
