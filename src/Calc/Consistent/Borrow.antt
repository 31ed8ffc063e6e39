-- ===== src/Calc/Consistent/Borrow.antt =====
-- The borrow of test-suites/helpers/utils/calculations.ts, which ends by other steps than the other
-- actions.
use kza_lending.Base.{◌≡◌, refl, sym, ◌∙◌, some}
use kza_lending.Base.Int.{ℤ, pos, ◌+ℤ◌}
use kza_lending.Base.Result.{Ensures, after, either, need}
use kza_lending.WadRay.{ray_div, ray_mul}
use kza_lending.Calc.Data.{ReserveData, ExpectedReserve, RateMode, is_stable}
use kza_lending.Calc.Config.{Configuration}
use kza_lending.Calc.Interest.{
  calc_expected_average_stable_borrow_rate, calc_expected_total_stable_debt,
  calc_expected_stable_debt_token_balance,
}
use kza_lending.Calc.State.{
  update_state, update_liquidity_and_usage_ratios, assign_rates, assign_usage_ratios,
}
use kza_lending.Calc.State.Inversion.{
  HasRatios, HasLiquidity, HasRates, update_liquidity-HasLiquidity, assign_usage_ratios-HasRatios,
  assign_rates-HasRates,
}
use kza_lending.Calc.Supply.{begin}
use kza_lending.Calc.Borrow.{
  borrow_stable, borrow_variable, variable_debt_now, calc_expected_reserve_data_after_borrow,
}
use kza_lending.Calc.Consistent.{IsConsistent, some_inj}

-- The total liquidity is the available one with what is unbacked.
record HasBalance (e : ExpectedReserve) : Type 0 where
  available : ℤ
  unbacked : ℤ
  available_is : e.available_liquidity ≡ some available
  unbacked_is : e.unbacked ≡ some unbacked
  total_is : e.total_liquidity ≡ some (available +ℤ unbacked)

liquidity-HasBalance :
    (before : ReserveData) (e e' : ExpectedReserve) (added taken : ℤ)
    → HasLiquidity before e e' added taken
    → HasBalance e'
liquidity-HasBalance before e e' added taken h = rw h.ratios.result (record {
  available = _;
  unbacked = h.unbacked;
  available_is = refl;
  unbacked_is = h.unbacked_is;
  total_is = refl;
})

rates-HasBalance :
    (params : Configuration) (before : ReserveData) (stable variable : ℤ) (e e' : ExpectedReserve)
    → HasRates params before stable variable e e'
    → HasBalance e
    → HasBalance e'
rates-HasBalance params before stable variable e e' h b = rw h.result (record {
  available = b.available;
  unbacked = b.unbacked;
  available_is = b.available_is;
  unbacked_is = b.unbacked_is;
  total_is = b.total_is;
})

ratios-HasBalance : (e e' : ExpectedReserve) → HasRatios e e' → HasBalance e → HasBalance e'
ratios-HasBalance e e' h b = rw h.result (record {
  available = b.available;
  unbacked = b.unbacked;
  available_is = b.available_is;
  unbacked_is = b.unbacked_is;
  total_is = b.total_is;
})

ratios-IsConsistent : (e e' : ExpectedReserve) → HasBalance e → HasRatios e e' → IsConsistent e'
ratios-IsConsistent e e' b r =
    let ea : r.available ≡ b.available = some_inj (sym r.available_is ∙ b.available_is) in
    let et : r.total ≡ b.available +ℤ b.unbacked = some_inj (sym r.total_is ∙ b.total_is) in
    rw r.result (record {
      stable_debt = r.stable;
      variable_debt = r.variable;
      available = b.available;
      unbacked = b.unbacked;
      ratios = r.ratios;
      stable_is = r.stable_is;
      variable_is = r.variable_is;
      available_is = b.available_is;
      unbacked_is = b.unbacked_is;
      total_is = b.total_is;
      borrow_is = refl;
      supply_is = refl;
      computed = rw (ea, et) at r.computed;
    })

last : (e : ExpectedReserve) → HasBalance e → Ensures IsConsistent (assign_usage_ratios e)
last e b = record { exact = λ e' h. ratios-IsConsistent e e' b (assign_usage_ratios-HasRatios e h) }

-- Fields that the balance does not speak of.
with_debts :
    (e : ExpectedReserve) (s v : ℤ)
    → HasBalance e
    → HasBalance (record e { total_stable_debt = some s; total_variable_debt = some v })
with_debts e s v b = record {
  available = b.available;
  unbacked = b.unbacked;
  available_is = b.available_is;
  unbacked_is = b.unbacked_is;
  total_is = b.total_is;
}

with_principal :
    (e : ExpectedReserve) (a p : ℤ)
    → HasBalance e
    → HasBalance (record e { average_stable_borrow_rate = some a; principal_stable_debt = some p })
with_principal e a p b = record {
  available = b.available;
  unbacked = b.unbacked;
  available_is = b.available_is;
  unbacked_is = b.unbacked_is;
  total_is = b.total_is;
}

stable-IsConsistent :
    (params : Configuration) (amount : ℤ) (before : ReserveData) (t now : ℤ) (e : ExpectedReserve)
    → HasBalance e
    → Ensures IsConsistent (borrow_stable params amount before t now e)
unfolding borrow_stable
stable-IsConsistent params amount before t now e b =
    let debt =
      calc_expected_total_stable_debt before.principal_stable_debt before.average_stable_borrow_rate
        before.total_stable_debt_last_updated t in
    let principal = debt +ℤ amount in
    after _
      (calc_expected_average_stable_borrow_rate before.average_stable_borrow_rate debt amount
        before.stable_borrow_rate)
      _
      λ average _. after _ (need e.total_variable_debt) _ λ variable _.
        let e₀ : ExpectedReserve = record e {
          average_stable_borrow_rate = some average;
          principal_stable_debt = some principal;
        } in
        after _ (assign_rates params before principal variable e₀) _ λ e₁ h₁.
          after _ (variable_debt_now e₁ before.scaled_variable_debt t now) _ λ v _. last _ (
            with_debts e₁ _ v (
              rates-HasBalance params before principal variable e₀ e₁
                (assign_rates-HasRates params before principal variable e₀ h₁)
                (with_principal e average principal b)))

with_stable_debt :
    (e : ExpectedReserve) (p s a v : ℤ)
    → HasBalance e
    → HasBalance (record e {
      principal_stable_debt = some p;
      total_stable_debt = some s;
      average_stable_borrow_rate = some a;
      scaled_variable_debt = some v;
    })
with_stable_debt e p s a v b = record {
  available = b.available;
  unbacked = b.unbacked;
  available_is = b.available_is;
  unbacked_is = b.unbacked_is;
  total_is = b.total_is;
}

with_variable_debt :
    (e : ExpectedReserve) (v : ℤ)
    → HasBalance e
    → HasBalance (record e { total_variable_debt = some v })
with_variable_debt e v b = record {
  available = b.available;
  unbacked = b.unbacked;
  available_is = b.available_is;
  unbacked_is = b.unbacked_is;
  total_is = b.total_is;
}

variable-IsConsistent :
    (params : Configuration) (amount : ℤ) (before : ReserveData) (t now : ℤ) (e : ExpectedReserve)
    → HasBalance e
    → Ensures IsConsistent (borrow_variable params amount before t now e)
unfolding borrow_variable
variable-IsConsistent params amount before t now e b =
    let debt_then =
      calc_expected_stable_debt_token_balance before.principal_stable_debt
        before.average_stable_borrow_rate before.total_stable_debt_last_updated t in
    let debt_now =
      calc_expected_total_stable_debt before.principal_stable_debt before.average_stable_borrow_rate
        before.total_stable_debt_last_updated now in
    after _ (need e.variable_borrow_index) _ λ index _. after _ (ray_div amount index) _ λ shares _.
      let scaled = before.scaled_variable_debt +ℤ shares in
      let e₀ : ExpectedReserve = record e {
        principal_stable_debt = some before.principal_stable_debt;
        total_stable_debt = some debt_now;
        average_stable_borrow_rate = some before.average_stable_borrow_rate;
        scaled_variable_debt = some scaled;
      } in
      after _ (assign_usage_ratios e₀) _ λ e₁ h₁.
        let b₁ =
          ratios-HasBalance e₀ e₁ (assign_usage_ratios-HasRatios e₀ h₁)
            (with_stable_debt e _ _ _ _ b) in
        after _ (assign_rates params before debt_then (ray_mul scaled index) e₁) _ λ e₂ h₂.
          after _ (variable_debt_now e₂ scaled t now) _ λ v _. last _ (
            with_variable_debt e₂ v (
              rates-HasBalance params before debt_then (ray_mul scaled index) e₁ e₂
                (assign_rates-HasRates params before debt_then (ray_mul scaled index) e₁ h₂) b₁))

pub borrow-IsConsistent :
    (params : Configuration) (amount : ℤ) (mode : RateMode) (before : ReserveData) (t now : ℤ)
    → Ensures IsConsistent (calc_expected_reserve_data_after_borrow params amount mode before t now)
unfolding calc_expected_reserve_data_after_borrow
borrow-IsConsistent params amount mode before t now =
    let start : ExpectedReserve = record (begin before) { last_update_timestamp = some t } in
    after _ (update_state before start t) _ λ e₁ _.
      after _ (update_liquidity_and_usage_ratios before e₁ (pos 0) amount) _ λ e₂ h₂.
        let b =
          liquidity-HasBalance before e₁ e₂ (pos 0) amount
            (update_liquidity-HasLiquidity before e₁ (pos 0) amount h₂) in
        either _ (is_stable mode) (stable-IsConsistent params amount before t now e₂ b)
          (variable-IsConsistent params amount before t now e₂ b)
