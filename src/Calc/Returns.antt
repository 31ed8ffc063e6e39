-- ===== src/Calc/Returns.antt =====
-- When the steps of a deposit of test-suites/helpers/utils/calculations.ts return.
use kza_lending.Base.{ℕ, ◌+◌, ◌≡◌, refl, sym, ap, ◌∙◌, arith, some}
use kza_lending.Base.Int.{ℤ, pos, negsuc, ◌+ℤ◌, ◌-ℤ◌, ◌≤ℤ◌, int_laws, pos-add}
use kza_lending.Base.Result.{Result, ok, ◌>>=◌, need}
use kza_lending.WadRay.{ray_mul, ray_mul_pos}
use kza_lending.Calc.Data.{ReserveData, ExpectedReserve}
use kza_lending.Calc.Config.{Configuration, ReserveParams, reserve_configuration}
use kza_lending.Calc.Sound.{IsSound}
use kza_lending.Calc.Rates.Ratios.{usage_ratios_total}
use kza_lending.Calc.Rates.Given.{HasRoom, interest_rates_total}
use kza_lending.Calc.State.{
  update_state, update_liquidity_and_usage_ratios, update_rates, assign_usage_ratios, assign_rates,
  update_total_liquidity_and_usage_ratio, accrue_debt,
}
use kza_lending.Calc.Interest.{
  calc_expected_variable_borrow_index, calc_expected_total_stable_debt,
  calc_expected_total_variable_debt,
}
use kza_lending.Calc.State.Inversion.{update_state_inv}
use kza_lending.Calc.Indexes.{indexes_grow}
use kza_lending.Calc.Treasury.{accrual_grows}
use kza_lending.Calc.Supply.{begin, calc_expected_reserve_data_after_deposit}

-- The debts, the liquidity and what is unbacked, as numbers that are not negative.
record Ready (stable variable available unbacked : ℕ) (e : ExpectedReserve) : Type 0 where
  stable_is : e.total_stable_debt ≡ some (pos stable)
  variable_is : e.total_variable_debt ≡ some (pos variable)
  available_is : e.available_liquidity ≡ some (pos available)
  unbacked_is : e.unbacked ≡ some (pos unbacked)
  total_is : e.total_liquidity ≡ some (pos (available + unbacked))

bind_ok :
    {A B : Type 0} (m : Result A) (f : A → Result B) {a : A} {b : B}
    → m ≡ ok a
    → f a ≡ ok b
    → (m >>= f) ≡ ok b
bind_ok m f h k = rw h k

assign_usage-Ready :
    (s v a u : ℕ) (e : ExpectedReserve)
    → Ready s v a u e
    → (e' : ExpectedReserve) × (assign_usage_ratios e ≡ ok e')
      × Ready s v a u e'
      × (e'.average_stable_borrow_rate ≡ e.average_stable_borrow_rate)
unfolding assign_usage_ratios
assign_usage-Ready s v a u e r =
    let (ratios, given, _, _, _) = usage_ratios_total s v a u in
    (
      record e { borrow_usage_ratio = some ratios.borrow; supply_usage_ratio = some ratios.supply },
      rw (r.stable_is, r.variable_is, r.available_is, r.total_is, given) refl,
      record {
        stable_is = r.stable_is;
        variable_is = r.variable_is;
        available_is = r.available_is;
        unbacked_is = r.unbacked_is;
        total_is = r.total_is;
      },
      refl,
    )

update_total-Ready :
    (s v a u : ℕ) (e : ExpectedReserve)
    → Ready s v a u e
    → (e' : ExpectedReserve) × (update_total_liquidity_and_usage_ratio e ≡ ok e') × Ready s v a u e'
unfolding update_total_liquidity_and_usage_ratio
update_total-Ready s v a u e r =
    let (e', h, k, _) =
      assign_usage-Ready s v a u (record e { total_liquidity = some (pos a +ℤ pos u) })
        (record {
          stable_is = r.stable_is;
          variable_is = r.variable_is;
          available_is = r.available_is;
          unbacked_is = r.unbacked_is;
          total_is = ap some (pos-add a u);
        }) in
    (
      e',
      bind_ok (need e.available_liquidity) _ (ap need r.available_is)
          (bind_ok (need e.unbacked) _ (ap need r.unbacked_is) h),
      k,
    )

update_rates-Ready :
    (params : Configuration) (c : ReserveParams) (before : ReserveData) (s v a u : ℕ) (average : ℤ)
    (e : ExpectedReserve)
    → reserve_configuration params before.symbol ≡ ok c
    → HasRoom c.strategy
    → e.average_stable_borrow_rate ≡ some average
    → Ready s v a u e
    → (e' : ExpectedReserve) × (update_rates params before e ≡ ok e') × Ready s v a u e'
unfolding update_rates assign_rates
update_rates-Ready params c before s v a u average e named room known r =
    let (rates, given) =
      interest_rates_total params before.symbol c before.market_stable_rate average s v a u named
        room in
    (
      record e {
        liquidity_rate = some rates.liquidity;
        stable_borrow_rate = some rates.stable;
        variable_borrow_rate = some rates.variable;
      },
      rw (r.stable_is, r.variable_is, known, r.available_is, r.total_is, given) refl,
      record {
        stable_is = r.stable_is;
        variable_is = r.variable_is;
        available_is = r.available_is;
        unbacked_is = r.unbacked_is;
        total_is = r.total_is;
      },
    )

nonneg_pos : (x : ℤ) → pos 0 ≤ℤ x → (n : ℕ) × (x ≡ pos n)
nonneg_pos (pos n) h = (n, refl)
nonneg_pos (negsuc n) h = absurd (omega arith)

update_liquidity-Ready :
    (before : ReserveData) (added s v a u : ℕ) (e : ExpectedReserve)
    → before.available_liquidity ≡ pos a
    → e.total_stable_debt ≡ some (pos s)
    → e.total_variable_debt ≡ some (pos v)
    → e.unbacked ≡ some (pos u)
    → (e' : ExpectedReserve) × (update_liquidity_and_usage_ratios before e (pos added) (pos 0)
        ≡ ok e')
      × Ready s v (a + added) u e'
unfolding update_liquidity_and_usage_ratios
update_liquidity-Ready before added s v a u e held stable variable unbacked =
    let available = before.available_liquidity +ℤ pos added -ℤ pos 0 in
    let sum : available ≡ pos (a + added) = rw held (omega int_laws) in
    let (e', h, k, _) =
      assign_usage-Ready s v (a + added) u
        (record e {
          available_liquidity = some available;
          total_liquidity = some (available +ℤ pos u);
        })
        (record {
          stable_is = stable;
          variable_is = variable;
          available_is = ap some sum;
          unbacked_is = unbacked;
          total_is = ap some (rw sum (pos-add (a + added) u));
        }) in
    (e', bind_ok (need e.unbacked) _ (ap need unbacked) h, k)

ray_mul_nonneg : (a b : ℤ) → pos 0 ≤ℤ a → pos 0 ≤ℤ b → pos 0 ≤ℤ ray_mul a b
ray_mul_nonneg (pos a) (pos b) h k = rw ray_mul_pos (omega arith)
ray_mul_nonneg (negsuc a) b h k = absurd (omega arith)
ray_mul_nonneg (pos a) (negsuc b) h k = absurd (omega arith)

-- The debts that `updateState` assigns.
accrued-Ready :
    (before : ReserveData) (t : ℤ)
    → IsSound before
    → before.last_update_timestamp ≤ℤ t
    → (stable : ℕ) × (variable : ℕ) × (e : ExpectedReserve) × (update_state before (begin before) t
        ≡ ok e)
      × (e.total_stable_debt ≡ some (pos stable))
      × (e.total_variable_debt ≡ some (pos variable))
      × (e.unbacked ≡ some before.unbacked)
unfolding accrue_debt calc_expected_total_variable_debt
accrued-Ready before t s later =
    let grown = indexes_grow before t s later in
    let (stable, is_stable) =
      nonneg_pos
        (calc_expected_total_stable_debt before.principal_stable_debt
          before.average_stable_borrow_rate before.total_stable_debt_last_updated t)
        (omega (arith, grown, s.principal_nonneg)) in
    let (variable, is_variable) =
      nonneg_pos
        (ray_mul before.scaled_variable_debt (calc_expected_variable_borrow_index before t))
        (ray_mul_nonneg before.scaled_variable_debt _ s.scaled_debt_nonneg
          (omega (arith, grown))) in
    let (e, _, given, _, _) = accrual_grows before (begin before) t s later in
    let (_, _, shape) = update_state_inv before (begin before) t given in
    (
      stable,
      variable,
      e,
      given,
      rw shape (ap some is_stable),
      rw shape (ap some is_variable),
      rw shape refl,
    )

-- On a reserve that is sound, that the configuration names with a strategy that has room, and at a time
-- that is not before its last update, the calculation for a deposit of any amount that is not negative
-- returns, and the available liquidity that it expects is the one before with the amount.
pub deposit_returns :
    (params : Configuration) (c : ReserveParams) (before : ReserveData) (amount : ℕ) (t : ℤ)
    → IsSound before
    → before.last_update_timestamp ≤ℤ t
    → reserve_configuration params before.symbol ≡ ok c
    → HasRoom c.strategy
    → (e : ExpectedReserve) × (calc_expected_reserve_data_after_deposit params (pos amount) before t
        ≡ ok e)
      × (e.available_liquidity ≡ some (before.available_liquidity +ℤ pos amount))
unfolding calc_expected_reserve_data_after_deposit
deposit_returns params c before amount t s later named room =
    let (a, available) = nonneg_pos before.available_liquidity s.available_nonneg in
    let (u, unbacked) = nonneg_pos before.unbacked s.unbacked_nonneg in
    let (st, v, e₁, h₁, stable, variable, same) = accrued-Ready before t s later in
    let (e₂, h₂, r₂) =
      update_liquidity-Ready before amount st v a u e₁ available stable variable
        (same ∙ ap some unbacked) in
    let average = before.average_stable_borrow_rate in
    let start : ExpectedReserve = record e₂ { average_stable_borrow_rate = some average } in
    let (e₃, h₃, r₃) =
      update_rates-Ready params c before st v (a + amount) u average start named room refl (record {
        stable_is = r₂.stable_is;
        variable_is = r₂.variable_is;
        available_is = r₂.available_is;
        unbacked_is = r₂.unbacked_is;
        total_is = r₂.total_is;
      }) in
    let (e₄, h₄, r₄) = update_total-Ready st v (a + amount) u e₃ r₃ in
    (
      e₄,
      bind_ok (update_state before (begin before) t) _ h₁ (
          bind_ok (update_liquidity_and_usage_ratios before e₁ (pos amount) (pos 0)) _ h₂
            (bind_ok (update_rates params before start) _ h₃ h₄)),
      r₄.available_is ∙ ap some (rw available (sym (pos-add a amount))),
    )
