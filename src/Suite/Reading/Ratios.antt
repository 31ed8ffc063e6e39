-- ===== src/Suite/Reading/Ratios.antt =====
-- The usage ratios that `getReserveData` of test-suites/helpers/utils/helpers.ts computes.
use kza_lending.Base.{ℕ, ◌≡◌, refl, sym, ◌∙◌, Bool-cases, inl, inr, String}
use kza_lending.Base.Int.{ℤ, pos, ◌+ℤ◌, ◌≤ℤ◌, leb_ℤ, pos-add}
use kza_lending.Base.Result.{Result, ok, err, ◌>>=◌, ◌>>◌, >>=-eq-ok, assert}
use kza_lending.WadRay.{ray}
use kza_lending.Calc.Data.{ReserveData}
use kza_lending.Calc.Rates.{UsageRatios, usage_ratio, calc_expected_usage_ratios}
use kza_lending.Calc.Rates.Ratios.{usage_ratios_total}
use kza_lending.Suite.Chain.{Chain}
use kza_lending.Suite.Reading.{get_reserve_data, reserve_read, ratio_read}

ok_inj : {a b : ReserveData} → Result.ok a ≡ ok b → a ≡ b
ok_inj h = cc

abbrev in_order : ℤ → ℤ → UsageRatios
in_order b s = record { borrow = b; supply = s }

-- Two ratios that are asserted to be in order, then used.
ordered_ratios :
    (borrow supply : Result ℤ) (use_ratios : ℤ → ℤ → ReserveData)
    → (borrow >>= λ b. supply >>= λ s. assert (leb_ℤ s b) >> ok (use_ratios b s)) ≡ (
        (borrow >>= λ b. supply >>= λ s. assert (leb_ℤ s b) >> ok (in_order b s)) >>= λ u.
        ok (use_ratios u.borrow u.supply))
ordered_ratios (err e) supply f = refl
ordered_ratios (ok b) (err e) f = refl
ordered_ratios (ok b) (ok s) f = elim (Bool-cases (leb_ℤ s b)) [
  | inl ordered ↦ rw ordered refl
  | inr not_ordered ↦ rw not_ordered refl
]

module _ (C : Chain) (reserve : String) (s : C.State) where
  abbrev pub available : ℤ
  available = C.balance_of reserve (C.token_addresses reserve s).a_token_address s

  abbrev provided : Result UsageRatios
  provided =
      let p = C.provider_reserve reserve s in
      calc_expected_usage_ratios p.total_stable_debt p.total_variable_debt available
        (available +ℤ p.unbacked)

  -- The reading computes the ratios by the calculation, at what the provider and the token hold.
  reading_calculates :
      get_reserve_data C reserve s
      ≡ (provided >>= λ u. ok (reserve_read C reserve s u.borrow u.supply))
  unfolding get_reserve_data calc_expected_usage_ratios ratio_read usage_ratio
  reading_calculates =
      let p = C.provider_reserve reserve s in
      let debt = p.total_stable_debt +ℤ p.total_variable_debt in
      ordered_ratios (usage_ratio debt available) (usage_ratio debt (available +ℤ p.unbacked))
        (reserve_read C reserve s)

  -- What is read of a reserve holds, as its usage ratios, the ones that the calculations expect for its
  -- own debts and liquidity, and its total liquidity is the available one with what is unbacked.
  pub reading_consistent :
      (r : ReserveData)
      → get_reserve_data C reserve s ≡ ok r
      → (calc_expected_usage_ratios r.total_stable_debt r.total_variable_debt r.available_liquidity
            r.total_liquidity
          ≡ ok (record { borrow = r.borrow_usage_ratio; supply = r.supply_usage_ratio }))
        × (r.total_liquidity ≡ r.available_liquidity +ℤ r.unbacked)
  reading_consistent r h =
      let (u, given, is_read) = >>=-eq-ok provided _ (sym reading_calculates ∙ h) in
      rw (sym (ok_inj is_read)) (given, refl)

  -- Where the debts, the available liquidity and what is unbacked are not negative, the reading returns,
  -- and the usage ratios that it gives lie in order between 0 and one ray.
  pub reading_returns :
      (stable variable held unbacked : ℕ)
      → (C.provider_reserve reserve s).total_stable_debt ≡ pos stable
      → (C.provider_reserve reserve s).total_variable_debt ≡ pos variable
      → available ≡ pos held
      → (C.provider_reserve reserve s).unbacked ≡ pos unbacked
      → (r : ReserveData) × (get_reserve_data C reserve s ≡ ok r)
        × (pos 0 ≤ℤ r.supply_usage_ratio)
        × (r.supply_usage_ratio ≤ℤ r.borrow_usage_ratio)
        × (r.borrow_usage_ratio ≤ℤ ray)
  reading_returns stable variable held unbacked stable_is variable_is held_is unbacked_is =
      let (u, given, low, order, top) = usage_ratios_total stable variable held unbacked in
      (
        reserve_read C reserve s u.borrow u.supply,
        rw (reading_calculates, stable_is, variable_is, held_is, unbacked_is, pos-add, given) refl,
        low,
        order,
        top,
      )
