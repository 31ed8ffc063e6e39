-- ===== src/Calc/Config.antt =====
-- The configuration of the market, `configuration.reservesParams` of
-- test-suites/helpers/utils/calculations.ts, an object from symbols to the parameters of
-- helpers/types.ts. The decimal strings of the parameters are the integers that they denote, and a
-- parameter that the calculations do not read is left out. `Object.keys` and `Object.entries` list
-- the object in one order.
use text.Mathlib.Text.{◌==◌ as str_eq}
use kza_lending.Base.{ℕ, zero, suc, Option, none, some, List, [], ◌∷◌, map, String, if◌then◌else◌}
use kza_lending.Base.Int.{ℤ}
use kza_lending.Base.Result.{Result, ok, err, unknown_reserve}

-- `IInterestRateStrategyParams`
pub record StrategyParams : Type 0 where
  pub optimal_usage_ratio : ℤ
  pub base_variable_borrow_rate : ℤ
  pub variable_rate_slope1 : ℤ
  pub variable_rate_slope2 : ℤ
  pub stable_rate_slope1 : ℤ
  pub stable_rate_slope2 : ℤ
  pub base_stable_rate_offset : ℤ
  pub stable_rate_excess_offset : ℤ
  pub optimal_stable_to_total_debt_ratio : ℤ

-- `IReserveParams`
pub record ReserveParams : Type 0 where
  pub reserve_factor : ℤ
  pub strategy : StrategyParams

abbrev pub Configuration : Type 0
Configuration = List (String × ReserveParams)

-- `keys.findIndex((value) => value === symbol)`, with `none` for -1.
unfoldable pub find_index : String → List String → Option ℕ
find_index symbol [] = none
find_index symbol (key ∷ keys) =
    if str_eq key symbol
    then some 0
    else elim (find_index symbol keys) [ none ↦ none | some i ↦ some (suc i) ]

abbrev pub get_elem? {ℓ} : {A : Type ℓ} → List A → ℕ → Option A
get_elem? [] i = none
get_elem? (x ∷ xs) zero = some x
get_elem? (x ∷ xs) (suc i) = get_elem? xs i

-- Destructuring the entry at -1 throws.
unfoldable pub reserve_configuration : Configuration → String → Result ReserveParams
unfolding find_index
reserve_configuration params symbol = elim (find_index symbol (map (λ e. e.0) params)) [
  | none ↦ err unknown_reserve
  | some i ↦ elim (get_elem? params i) [ none ↦ err unknown_reserve | some e ↦ ok e.1 ]
]
