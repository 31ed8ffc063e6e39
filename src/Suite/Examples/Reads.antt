-- ===== src/Suite/Examples/Reads.antt =====
-- Comparisons, readings and typed data of the harness at concrete values.
use kza_lending.Base.{◌≡◌, refl, ◌↔◌, none, some, String, List, [], ◌∷◌}
use kza_lending.Base.Int.{pos, ◌+ℤ◌, ◌*ℤ◌, ◌/ℤ◌, ◌≤ℤ◌}
use kza_lending.Base.Result.{ok}
use kza_lending.WadRay.{ray, ray_div}
use kza_lending.Calc.Data.{ReserveData}
use kza_lending.Calc.Rates.{usage_ratio, calc_expected_usage_ratios}
use kza_lending.Calc.Examples.{dai}
use kza_lending.Suite.Compare.{Property, number, written, almost_equal_or_equal}
use kza_lending.Suite.Compare.Passing.{AllClose, comparison_passes}
use kza_lending.Suite.Reading.{get_reserve_data}
use kza_lending.Suite.Reading.Ratios.{reading_consistent, reading_returns}
use kza_lending.Suite.Examples.{chain_to, start}

-- A deposit of DAI whose index has grown.
abbrev properties : List (String × Property)
properties =
    ("availableLiquidity", number (pos 1000) (some (pos 1002)))
    ∷ ("symbol", written "DAI" none)
    ∷ []

comparison_passes_example : (almost_equal_or_equal properties ≡ ok tt) ↔ AllClose properties
comparison_passes_example = comparison_passes properties

reading_returns_example :
    (r : ReserveData) × (get_reserve_data (chain_to start) "dai" start ≡ ok r)
    × (pos 0 ≤ℤ r.supply_usage_ratio)
    × (r.supply_usage_ratio ≤ℤ r.borrow_usage_ratio)
    × (r.borrow_usage_ratio ≤ℤ ray)
reading_returns_example =
    reading_returns (chain_to start) "dai" start 100000000000000000000 200000000000000000000
      1000000000000000000000 0 refl refl refl refl

abbrev dai_read : ReserveData
dai_read = record dai {
  supply_usage_ratio = pos 230769230769230769230769231;
  borrow_usage_ratio = pos 230769230769230769230769231;
  address = "dai";
}

read : get_reserve_data (chain_to start) "dai" start ≡ ok dai_read
unfolding get_reserve_data usage_ratio ray_div ◌+ℤ◌ ◌*ℤ◌ ◌/ℤ◌
read = refl

reading_consistent_example :
    (calc_expected_usage_ratios
        (pos 100000000000000000000)
        (pos 200000000000000000000)
        (pos 1000000000000000000000)
        (pos 1000000000000000000000)
      ≡ ok (record {
        borrow = pos 230769230769230769230769231;
        supply = pos 230769230769230769230769231;
      }))
    × (pos 1000000000000000000000 ≡ pos 1000000000000000000000 +ℤ pos 0)
reading_consistent_example = reading_consistent (chain_to start) "dai" start dai_read read
