-- ===== src/Calc/Examples/Returns.antt =====
-- The theorems that the calculations return, at concrete numbers.
use kza_lending.Base.{ℕ, ◌+◌, ◌≤◌, ◌≡◌, refl, some, arith}
use kza_lending.Base.Int.{ℤ, pos, ◌+ℤ◌, ◌-ℤ◌, ◌≤ℤ◌}
use kza_lending.Base.Result.{ok}
use kza_lending.Calc.Data.{ExpectedReserve, empty_reserve}
use kza_lending.Calc.Config.{reserve_configuration, find_index}
use kza_lending.Calc.Interest.{
  calc_expected_average_stable_borrow_rate, calc_expected_user_stable_rate,
}
use kza_lending.Calc.Averages.{averages_between}
use kza_lending.Calc.State.{update_state}
use kza_lending.Calc.Treasury.{accrual_grows}
use kza_lending.Calc.Rates.{Rates, calc_expected_interest_rates}
use kza_lending.Calc.Rates.Given.{HasRoom, interest_rates_total}
use kza_lending.Calc.Supply.{calc_expected_reserve_data_after_deposit}
use kza_lending.Calc.Returns.{deposit_returns}
use kza_lending.Calc.Examples.{strategy, market, dai, dai-IsSound}

averages_between_example :
    (q : ℕ) × (calc_expected_average_stable_borrow_rate (pos 4) (pos 100) (pos 50) (pos 9)
      ≡ ok (pos q))
    × (calc_expected_user_stable_rate (pos 100) (pos 4) (pos 50) (pos 9) ≡ ok (pos q))
    × (4 ≤ q)
    × (q ≤ 9)
averages_between_example =
    averages_between 4 9 4 9 100 50 (omega arith) (omega arith) (omega arith) (omega arith)
      (omega arith)

accrual_grows_example :
    (e' : ExpectedReserve) × (accrued : ℤ) × (update_state dai empty_reserve (pos 5000) ≡ ok e')
    × (e'.accrued_to_treasury_scaled ≡ some accrued)
    × (pos 5 ≤ℤ accrued)
accrual_grows_example = accrual_grows dai empty_reserve (pos 5000) dai-IsSound (omega arith)

named :
    reserve_configuration market "DAI"
    ≡ ok (record { reserve_factor = pos 1000; strategy = strategy })
unfolding reserve_configuration find_index
named = refl

strategy-HasRoom : HasRoom strategy
unfolding ◌-ℤ◌
strategy-HasRoom = record { usage_nonzero = refl; usage_room = refl; stable_room = refl }

interest_rates_total_example :
    (r : Rates) × (calc_expected_interest_rates market "DAI"
        (pos 50)
        (pos 100)
        (pos 200)
        (pos 60)
        (pos 1000)
        (pos (1000 + 7))
      ≡ ok r)
interest_rates_total_example =
    interest_rates_total market "DAI" _ (pos 50) (pos 60) 100 200 1000 7 named strategy-HasRoom

deposit_returns_example :
    (e : ExpectedReserve) × (calc_expected_reserve_data_after_deposit market
        (pos 10000000000000000000)
        dai
        (pos 5000)
      ≡ ok e)
    × (e.available_liquidity ≡ some (pos 1000000000000000000000 +ℤ pos 10000000000000000000))
deposit_returns_example =
    deposit_returns market _ dai 10000000000000000000 (pos 5000) dai-IsSound (omega arith) named
      strategy-HasRoom
