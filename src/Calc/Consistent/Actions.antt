-- ===== src/Calc/Consistent/Actions.antt =====
-- The actions of test-suites/helpers/utils/calculations.ts together.
use kza_lending.Base.{◌≡◌}
use kza_lending.Base.Int.{ℤ}
use kza_lending.Base.Result.{Result, ok}
use kza_lending.Calc.Data.{ReserveData, ExpectedReserve, RateMode}
use kza_lending.Calc.UserData.{UserReserveData}
use kza_lending.Calc.Config.{Configuration}
use kza_lending.Calc.Supply.{
  calc_expected_reserve_data_after_deposit, calc_expected_reserve_data_after_withdraw,
}
use kza_lending.Calc.Bridge.{
  calc_expected_reserve_data_after_mint_unbacked, calc_expected_reserve_data_after_back_unbacked,
}
use kza_lending.Calc.Borrow.{calc_expected_reserve_data_after_borrow}
use kza_lending.Calc.Repay.{calc_expected_reserve_data_after_repay}
use kza_lending.Calc.Swap.{
  calc_expected_reserve_data_after_swap_rate_mode,
  calc_expected_reserve_data_after_stable_rate_rebalance,
}
use kza_lending.Calc.Consistent.{
  IsConsistent, deposit-IsConsistent, withdraw-IsConsistent, mint-IsConsistent, back-IsConsistent,
  repay-IsConsistent, swap-IsConsistent, rebalance-IsConsistent,
}
use kza_lending.Calc.Consistent.Borrow.{borrow-IsConsistent}

-- The actions with a calculation of the reserve, and their arguments.
pub data Action : Type 0 where
  deposit withdraw mint_unbacked : ℤ → Action
  back_unbacked : (scaled_supply amount fee protocol_fee : ℤ) → Action
  borrow repay : ℤ → RateMode → Action
  swap_rate_mode : RateMode → Action
  rebalance : Action

unfoldable pub expected_reserve :
    Configuration → Action → ReserveData → UserReserveData → ℤ → ℤ → Result ExpectedReserve
expected_reserve params (deposit amount) before user t now =
    calc_expected_reserve_data_after_deposit params amount before t
expected_reserve params (withdraw amount) before user t now =
    calc_expected_reserve_data_after_withdraw params amount before user t
expected_reserve params (mint_unbacked amount) before user t now =
    calc_expected_reserve_data_after_mint_unbacked params amount before t
expected_reserve params (back_unbacked supply amount fee percent) before user t now =
    calc_expected_reserve_data_after_back_unbacked params supply amount fee percent before t
expected_reserve params (borrow amount mode) before user t now =
    calc_expected_reserve_data_after_borrow params amount mode before t now
expected_reserve params (repay amount mode) before user t now =
    calc_expected_reserve_data_after_repay params amount mode before user t
expected_reserve params (swap_rate_mode mode) before user t now =
    calc_expected_reserve_data_after_swap_rate_mode params before user mode t
expected_reserve params rebalance before user t now =
    calc_expected_reserve_data_after_stable_rate_rebalance params before user t

-- Whatever the action, the reserve that is expected after it is consistent: its total liquidity is the
-- available liquidity with what is unbacked, and its two usage ratios are the ones that
-- `calcExpectedUsageRatios` gives at its own debts and liquidity.
pub expected_reserve-IsConsistent :
    (params : Configuration) (action : Action) (before : ReserveData) (user : UserReserveData)
    (t now : ℤ) (e : ExpectedReserve)
    → expected_reserve params action before user t now ≡ ok e
    → IsConsistent e
unfolding expected_reserve
expected_reserve-IsConsistent params (deposit amount) before user t now =
    (deposit-IsConsistent params amount before t).exact
expected_reserve-IsConsistent params (withdraw amount) before user t now =
    (withdraw-IsConsistent params amount before user t).exact
expected_reserve-IsConsistent params (mint_unbacked amount) before user t now =
    (mint-IsConsistent params amount before t).exact
expected_reserve-IsConsistent params (back_unbacked supply amount fee percent) before user t now =
    (back-IsConsistent params supply amount fee percent before t).exact
expected_reserve-IsConsistent params (borrow amount mode) before user t now =
    (borrow-IsConsistent params amount mode before t now).exact
expected_reserve-IsConsistent params (repay amount mode) before user t now =
    (repay-IsConsistent params amount mode before user t).exact
expected_reserve-IsConsistent params (swap_rate_mode mode) before user t now =
    (swap-IsConsistent params before user mode t).exact
expected_reserve-IsConsistent params rebalance before user t now =
    (rebalance-IsConsistent params before user t).exact
