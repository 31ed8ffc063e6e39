-- ===== src/Suite/Examples/Switches.antt =====
-- The switch of the collateral of the harness at a concrete chain.
use kza_lending.Base.{◌≡◌, refl, false, String}
use kza_lending.Base.Step.{gets}
use kza_lending.Base.Int.{◌+ℤ◌, ◌-ℤ◌, ◌*ℤ◌, ◌/ℤ◌, abs}
use kza_lending.Base.Result.{div, ok, Result}
use kza_lending.WadRay.{ray_div, ray_mul, wad_to_ray}
use kza_lending.Calc.Rates.{calc_expected_usage_ratios, usage_ratio}
use kza_lending.Calc.Swap.{calc_expected_user_data_after_set_use_as_collateral}
use kza_lending.Suite.Actions.{expect_user}
use kza_lending.Suite.Chain.{
  get_tx_cost_and_timestamp, wait_for_tx, send_now, await_success, to_number,
}
use kza_lending.Suite.Compare.{
  almost_equal, almost_equal_or_equal, compare_values, expect_equal, is_skipped,
}
use kza_lending.Suite.Reading.{
  get_a_token_user_data, get_contracts_data, get_reserve_data, ratio_read, get_user_data,
}
use kza_lending.Calc.Examples.{user}
use kza_lending.Suite.Examples.{World, chain_to, start, user_after, alice, environment}
use kza_lending.Suite.Actions.Modes.{set_use_as_collateral, is_true}
use kza_lending.Suite.Actions.Checked.Modes.{Switched, collateral-Switched}

abbrev switched : World
switched = record start {
  user = user_after user (calc_expected_user_data_after_set_use_as_collateral false user);
}

switch_run :
    set_use_as_collateral
      (chain_to switched)
      (environment switched)
      "DAI"
      (alice switched)
      "False"
      "success"
      start
    ≡ (ok tt, switched)
unfolding set_use_as_collateral is_true gets ◌+ℤ◌ ◌-ℤ◌ ◌*ℤ◌ ◌/ℤ◌ abs div ray_div ray_mul wad_to_ray
    calc_expected_usage_ratios usage_ratio calc_expected_user_data_after_set_use_as_collateral
    expect_user get_tx_cost_and_timestamp wait_for_tx send_now await_success to_number almost_equal
    almost_equal_or_equal compare_values expect_equal is_skipped get_a_token_user_data
    get_contracts_data get_reserve_data ratio_read get_user_data
switch_run = refl

collateral-Switched_example :
    (reserve : String) × (Result.ok "dai" ≡ ok reserve)
    × Switched
        (chain_to switched)
        (environment switched)
        reserve
        (alice switched)
        "False"
        start
        switched
collateral-Switched_example =
    collateral-Switched (chain_to switched) (environment switched) "DAI" (alice switched) "False"
      refl switch_run
