-- ===== src/Suite/Examples/Permits.antt =====
-- The deposit with a permit of the harness at a concrete chain.
use kza_lending.Base.Int.{ℤ, pos}
use kza_lending.Base.Result.{Result}
use kza_lending.Suite.Actions.Checked.{Checked}
use kza_lending.Suite.Examples.{World, chain_to, start, predicted, environment}
use kza_lending.Suite.Actions.Checked.Supply.{deposit_reserve_calc, deposit_user_calc}

abbrev ten : ℤ
ten = pos 10000000000000000000

abbrev permitted : World
permitted =
    predicted (deposit_reserve_calc (chain_to start) (environment start) ten)
      (deposit_user_calc (chain_to start) (environment start) ten) (pos 0)
