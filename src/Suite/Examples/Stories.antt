-- ===== src/Suite/Examples/Stories.antt =====
-- Stories of the scenario engine at a concrete chain.
use kza_lending.Base.{◌≡◌, refl, none, some, String, List, [], ◌∷◌}
use kza_lending.Base.Step.{step_ok}
use kza_lending.Base.Int.{◌+ℤ◌, ◌-ℤ◌}
use kza_lending.Base.Result.{ok, err, Error}
use kza_lending.Suite.Engine.{
  Args, Action, request, perform, execute_action, execute_actions, rate_mode, element,
}
use kza_lending.Suite.Engine.Numbers.{parse_int}
use kza_lending.Suite.Engine.Stories.{Asks, Deposited, story_deposit-Checked}
use kza_lending.Suite.Engine.Refused.{no_user, incomplete_refused}
use kza_lending.Suite.Actions.{approve}
use kza_lending.Suite.Chain.{wait_for_tx, send_now, await_success}
use kza_lending.Suite.Examples.{World, chain_to, start, environment}
use kza_lending.Suite.Examples.Deposits.{deposited, run}

-- An approval, and an action without a user.
abbrev args : Args
args = record {
  reserve = some "DAI";
  user = some "0";
  borrow_rate_mode = none;
  amount = none;
  send_value = none;
  on_behalf_of = none;
  to_user = none;
  time_travel = none;
  use_as_collateral = none;
  target = none;
}

abbrev approval : Action
approval = record {
  name = some "approve";
  args = some args;
  expected = some "success";
  revert_message = none;
}

abbrev nobody : Action
nobody = record approval { args = some (record args { user = some "" }) }

abbrev keys : List String
keys = "key 0" ∷ "key 1" ∷ []

abbrev ten_dai : Action
ten_dai = record approval {
  name = some "deposit";
  args = some (record args { amount = some "10" });
}

-- The deposit and the approval after it pass.
deposit_passes_here :
    execute_action (chain_to deposited) (environment deposited) keys ten_dai start
    ≡ (ok tt, deposited)
unfolding execute_action request perform rate_mode element parse_int ◌+ℤ◌ ◌-ℤ◌
deposit_passes_here = run

approval_passes :
    execute_actions (chain_to deposited) (environment deposited) keys (approval ∷ []) deposited
    ≡ (ok tt, deposited)
unfolding execute_actions execute_action request perform approve rate_mode element parse_int
    wait_for_tx send_now await_success ◌+ℤ◌ ◌-ℤ◌
approval_passes = refl

story_passes :
    execute_actions
      (chain_to deposited)
      (environment deposited)
      keys
      (ten_dai ∷ approval ∷ [])
      start
    ≡ (ok tt, deposited)
unfolding execute_actions
story_passes =
    step_ok (execute_action (chain_to deposited) (environment deposited) keys ten_dai) _
      deposit_passes_here approval_passes

story_deposit-Checked_example :
    (before : World) × (after : World) × (execute_actions
        (chain_to deposited)
        (environment deposited)
        keys
        []
        start
      ≡ (ok tt, before))
    × (execute_actions (chain_to deposited) (environment deposited) keys (approval ∷ []) after
        ≡ (ok tt, deposited))
    × (a : Asks (chain_to deposited) (environment deposited) keys ten_dai) × Deposited
        (chain_to deposited)
        (environment deposited)
        keys
        a
        before
        after
story_deposit-Checked_example =
    story_deposit-Checked (chain_to deposited) (environment deposited) keys [] (approval ∷ [])
      ten_dai start refl refl refl story_passes

incomplete_refused_example :
    (thrown : Error) × (execute_action (chain_to start) (environment start) keys nobody start
      ≡ (err thrown, start))
incomplete_refused_example =
    incomplete_refused (chain_to start) (environment start) keys nobody start
      (no_user (record args { user = some "" }) refl refl)
