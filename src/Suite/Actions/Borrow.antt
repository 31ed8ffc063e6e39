-- ===== src/Suite/Actions/Borrow.antt =====
-- The action `borrow` of test-suites/helpers/actions.ts. The transaction is sent before the expected
-- result is looked at; each branch then awaits it.
use text.Mathlib.Text.{◌==◌ as str_eq}
use kza_lending.Base.{Option, some, String, not, if◌then◌else◌}
use kza_lending.Base.Int.{pos, ◌-ℤ◌, eqb_ℤ}
use kza_lending.Base.Result.{assert}
use kza_lending.Base.Step.{Step, pure, lift, gets, when, ◌>>=◌, ◌>>◌}
use kza_lending.Calc.Borrow.{
  calc_expected_reserve_data_after_borrow, calc_expected_user_data_after_borrow,
}
use kza_lending.Suite.Chain.{
  Chain, SignerWithAddress, Transaction, send_now, await_success, await_revert,
  convert_to_currency_decimals, travel, get_tx_cost_and_timestamp,
}
use kza_lending.Suite.Reading.{get_contracts_data}
use kza_lending.Suite.Actions.{Environment, expect_reserve, expect_user, as_rate_mode}

module _ (C : Chain) (env : Environment C) where
  unfoldable pub borrow :
      (reserve_symbol amount interest_rate_mode : String) (user : SignerWithAddress C)
      (on_behalf_of : String) (time_travel : Option String) (expected_result : String)
      → Step C.State (Unit {0})
  unfolding get_contracts_data travel get_tx_cost_and_timestamp expect_reserve expect_user
  borrow reserve_symbol amount interest_rate_mode user on_behalf_of time_travel expected_result = do
    reserve ← lift (C.reserve_address reserve_symbol)
    before ← get_contracts_data C reserve on_behalf_of (some user.address)
    tokens ← gets (C.token_addresses reserve)
    let debt_token =
        if str_eq interest_rate_mode "1"
        then tokens.stable_debt_token_address
        else tokens.variable_debt_token_address
    allowance_before ← gets (C.borrow_allowance debt_token on_behalf_of user.address)
    amount_to_borrow ← convert_to_currency_decimals C reserve amount
    tx ←
        send_now C user.signer
          (Transaction.borrow reserve amount_to_borrow interest_rate_mode (pos 0) on_behalf_of)
    if str_eq expected_result "success"
        then (do
          tx_result ← lift (await_success tx)
          cost ← get_tx_cost_and_timestamp C tx_result
          travel C time_travel
          after ← get_contracts_data C reserve on_behalf_of (some user.address)
          expected_reserve_data ← lift (
              calc_expected_reserve_data_after_borrow env.reserves_params amount_to_borrow
                (as_rate_mode interest_rate_mode) before.reserve_data cost.tx_timestamp
                after.timestamp)
          expected_user_data ← lift (
              calc_expected_user_data_after_borrow amount_to_borrow
                (as_rate_mode interest_rate_mode) before.reserve_data expected_reserve_data
                before.user_data cost.tx_timestamp after.timestamp)
          expect_reserve C env after.reserve_data expected_reserve_data
          expect_user C env after.user_data expected_user_data
          when (not (str_eq user.address on_behalf_of)) (do
            allowance_after ← gets (C.borrow_allowance debt_token on_behalf_of user.address)
            lift (assert (eqb_ℤ allowance_after (allowance_before -ℤ amount_to_borrow)))))
        else (if str_eq expected_result "revert" then lift (await_revert tx) else pure tt)
