-- ===== src/Suite/Actions/Supply.antt =====
-- The actions `deposit`, `supplyWithPermit` and `withdraw` of test-suites/helpers/actions.ts. The
-- argument `useAsCollateral` of `supplyWithPermit` is not read.
use text.Mathlib.Text.{◌==◌ as str_eq}
use kza_lending.Base.{Option, none, some, String, if◌then◌else◌}
use kza_lending.Base.Int.{pos}
use kza_lending.Base.Step.{Step, pure, lift, gets, ◌>>=◌, ◌>>◌}
use kza_lending.Calc.Supply.{
  calc_expected_reserve_data_after_deposit, calc_expected_user_data_after_deposit,
  calc_expected_reserve_data_after_withdraw, calc_expected_user_data_after_withdraw,
}
use kza_lending.Suite.Chain.{
  Chain, SignerWithAddress, Transaction, wait_for_tx, expect_reverted, convert_to_currency_decimals,
  value_to_send, to_number, get_tx_cost_and_timestamp, get_signature_from_typed_data,
}
use kza_lending.Suite.Chain.Permit.{build_permit_params}
use kza_lending.Suite.Reading.{get_contracts_data}
use kza_lending.Suite.Actions.{
  Environment, expect_reserve, expect_user, get_data_before_action, amount_or_max, high_deadline,
}

module _ (C : Chain) (env : Environment C) where
  unfoldable pub deposit :
      (reserve_symbol amount : String) (sender : SignerWithAddress C) (on_behalf_of : String)
      (send_value : Option String) (expected_result : String)
      → Step C.State (Unit {0})
  unfolding convert_to_currency_decimals get_contracts_data value_to_send wait_for_tx
      get_tx_cost_and_timestamp expect_reserve expect_user expect_reverted
  deposit reserve_symbol amount sender on_behalf_of send_value expected_result = do
    reserve ← lift (C.reserve_address reserve_symbol)
    amount_to_deposit ← convert_to_currency_decimals C reserve amount
    before ← get_contracts_data C reserve on_behalf_of (some sender.address)
    value ← value_to_send C reserve send_value
    let call = Transaction.deposit reserve amount_to_deposit on_behalf_of (pos 0) value
    if str_eq expected_result "success"
        then (do
          tx_result ← wait_for_tx C sender.signer call
          after ← get_contracts_data C reserve on_behalf_of (some sender.address)
          tx ← get_tx_cost_and_timestamp C tx_result
          expected_reserve_data ← lift (
              calc_expected_reserve_data_after_deposit env.reserves_params amount_to_deposit
                before.reserve_data tx.tx_timestamp)
          expected_user_data ← lift (
              calc_expected_user_data_after_deposit amount_to_deposit before.reserve_data
                expected_reserve_data before.user_data tx.tx_timestamp)
          expect_reserve C env after.reserve_data expected_reserve_data
          expect_user C env after.user_data expected_user_data)
        else (if str_eq expected_result "revert"
            then expect_reverted C sender.signer call
            else pure tt)

  unfoldable pub supply_with_permit :
      (reserve_symbol amount : String) (sender : SignerWithAddress C)
      (sender_pk on_behalf_of : String) (send_value : Option String) (expected_result : String)
      → Step C.State (Unit {0})
  unfolding convert_to_currency_decimals to_number build_permit_params get_signature_from_typed_data
      get_contracts_data value_to_send wait_for_tx get_tx_cost_and_timestamp expect_reserve
      expect_user expect_reverted
  supply_with_permit reserve_symbol amount sender sender_pk on_behalf_of send_value
        expected_result =
      do
        reserve ← lift (C.reserve_address reserve_symbol)
        amount_to_deposit ← convert_to_currency_decimals C reserve amount
        chain_id ← gets C.chain_id
        nonces ← gets (C.nonces reserve sender.address)
        nonce ← lift (to_number nonces)
        let msg_params =
            build_permit_params chain_id reserve "1" reserve_symbol sender.address env.pool_address
              nonce high_deadline amount_to_deposit
        signature ← lift (get_signature_from_typed_data C sender_pk msg_params)
        before ← get_contracts_data C reserve on_behalf_of (some sender.address)
        value ← value_to_send C reserve send_value
        let call =
            Transaction.supply_with_permit reserve amount_to_deposit on_behalf_of (pos 0)
              high_deadline signature value
        if str_eq expected_result "success"
            then (do
              tx_result ← wait_for_tx C sender.signer call
              after ← get_contracts_data C reserve on_behalf_of (some sender.address)
              tx ← get_tx_cost_and_timestamp C tx_result
              expected_reserve_data ← lift (
                  calc_expected_reserve_data_after_deposit env.reserves_params amount_to_deposit
                    before.reserve_data tx.tx_timestamp)
              expected_user_data ← lift (
                  calc_expected_user_data_after_deposit amount_to_deposit before.reserve_data
                    expected_reserve_data before.user_data tx.tx_timestamp)
              expect_reserve C env after.reserve_data expected_reserve_data
              expect_user C env after.user_data expected_user_data)
            else (if str_eq expected_result "revert"
                then expect_reverted C sender.signer call
                else pure tt)

  unfoldable pub withdraw :
      (reserve_symbol amount : String) (user : SignerWithAddress C) (expected_result : String)
      → Step C.State (Unit {0})
  unfolding get_data_before_action amount_or_max get_contracts_data wait_for_tx
      get_tx_cost_and_timestamp expect_reserve expect_user expect_reverted
  withdraw reserve_symbol amount user expected_result = do
    before ← get_data_before_action C env reserve_symbol user.address
    amount_to_withdraw ← amount_or_max C env before.reserve amount
    let call = Transaction.withdraw before.reserve amount_to_withdraw user.address
    if str_eq expected_result "success"
        then (do
          tx_result ← wait_for_tx C user.signer call
          after ← get_contracts_data C before.reserve user.address none
          tx ← get_tx_cost_and_timestamp C tx_result
          expected_reserve_data ← lift (
              calc_expected_reserve_data_after_withdraw env.reserves_params amount_to_withdraw
                before.reserve_data before.user_data tx.tx_timestamp)
          expected_user_data ← lift (
              calc_expected_user_data_after_withdraw amount_to_withdraw before.reserve_data
                expected_reserve_data before.user_data tx.tx_timestamp)
          expect_reserve C env after.reserve_data expected_reserve_data
          expect_user C env after.user_data expected_user_data)
        else (if str_eq expected_result "revert"
            then expect_reverted C user.signer call
            else pure tt)
