-- ===== src/Suite/Actions/Repay.antt =====
-- The actions `repay` and `repayWithPermit` of test-suites/helpers/actions.ts.
use text.Mathlib.Text.{◌==◌ as str_eq}
use kza_lending.Base.{Option, none, String, if◌then◌else◌}
use kza_lending.Base.Step.{Step, pure, lift, gets, ◌>>=◌, ◌>>◌}
use kza_lending.Calc.Repay.{
  calc_expected_reserve_data_after_repay, calc_expected_user_data_after_repay,
}
use kza_lending.Suite.Chain.{
  Chain, SignerWithAddress, Transaction, wait_for_tx, expect_reverted, value_to_send, to_number,
  travel, get_tx_cost_and_timestamp, get_signature_from_typed_data,
}
use kza_lending.Suite.Chain.Permit.{build_permit_params}
use kza_lending.Suite.Reading.{get_contracts_data}
use kza_lending.Suite.Actions.{
  Environment, expect_reserve, expect_user, amount_or_max, high_deadline, as_rate_mode,
}

module _ (C : Chain) (env : Environment C) where
  -- The time is advanced before the transaction, also where a revert is expected.
  unfoldable pub repay :
      (reserve_symbol amount rate_mode : String) (user on_behalf_of : SignerWithAddress C)
      (send_value : Option String) (expected_result : String) (time_travel : Option String)
      → Step C.State (Unit {0})
  unfolding get_contracts_data amount_or_max value_to_send travel wait_for_tx
      get_tx_cost_and_timestamp expect_reserve expect_user expect_reverted
  repay reserve_symbol amount rate_mode user on_behalf_of send_value expected_result time_travel =
      do
        reserve ← lift (C.reserve_address reserve_symbol)
        before ← get_contracts_data C reserve on_behalf_of.address none
        amount_to_repay ← amount_or_max C env reserve amount
        value ← value_to_send C reserve send_value
        travel C time_travel
        let call = Transaction.repay reserve amount_to_repay rate_mode on_behalf_of.address value
        if str_eq expected_result "success"
            then (do
              tx_result ← wait_for_tx C user.signer call
              tx ← get_tx_cost_and_timestamp C tx_result
              after ← get_contracts_data C reserve on_behalf_of.address none
              expected_reserve_data ← lift (
                  calc_expected_reserve_data_after_repay env.reserves_params amount_to_repay
                    (as_rate_mode rate_mode) before.reserve_data before.user_data tx.tx_timestamp)
              expected_user_data ← lift (
                  calc_expected_user_data_after_repay amount_to_repay (as_rate_mode rate_mode)
                    before.reserve_data expected_reserve_data before.user_data
                    (str_eq user.address on_behalf_of.address) tx.tx_timestamp after.timestamp)
              expect_reserve C env after.reserve_data expected_reserve_data
              expect_user C env after.user_data expected_user_data)
            else (if str_eq expected_result "revert"
                then expect_reverted C user.signer call
                else pure tt)

  unfoldable pub repay_with_permit :
      (reserve_symbol amount rate_mode : String) (user : SignerWithAddress C) (user_pk : String)
      (on_behalf_of : SignerWithAddress C) (send_value : Option String) (expected_result : String)
      → Step C.State (Unit {0})
  unfolding get_contracts_data amount_or_max to_number build_permit_params
      get_signature_from_typed_data value_to_send wait_for_tx get_tx_cost_and_timestamp
      expect_reserve expect_user expect_reverted
  repay_with_permit reserve_symbol amount rate_mode user user_pk on_behalf_of send_value
        expected_result =
      do
        reserve ← lift (C.reserve_address reserve_symbol)
        before ← get_contracts_data C reserve on_behalf_of.address none
        amount_to_repay ← amount_or_max C env reserve amount
        chain_id ← gets C.chain_id
        nonces ← gets (C.nonces reserve user.address)
        nonce ← lift (to_number nonces)
        let msg_params =
            build_permit_params chain_id reserve "1" reserve_symbol user.address env.pool_address
              nonce high_deadline amount_to_repay
        signature ← lift (get_signature_from_typed_data C user_pk msg_params)
        value ← value_to_send C reserve send_value
        let call =
            Transaction.repay_with_permit reserve amount_to_repay rate_mode on_behalf_of.address
              high_deadline signature value
        if str_eq expected_result "success"
            then (do
              tx_result ← wait_for_tx C user.signer call
              tx ← get_tx_cost_and_timestamp C tx_result
              after ← get_contracts_data C reserve on_behalf_of.address none
              expected_reserve_data ← lift (
                  calc_expected_reserve_data_after_repay env.reserves_params amount_to_repay
                    (as_rate_mode rate_mode) before.reserve_data before.user_data tx.tx_timestamp)
              expected_user_data ← lift (
                  calc_expected_user_data_after_repay amount_to_repay (as_rate_mode rate_mode)
                    before.reserve_data expected_reserve_data before.user_data
                    (str_eq user.address on_behalf_of.address) tx.tx_timestamp after.timestamp)
              expect_reserve C env after.reserve_data expected_reserve_data
              expect_user C env after.user_data expected_user_data)
            else (if str_eq expected_result "revert"
                then expect_reverted C user.signer call
                else pure tt)
