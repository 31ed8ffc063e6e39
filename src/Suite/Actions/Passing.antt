-- ===== src/Suite/Actions/Passing.antt =====
-- The converse for `deposit` of test-suites/helpers/actions.ts.
use kza_lending.Base.{◌≡◌, refl, sym, ap, Option, none, some, true, false, List, String}
use kza_lending.Base.Int.{ℤ, pos}
use kza_lending.Base.Result.{ok}
use kza_lending.Base.Step.{step_ok, lift_ok}
use kza_lending.Suite.Compare.{Property, expect_equal, reserve_properties}
use kza_lending.Suite.Compare.Passing.{AllClose, comparison_passes}
use kza_lending.Suite.Chain.{
  Chain, SignerWithAddress, Transaction, Receipt, mined, send_now, wait_for_tx, await_success,
  travel, convert_to_currency_decimals, value_to_send, get_tx_cost_and_timestamp,
}
use kza_lending.Suite.Reading.{get_contracts_data}
use kza_lending.Suite.Actions.{Environment, expect_reserve, expect_user}
use kza_lending.Suite.Actions.Supply.{deposit}
use kza_lending.Suite.Actions.Checked.{ReserveCalculation, UserCalculation, Checked}
use kza_lending.Suite.Actions.Checked.Supply.{deposit_reserve_calc, deposit_user_calc}
use kza_lending.Suite.Actions.Checked.Settled.{read_then_cost}

module _ (C : Chain) (env : Environment C) where
  expect_equal-passes :
      (properties : List (String × Property))
      → AllClose properties
      → expect_equal env.skip_integrity_check properties ≡ ok tt
  unfolding expect_equal
  expect_equal-passes properties close =
      elim env.skip_integrity_check as (λ skip. expect_equal skip properties ≡ ok tt) [
        | true ↦ refl
        | false ↦ (comparison_passes properties).1 close
      ]

  mined_ok :
      (signer : C.Signer) (call : Transaction) {start after : C.State} {receipt : Receipt}
      → C.send signer call start ≡ (mined receipt, after)
      → wait_for_tx C signer call start ≡ (ok receipt, after)
  unfolding wait_for_tx send_now await_success
  mined_ok signer call h = rw h refl

  read_then_cost-passes :
      (reserve user : String) (sender : Option String) (signer : C.Signer) (call : Transaction)
      (for_reserve : ReserveCalculation) (for_user : UserCalculation) {start final : C.State}
      (c : Checked C env reserve user sender signer call none none for_reserve for_user start final)
      → read_then_cost C env reserve user sender signer call for_reserve for_user c.before start
        ≡ (ok tt, final)
  unfolding travel expect_reserve expect_user
  read_then_cost-passes reserve user sender signer call for_reserve for_user {start} {final} c =
      let sent_at_start : start ≡ c.sent_at = ap (λ x. x.1) c.travelled_before in
      let last : c.mined_at ≡ final = ap (λ x. x.1) c.travelled_after in
      let sent = rw (sym sent_at_start, last) at c.sent in
      let timed = rw last at c.timed in
      let p = c.predicted in
      step_ok (wait_for_tx C signer call) _ (mined_ok signer call sent) (
        step_ok (get_contracts_data C reserve user sender) _ c.read_after (
          step_ok (get_tx_cost_and_timestamp C c.receipt) _ timed (
            lift_ok (for_reserve c.before c.cost.tx_timestamp c.after.timestamp) _
              p.reserve_calculated
              (lift_ok (for_user c.before p.reserve_expected c.cost.tx_timestamp c.after.timestamp)
                _ p.user_calculated
                (lift_ok
                  (expect_equal env.skip_integrity_check
                    (reserve_properties c.after.reserve_data p.reserve_expected))
                  _ (expect_equal-passes _ p.reserve_close)
                  (ap (λ r. (r, final)) (expect_equal-passes _ p.user_close)))))))

  -- Where a chain mines the call of a deposit and then holds what the calculations predict, the deposit
  -- passes, whether the integrity check is on or not, and leaves the chain as mined.
  pub deposit_passes :
      (reserve_symbol amount : String) (sender : SignerWithAddress C) (on_behalf_of : String)
      (send_value : Option String) {reserve : String} {n : ℤ} {value : Option ℤ}
      {start final : C.State}
      → C.reserve_address reserve_symbol ≡ ok reserve
      → convert_to_currency_decimals C reserve amount start ≡ (ok n, start)
      → value_to_send C reserve send_value start ≡ (ok value, start)
      → Checked C env reserve on_behalf_of
          (some sender.address)
          sender.signer
          (Transaction.deposit reserve n on_behalf_of (pos 0) value)
          none
          none
          (deposit_reserve_calc C env n)
          (deposit_user_calc C env n)
          start
          final
      → deposit C env reserve_symbol amount sender on_behalf_of send_value "success" start
        ≡ (ok tt, final)
  unfolding deposit
  deposit_passes symbol amount sender to send_value {reserve} {n} {value} named converted valued c =
      let call = Transaction.deposit reserve n to (pos 0) value in
      let settled =
        read_then_cost-passes reserve to (some sender.address) sender.signer call
          (deposit_reserve_calc C env n) (deposit_user_calc C env n) c in
      lift_ok (C.reserve_address symbol) _ named (
        step_ok (convert_to_currency_decimals C reserve amount) _ converted (
          step_ok (get_contracts_data C reserve to (some sender.address)) _ c.read_before
            (step_ok (value_to_send C reserve send_value) _ valued settled)))
