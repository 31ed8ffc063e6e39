-- ===== src/Suite/Actions/Checked/Supply.antt =====
-- When `deposit`, `supplyWithPermit` and `withdraw` of test-suites/helpers/actions.ts pass where success
-- is expected.
use kza_lending.Base.{◌≡◌, sym, ap, Option, none, some, false, String}
use kza_lending.Base.Int.{ℤ, pos}
use kza_lending.Base.Result.{ok}
use kza_lending.Base.Step.{pure, step_inv, lift_inv}
use kza_lending.Calc.Supply.{
  calc_expected_reserve_data_after_deposit, calc_expected_user_data_after_deposit,
  calc_expected_reserve_data_after_withdraw, calc_expected_user_data_after_withdraw,
}
use kza_lending.Suite.Chain.{
  Chain, SignerWithAddress, Transaction, convert_to_currency_decimals, value_to_send,
}
use kza_lending.Suite.Reading.{ContractsData, get_contracts_data}
use kza_lending.Suite.Reading.Keeps.{
  keep_inv, convert-Keeps, contracts_data-Keeps, value-Keeps, amount_or_max-Keeps,
}
use kza_lending.Suite.Actions.{ActionData, Environment, amount_or_max, get_data_before_action}
use kza_lending.Suite.Actions.Supply.{deposit, withdraw}
use kza_lending.Suite.Actions.Checked.{ReserveCalculation, UserCalculation, Checked}
use kza_lending.Suite.Actions.Checked.Settled.{read_then_cost-Checked}

module _ (C : Chain) (env : Environment C) where
  abbrev pub deposit_reserve_calc : ℤ → ReserveCalculation
  deposit_reserve_calc amount before tx_timestamp timestamp =
      calc_expected_reserve_data_after_deposit env.reserves_params amount before.reserve_data
        tx_timestamp

  abbrev pub deposit_user_calc : ℤ → UserCalculation
  deposit_user_calc amount before expected tx_timestamp timestamp =
      calc_expected_user_data_after_deposit amount before.reserve_data expected before.user_data
        tx_timestamp

  -- A deposit that passes where success is expected, with the integrity check on, has converted its amount
  -- and had it mined in one transaction, sent with the value of `sendValue`, and every compared value that
  -- the chain then holds of the reserve and of the receiver is the calculated one, a number up to 3; the
  -- accessory keys are not compared.
  pub deposit-Checked :
      (reserve_symbol amount : String) (sender : SignerWithAddress C) (on_behalf_of : String)
      (send_value : Option String) {start final : C.State}
      → env.skip_integrity_check ≡ false
      → deposit C env reserve_symbol amount sender on_behalf_of send_value "success" start
        ≡ (ok tt, final)
      → (reserve : String) × (n : ℤ) × (value : Option ℤ) × (C.reserve_address reserve_symbol
          ≡ ok reserve)
        × (convert_to_currency_decimals C reserve amount start ≡ (ok n, start))
        × (value_to_send C reserve send_value start ≡ (ok value, start))
        × Checked C env reserve on_behalf_of
            (some sender.address)
            sender.signer
            (Transaction.deposit reserve n on_behalf_of (pos 0) value)
            none
            none
            (deposit_reserve_calc n)
            (deposit_user_calc n)
            start
            final
  unfolding deposit
  deposit-Checked symbol amount sender to send_value {start} checked h =
      let (reserve, named, k₀) = lift_inv (C.reserve_address symbol) _ h in
      let (n, converted, k₁) =
        keep_inv (convert_to_currency_decimals C reserve amount) _ (convert-Keeps C reserve amount)
          k₀ in
      let (before, read, k₂) =
        keep_inv (get_contracts_data C reserve to (some sender.address)) _
          (contracts_data-Keeps C reserve to (some sender.address)) k₁ in
      let (value, valued, k₃) =
        keep_inv (value_to_send C reserve send_value) _ (value-Keeps C reserve send_value) k₂ in
      let call = Transaction.deposit reserve n to (pos 0) value in
      let settled =
        read_then_cost-Checked C env reserve to (some sender.address) sender.signer call
          (deposit_reserve_calc n) (deposit_user_calc n) checked read k₃ in
      (reserve, n, value, named, converted, valued, settled)

  abbrev pub withdraw_reserve_calc : ℤ → ReserveCalculation
  withdraw_reserve_calc amount before tx_timestamp timestamp =
      calc_expected_reserve_data_after_withdraw env.reserves_params amount before.reserve_data
        before.user_data tx_timestamp

  abbrev pub withdraw_user_calc : ℤ → UserCalculation
  withdraw_user_calc amount before expected tx_timestamp timestamp =
      calc_expected_user_data_after_withdraw amount before.reserve_data expected before.user_data
        tx_timestamp

  abbrev read_of : ActionData → ℤ → ContractsData
  read_of action timestamp = record {
    reserve_data = action.reserve_data;
    user_data = action.user_data;
    timestamp = timestamp;
  }

  abbrev action_of : String → ContractsData → ActionData
  action_of reserve a = record {
    reserve = reserve;
    reserve_data = a.reserve_data;
    user_data = a.user_data;
    a_token_instance = a.reserve_data.a_token_address;
  }

  data_inv :
      (reserve : String) (a : ContractsData) {start same : C.State} {action : ActionData}
      → pure (action_of reserve a) start ≡ (ok action, same)
      → (reserve ≡ action.reserve) × (a ≡ read_of action a.timestamp) × (same ≡ start)
  data_inv reserve a {action} h =
      let e : action_of reserve a ≡ action = cc in
      (ap (λ x. x.reserve) e, ap (λ x. read_of x a.timestamp) e, cc)

  pub action_data_inv :
      (reserve_symbol user : String) {start same : C.State} {action : ActionData}
      → get_data_before_action C env reserve_symbol user start ≡ (ok action, same)
      → (C.reserve_address reserve_symbol ≡ ok action.reserve)
        × (timestamp : ℤ) × (get_contracts_data C action.reserve user none start
            ≡ (ok (read_of action timestamp), start))
        × (same ≡ start)
  unfolding get_data_before_action
  action_data_inv symbol user {start} h =
      let (reserve, named, k₀) = lift_inv (C.reserve_address symbol) _ h in
      let (a, read, k₁) =
        keep_inv (get_contracts_data C reserve user none) _
          (contracts_data-Keeps C reserve user none) k₀ in
      let (e, r, kept) = data_inv reserve a k₁ in
      (rw (sym e) named, a.timestamp, rw (sym e, sym r) read, kept)

  -- A withdrawal that passes where success is expected, with the integrity check on, had its call for the
  -- converted amount, or for the largest one, mined, and every compared value that the chain then
  -- holds of the reserve and of the user is the calculated one, a number up to 3; the accessory keys are
  -- not compared.
  pub withdraw-Checked :
      (reserve_symbol amount : String) (user : SignerWithAddress C) {start final : C.State}
      → env.skip_integrity_check ≡ false
      → withdraw C env reserve_symbol amount user "success" start ≡ (ok tt, final)
      → (reserve : String) × (n : ℤ) × (C.reserve_address reserve_symbol ≡ ok reserve)
        × (amount_or_max C env reserve amount start ≡ (ok n, start))
        × Checked C env reserve user.address none user.signer
            (Transaction.withdraw reserve n user.address)
            none
            none
            (withdraw_reserve_calc n)
            (withdraw_user_calc n)
            start
            final
  unfolding withdraw
  withdraw-Checked symbol amount user {start} checked h =
      let (action, same, read_action, k₀) =
        step_inv (get_data_before_action C env symbol user.address) _ h in
      let (named, timestamp, read, kept) = action_data_inv symbol user.address read_action in
      let reserve = action.reserve in
      let (n, converted, k₁) =
        keep_inv (amount_or_max C env reserve amount) _ (amount_or_max-Keeps C env reserve amount)
          (rw kept at k₀) in
      let settled =
        read_then_cost-Checked C env reserve user.address none user.signer
          (Transaction.withdraw reserve n user.address) (withdraw_reserve_calc n)
          (withdraw_user_calc n) checked read k₁ in
      (reserve, n, named, converted, settled)
