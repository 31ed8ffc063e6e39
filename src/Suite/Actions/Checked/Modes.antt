-- ===== src/Suite/Actions/Checked/Modes.antt =====
-- When `setUseAsCollateral`, `swapBorrowRateMode` and `rebalanceStableBorrowRate` of
-- test-suites/helpers/actions.ts pass where success is expected.
use kza_lending.Base.{◌≡◌, ◌↔◌, ap, Bool, true, none, some, false, String}
use kza_lending.Base.Result.{ok}
use kza_lending.Base.Step.{step_inv, lift_inv}
use kza_lending.Calc.UserData.{copy_user}
use kza_lending.Calc.Swap.{
  calc_expected_reserve_data_after_swap_rate_mode, calc_expected_user_data_after_swap_rate_mode,
  calc_expected_reserve_data_after_stable_rate_rebalance,
  calc_expected_user_data_after_stable_rate_rebalance,
  calc_expected_user_data_after_set_use_as_collateral,
}
use kza_lending.Suite.Compare.{user_properties}
use kza_lending.Suite.Compare.Passing.{AllClose}
use kza_lending.Suite.Chain.{
  Chain, SignerWithAddress, Transaction, Receipt, mined, wait_for_tx, get_tx_cost_and_timestamp,
}
use kza_lending.Suite.Reading.{ContractsData, get_contracts_data}
use kza_lending.Suite.Reading.Keeps.{keep_inv, contracts_data-Keeps, cost-Keeps}
use kza_lending.Suite.Actions.{Environment, as_rate_mode, expect_user, codes}
use kza_lending.Suite.Actions.Modes.{
  swap_borrow_rate_mode, rebalance_stable_borrow_rate, set_use_as_collateral, is_true,
}
use kza_lending.Suite.Actions.Modes.Spelling.{Spells, is_true_iff}
use kza_lending.Suite.Actions.Checked.{
  ReserveCalculation, UserCalculation, Checked, wait_inv, expect_equal-AllClose,
}
use kza_lending.Suite.Actions.Checked.Settled.{cost_then_read-Checked}

module _ (C : Chain) (env : Environment C) where
  abbrev pub swap_reserve_calc : String → ReserveCalculation
  swap_reserve_calc mode before tx_timestamp timestamp =
      calc_expected_reserve_data_after_swap_rate_mode env.reserves_params before.reserve_data
        before.user_data (as_rate_mode mode) tx_timestamp

  abbrev pub swap_user_calc : String → UserCalculation
  swap_user_calc mode before expected tx_timestamp timestamp =
      calc_expected_user_data_after_swap_rate_mode before.reserve_data expected before.user_data
        (as_rate_mode mode) tx_timestamp

  abbrev pub rebalance_reserve_calc : ReserveCalculation
  rebalance_reserve_calc before tx_timestamp timestamp =
      calc_expected_reserve_data_after_stable_rate_rebalance env.reserves_params before.reserve_data
        before.user_data tx_timestamp

  abbrev pub rebalance_user_calc : UserCalculation
  rebalance_user_calc before expected tx_timestamp timestamp =
      calc_expected_user_data_after_stable_rate_rebalance before.reserve_data expected
        before.user_data tx_timestamp

  -- A swap of the rate mode that passes where success is expected, with the integrity check on, was mined,
  -- and every compared value that the chain then
  -- holds of the reserve and of the user is the calculated one, a number up to 3; the accessory keys are
  -- not compared.
  pub swap-Checked :
      (reserve_symbol : String) (user : SignerWithAddress C) (rate_mode : String)
      {start final : C.State}
      → env.skip_integrity_check ≡ false
      → swap_borrow_rate_mode C env reserve_symbol user rate_mode "success" start ≡ (ok tt, final)
      → (reserve : String) × (C.reserve_address reserve_symbol ≡ ok reserve)
        × Checked C env reserve user.address none user.signer
            (Transaction.swap_borrow_rate_mode reserve rate_mode)
            none
            none
            (swap_reserve_calc rate_mode)
            (swap_user_calc rate_mode)
            start
            final
  unfolding swap_borrow_rate_mode
  swap-Checked symbol user mode {start} checked h =
      let (reserve, named, k₀) = lift_inv (C.reserve_address symbol) _ h in
      let (before, read, k₁) =
        keep_inv (get_contracts_data C reserve user.address none) _
          (contracts_data-Keeps C reserve user.address none) k₀ in
      let settled =
        cost_then_read-Checked C env reserve user.address none user.signer
          (Transaction.swap_borrow_rate_mode reserve mode) (swap_reserve_calc mode)
          (swap_user_calc mode) checked read k₁ in
      (reserve, named, settled)

  -- A rebalance that passes where success is expected, with the integrity check on, was sent by the user for
  -- the target and mined, and every compared value that the chain then
  -- holds of the reserve and of the target is the calculated one, a number up to 3; the accessory keys are
  -- not compared.
  pub rebalance-Checked :
      (reserve_symbol : String) (user target : SignerWithAddress C) {start final : C.State}
      → env.skip_integrity_check ≡ false
      → rebalance_stable_borrow_rate C env reserve_symbol user target "success" start
        ≡ (ok tt, final)
      → (reserve : String) × (C.reserve_address reserve_symbol ≡ ok reserve)
        × Checked C env reserve target.address none user.signer
            (Transaction.rebalance_stable_borrow_rate reserve target.address)
            none
            none
            rebalance_reserve_calc
            rebalance_user_calc
            start
            final
  unfolding rebalance_stable_borrow_rate
  rebalance-Checked symbol user target {start} checked h =
      let (reserve, named, k₀) = lift_inv (C.reserve_address symbol) _ h in
      let (before, read, k₁) =
        keep_inv (get_contracts_data C reserve target.address none) _
          (contracts_data-Keeps C reserve target.address none) k₀ in
      let settled =
        cost_then_read-Checked C env reserve target.address none user.signer
          (Transaction.rebalance_stable_borrow_rate reserve target.address) rebalance_reserve_calc
          rebalance_user_calc checked read k₁ in
      (reserve, named, settled)

  -- What a passing switch of the collateral shows: the call was mined, and every compared value of the user
  -- is the one before, a number up to 3, with the switch on exactly if the text is "true" in some case.
  pub record Switched (reserve : String) (user : SignerWithAddress C) (text : String)
      (start final : C.State) : Type 0 where
    pub enabled : Bool
    pub enabled_iff : (enabled ≡ true) ↔ Spells (codes text) (codes "true")
    pub before : ContractsData
    pub read_before : get_contracts_data C reserve user.address none start ≡ (ok before, start)
    pub receipt : Receipt
    pub sent :
        C.send user.signer (Transaction.set_user_use_reserve_as_collateral reserve enabled) start
        ≡ (mined receipt, final)
    pub after : ContractsData
    pub read_after : get_contracts_data C reserve user.address none final ≡ (ok after, final)
    pub user_close : AllClose (
        user_properties after.user_data
          (record (copy_user before.user_data) { usage_as_collateral_enabled = some enabled }))

  -- A switch of the collateral that passes where success is expected, with the integrity check on, was
  -- mined, and every compared value that the chain then holds of the user is the one before, a number up to
  -- 3, with the collateral on exactly if the text given has the four letters of "true", each in either case.
  pub collateral-Switched :
      (reserve_symbol : String) (user : SignerWithAddress C) (use_as_collateral : String)
      {start final : C.State}
      → env.skip_integrity_check ≡ false
      → set_use_as_collateral C env reserve_symbol user use_as_collateral "success" start
        ≡ (ok tt, final)
      → (reserve : String) × (C.reserve_address reserve_symbol ≡ ok reserve)
        × Switched reserve user use_as_collateral start final
  unfolding set_use_as_collateral expect_user calc_expected_user_data_after_set_use_as_collateral
  collateral-Switched symbol user asked {start} {final} checked h =
      let (reserve, named, k₀) = lift_inv (C.reserve_address symbol) _ h in
      let (before, read, k₁) =
        keep_inv (get_contracts_data C reserve user.address none) _
          (contracts_data-Keeps C reserve user.address none) k₀ in
      let call = Transaction.set_user_use_reserve_as_collateral reserve (is_true asked) in
      let (receipt, mined_at, sent, k₂) = step_inv (wait_for_tx C user.signer call) _ k₁ in
      let (cost, timed, k₃) =
        keep_inv (get_tx_cost_and_timestamp C receipt) _ (cost-Keeps C receipt) k₂ in
      let (after, again, k₄) =
        keep_inv (get_contracts_data C reserve user.address none) _
          (contracts_data-Keeps C reserve user.address none) k₃ in
      let was_mined = wait_inv C env user.signer call sent in
      let last : mined_at ≡ final = ap (λ p. p.1) k₄ in
      (
        reserve,
        named,
        record {
          enabled = is_true asked;
          enabled_iff = is_true_iff asked;
          before = before;
          read_before = read;
          receipt = receipt;
          sent = rw last at was_mined;
          after = after;
          read_after = rw last at again;
          user_close = expect_equal-AllClose C env _ checked (ap (λ p. p.0) k₄);
        },
      )
