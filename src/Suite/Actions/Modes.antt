-- ===== src/Suite/Actions/Modes.antt =====
-- The actions `setUseAsCollateral`, `swapBorrowRateMode` and `rebalanceStableBorrowRate` of
-- test-suites/helpers/actions.ts.
pub mod Spelling
use text.Mathlib.Text.{◌==◌ as str_eq}
use kza_lending.Base.{
  ℕ, ◌+◌, Bool, true, false, ◌&&◌, none, List, [], ◌∷◌, map, String, leb, ◌==◌, if◌then◌else◌,
}
use kza_lending.Base.Step.{Step, pure, lift, ◌>>=◌, ◌>>◌}
use kza_lending.Calc.Swap.{
  calc_expected_reserve_data_after_swap_rate_mode, calc_expected_user_data_after_swap_rate_mode,
  calc_expected_reserve_data_after_stable_rate_rebalance,
  calc_expected_user_data_after_stable_rate_rebalance,
  calc_expected_user_data_after_set_use_as_collateral,
}
use kza_lending.Suite.Chain.{
  Chain, SignerWithAddress, Transaction, wait_for_tx, expect_reverted, get_tx_cost_and_timestamp,
}
use kza_lending.Suite.Reading.{get_contracts_data}
use kza_lending.Suite.Actions.{Environment, expect_reserve, expect_user, as_rate_mode, codes}

-- The lower case of a letter of ASCII. No other character's lower case is a letter of 'true'.
abbrev pub lower : ℕ → ℕ
lower c = if leb b'A' c && leb c b'Z' then c + 32 else c

abbrev pub same_codes : List ℕ → List ℕ → Bool
same_codes [] [] = true
same_codes (c ∷ cs) (d ∷ ds) = (c == d) && same_codes cs ds
same_codes [] (d ∷ ds) = false
same_codes (c ∷ cs) [] = false

-- `useAsCollateral.toLowerCase() === 'true'`
unfoldable pub is_true : String → Bool
is_true s = same_codes (map lower (codes s)) (codes "true")

module _ (C : Chain) (env : Environment C) where
  -- Only the user is compared.
  unfoldable pub set_use_as_collateral :
      (reserve_symbol : String) (user : SignerWithAddress C)
      (use_as_collateral expected_result : String)
      → Step C.State (Unit {0})
  unfolding is_true get_contracts_data wait_for_tx get_tx_cost_and_timestamp expect_user
      expect_reverted
  set_use_as_collateral reserve_symbol user use_as_collateral expected_result = do
    reserve ← lift (C.reserve_address reserve_symbol)
    before ← get_contracts_data C reserve user.address none
    let enabled = is_true use_as_collateral
    let call = Transaction.set_user_use_reserve_as_collateral reserve enabled
    if str_eq expected_result "success"
        then (do
          tx_result ← wait_for_tx C user.signer call
          tx ← get_tx_cost_and_timestamp C tx_result
          after ← get_contracts_data C reserve user.address none
          expect_user C env after.user_data
              (calc_expected_user_data_after_set_use_as_collateral enabled before.user_data))
        else (if str_eq expected_result "revert"
            then expect_reverted C user.signer call
            else pure tt)

  unfoldable pub swap_borrow_rate_mode :
      (reserve_symbol : String) (user : SignerWithAddress C) (rate_mode expected_result : String)
      → Step C.State (Unit {0})
  unfolding get_contracts_data wait_for_tx get_tx_cost_and_timestamp expect_reserve expect_user
      expect_reverted
  swap_borrow_rate_mode reserve_symbol user rate_mode expected_result = do
    reserve ← lift (C.reserve_address reserve_symbol)
    before ← get_contracts_data C reserve user.address none
    let call = Transaction.swap_borrow_rate_mode reserve rate_mode
    if str_eq expected_result "success"
        then (do
          tx_result ← wait_for_tx C user.signer call
          tx ← get_tx_cost_and_timestamp C tx_result
          after ← get_contracts_data C reserve user.address none
          expected_reserve_data ← lift (
              calc_expected_reserve_data_after_swap_rate_mode env.reserves_params
                before.reserve_data before.user_data (as_rate_mode rate_mode) tx.tx_timestamp)
          expected_user_data ← lift (
              calc_expected_user_data_after_swap_rate_mode before.reserve_data expected_reserve_data
                before.user_data (as_rate_mode rate_mode) tx.tx_timestamp)
          expect_reserve C env after.reserve_data expected_reserve_data
          expect_user C env after.user_data expected_user_data)
        else (if str_eq expected_result "revert"
            then expect_reverted C user.signer call
            else pure tt)

  -- The target's data are compared.
  unfoldable pub rebalance_stable_borrow_rate :
      (reserve_symbol : String) (user target : SignerWithAddress C) (expected_result : String)
      → Step C.State (Unit {0})
  unfolding get_contracts_data wait_for_tx get_tx_cost_and_timestamp expect_reserve expect_user
      expect_reverted
  rebalance_stable_borrow_rate reserve_symbol user target expected_result = do
    reserve ← lift (C.reserve_address reserve_symbol)
    before ← get_contracts_data C reserve target.address none
    let call = Transaction.rebalance_stable_borrow_rate reserve target.address
    if str_eq expected_result "success"
        then (do
          tx_result ← wait_for_tx C user.signer call
          tx ← get_tx_cost_and_timestamp C tx_result
          after ← get_contracts_data C reserve target.address none
          expected_reserve_data ← lift (
              calc_expected_reserve_data_after_stable_rate_rebalance env.reserves_params
                before.reserve_data before.user_data tx.tx_timestamp)
          expected_user_data ← lift (
              calc_expected_user_data_after_stable_rate_rebalance before.reserve_data
                expected_reserve_data before.user_data tx.tx_timestamp)
          expect_reserve C env after.reserve_data expected_reserve_data
          expect_user C env after.user_data expected_user_data)
        else (if str_eq expected_result "revert"
            then expect_reverted C user.signer call
            else pure tt)
