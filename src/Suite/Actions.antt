-- ===== src/Suite/Actions.antt =====
-- The actions of the scenarios, test-suites/helpers/actions.ts: what they share, and `mint`, `approve`
-- and `delegateBorrowAllowance`. An amount that the source passes on as a decimal or hexadecimal text is
-- the integer that it denotes. The promises of one action are awaited in order.
pub mod Supply
pub mod Borrow
pub mod Repay
pub mod Modes
pub mod Checked
pub mod Passing
pub mod Outcomes
use Prim.Native.Char.{code}
use text.Mathlib.Text.{◌==◌ as str_eq}
use kza_lending.Base.{Bool, Option, none, some, List, [], ◌∷◌, ℕ, String, if◌then◌else◌}
use kza_lending.Base.Int.{ℤ, pos, eqb_ℤ}
use kza_lending.Base.Result.{assertion_failed, transaction_reverted, ok, err, assert}
use kza_lending.Base.Step.{Step, pure, lift, gets, ◌>>=◌, ◌>>◌}
use kza_lending.WadRay.{max_uint_amount}
use kza_lending.Calc.Data.{RateMode, no_debt, stable, variable, ReserveData, ExpectedReserve}
use kza_lending.Calc.UserData.{UserReserveData, ExpectedUser}
use kza_lending.Calc.Config.{Configuration}
use kza_lending.Suite.Compare.{expect_equal, reserve_properties, user_properties}
use kza_lending.Suite.Chain.{
  Chain, SignerWithAddress, Outcome, mined, reverted, Transaction, present, wait_for_tx,
  convert_to_currency_decimals, expect_reverted_with,
}
use kza_lending.Suite.Reading.{ContractsData, get_contracts_data}

-- What the actions use of `TestEnv`, and the two configurations that scenario.spec.ts sets.
pub record Environment (C : Chain) : Type 0 where
  pub pool_address : String
  pub users : List (SignerWithAddress C)
  pub reserves_params : Configuration
  pub skip_integrity_check : Bool

-- The enumeration `RateMode` is '0', '1' and '2'; the calculations test for '1' only.
abbrev pub as_rate_mode : String → RateMode
as_rate_mode mode =
    if str_eq mode "1" then stable else (if str_eq mode "2" then variable else no_debt)

-- The codes of the characters of a text.
abbrev pub codes : String → List ℕ
codes String.[] = []
codes (String.◌∷◌ c s) = code c ∷ codes s

-- The deadline of permits, 10^26.
abbrev pub high_deadline : ℤ
high_deadline = pos 100000000000000000000000000

pub record ActionData : Type 0 where
  pub reserve : String
  pub reserve_data : ReserveData
  pub user_data : UserReserveData
  pub a_token_instance : String

-- `expectedResult === 'revert' && revertMessage`
abbrev pub awaited_message : (expected_result : String) → Option String → Option String
awaited_message expected_result revert_message =
    if str_eq expected_result "revert" then present revert_message else none

module _ (C : Chain) (env : Environment C) where
  unfoldable pub expect_reserve : ReserveData → ExpectedReserve → Step C.State (Unit {0})
  unfolding expect_equal
  expect_reserve actual expected =
      lift (expect_equal env.skip_integrity_check (reserve_properties actual expected))

  unfoldable pub expect_user : UserReserveData → ExpectedUser → Step C.State (Unit {0})
  unfolding expect_equal
  expect_user actual expected =
      lift (expect_equal env.skip_integrity_check (user_properties actual expected))

  unfoldable pub get_data_before_action : (reserve_symbol user : String) → Step C.State ActionData
  unfolding get_contracts_data
  get_data_before_action reserve_symbol user = do
    reserve ← lift (C.reserve_address reserve_symbol)
    data_read ← get_contracts_data C reserve user none
    pure (record {
      reserve = reserve;
      reserve_data = data_read.reserve_data;
      user_data = data_read.user_data;
      a_token_instance = data_read.reserve_data.a_token_address;
    })

  -- The amount '-1' stands for the largest one.
  unfoldable pub amount_or_max : (reserve amount : String) → Step C.State ℤ
  unfolding convert_to_currency_decimals
  amount_or_max reserve amount =
      if str_eq amount "-1"
      then pure max_uint_amount
      else convert_to_currency_decimals C reserve amount

  unfoldable pub mint :
      (reserve_symbol amount : String) → SignerWithAddress C → Step C.State (Unit {0})
  unfolding convert_to_currency_decimals wait_for_tx
  mint reserve_symbol amount user = do
    reserve ← lift (C.reserve_address reserve_symbol)
    n ← convert_to_currency_decimals C reserve amount
    receipt ← wait_for_tx C user.signer (Transaction.mint reserve n)
    pure tt

  unfoldable pub approve : (reserve_symbol : String) → SignerWithAddress C → Step C.State (Unit {0})
  unfolding wait_for_tx
  approve reserve_symbol user = do
    reserve ← lift (C.reserve_address reserve_symbol)
    receipt ←
        wait_for_tx C user.signer
          (Transaction.approve reserve env.pool_address (pos 100000000000000000000000000000))
    pure tt

  -- The two branches of `delegateBorrowAllowance`.
  unfoldable pub delegate_or_revert :
      C.Signer
      → Transaction
      → (debt_token owner receiver : String) → ℤ
      → Option String
      → Step C.State (Unit {0})
  unfolding wait_for_tx expect_reverted_with
  delegate_or_revert signer call debt_token owner receiver amount (some message) =
      expect_reverted_with C signer call message
  delegate_or_revert signer call debt_token owner receiver amount none = do
    receipt ← wait_for_tx C signer call
    allowance ← gets (C.borrow_allowance debt_token owner receiver)
    lift (assert (eqb_ℤ allowance amount))

  -- A revert is awaited only where its message is given; else the transaction has to pass.
  unfoldable pub delegate_borrow_allowance :
      (reserve amount interest_rate_mode : String) (user : SignerWithAddress C)
      (receiver expected_result : String) (revert_message : Option String)
      → Step C.State (Unit {0})
  unfolding convert_to_currency_decimals delegate_or_revert
  delegate_borrow_allowance reserve amount interest_rate_mode user receiver expected_result
        revert_message =
      do
        reserve_address ← lift (C.reserve_address reserve)
        amount_to_delegate ← convert_to_currency_decimals C reserve_address amount
        tokens ← gets (C.pool_token_addresses reserve_address)
        let debt_token =
            if str_eq interest_rate_mode "1"
            then tokens.stable_debt_token_address
            else tokens.variable_debt_token_address
        let call = Transaction.approve_delegation debt_token receiver amount_to_delegate
        delegate_or_revert user.signer call debt_token user.address receiver amount_to_delegate
            (awaited_message expected_result revert_message)
