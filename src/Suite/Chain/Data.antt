-- ===== src/Suite/Chain/Data.antt =====
-- What the chain returns to the harness, and the transactions that the harness sends: the calls of the
-- contracts in test-suites/helpers/actions.ts and test-suites/helpers/utils.
use kza_lending.Base.{ℕ, Bool, Option, List, String}
use kza_lending.Base.Int.{ℤ}
use kza_lending.Suite.Chain.Permit.{Signature}

-- What the data provider returns for a reserve, as far as the harness reads it.
pub record ProviderReserve : Type 0 where
  pub unbacked : ℤ
  pub accrued_to_treasury_scaled : ℤ
  pub total_stable_debt : ℤ
  pub total_variable_debt : ℤ
  pub liquidity_rate : ℤ
  pub variable_borrow_rate : ℤ
  pub stable_borrow_rate : ℤ
  pub average_stable_borrow_rate : ℤ
  pub liquidity_index : ℤ
  pub variable_borrow_index : ℤ
  pub last_update_timestamp : ℤ

pub record TokenAddresses : Type 0 where
  pub a_token_address : String
  pub stable_debt_token_address : String
  pub variable_debt_token_address : String

-- What it returns for a user of a reserve.
pub record ProviderUser : Type 0 where
  pub current_a_token_balance : ℤ
  pub current_stable_debt : ℤ
  pub current_variable_debt : ℤ
  pub principal_stable_debt : ℤ
  pub scaled_variable_debt : ℤ
  pub stable_borrow_rate : ℤ
  pub liquidity_rate : ℤ
  pub stable_rate_last_updated : ℤ
  pub usage_as_collateral_enabled : Bool

-- The calls that the harness sends, each with its arguments in their order; `value` is `txOptions.value`.
pub data Transaction : Type 0 where
  mint : (token : String) (amount : ℤ) → Transaction
  approve : (token spender : String) (amount : ℤ) → Transaction
  approve_delegation : (token receiver : String) (amount : ℤ) → Transaction
  deposit :
      (reserve : String) (amount : ℤ) (on_behalf_of : String) (referral_code : ℤ) (value : Option ℤ)
      → Transaction
  supply_with_permit :
      (reserve : String) (amount : ℤ) (on_behalf_of : String) (referral_code deadline : ℤ)
      (signature : Signature) (value : Option ℤ)
      → Transaction
  withdraw : (reserve : String) (amount : ℤ) (to : String) → Transaction
  borrow :
      (reserve : String) (amount : ℤ) (rate_mode : String) (referral_code : ℤ)
      (on_behalf_of : String)
      → Transaction
  repay :
      (reserve : String) (amount : ℤ) (rate_mode on_behalf_of : String) (value : Option ℤ)
      → Transaction
  repay_with_permit :
      (reserve : String) (amount : ℤ) (rate_mode on_behalf_of : String) (deadline : ℤ)
      (signature : Signature) (value : Option ℤ)
      → Transaction
  set_user_use_reserve_as_collateral : (reserve : String) (use_as_collateral : Bool) → Transaction
  swap_borrow_rate_mode : (reserve rate_mode : String) → Transaction
  rebalance_stable_borrow_rate : (reserve target : String) → Transaction
  supply : (reserve : String) (amount : ℤ) (on_behalf_of : String) (referral_code : ℤ) → Transaction
  transfer : (token to : String) (amount : ℤ) → Transaction
  transfer_from : (token origin to : String) (amount : ℤ) → Transaction

-- An entry of the logs of a receipt; `bytes` is its `data`.
pub record Log : Type 0 where
  pub address : String
  pub topics : List String
  pub bytes : String

pub record Receipt : Type 0 where
  pub block_number : Option ℕ
  pub transaction_hash : Option String
  pub cumulative_gas_used : Option ℤ
  pub effective_gas_price : ℤ
  pub logs : Option (List Log)

pub data Outcome : Type 0 where
  mined : Receipt → Outcome
  reverted : (reason : String) → Outcome
