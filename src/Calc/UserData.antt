-- ===== src/Calc/UserData.antt =====
-- The user's side of test-suites/helpers/utils/interfaces/index.ts. The last two fields are named by
-- the calculations only, through the index signature; what is read from the chain has not got them.
use kza_lending.Base.{Bool, Option, none, some}
use kza_lending.Base.Int.{ℤ}

pub record UserReserveData : Type 0 where
  pub scaled_a_token_balance : ℤ
  pub current_a_token_balance : ℤ
  pub current_stable_debt : ℤ
  pub current_variable_debt : ℤ
  pub principal_stable_debt : ℤ
  pub scaled_variable_debt : ℤ
  pub liquidity_rate : ℤ
  pub stable_borrow_rate : ℤ
  pub stable_rate_last_updated : ℤ
  pub usage_as_collateral_enabled : Bool
  pub wallet_balance : ℤ
  pub variable_borrow_index : Option ℤ
  pub principal_variable_debt : Option ℤ

-- A `UserReserveData` under construction.
pub record ExpectedUser : Type 0 where
  pub scaled_a_token_balance : Option ℤ
  pub current_a_token_balance : Option ℤ
  pub current_stable_debt : Option ℤ
  pub current_variable_debt : Option ℤ
  pub principal_stable_debt : Option ℤ
  pub scaled_variable_debt : Option ℤ
  pub liquidity_rate : Option ℤ
  pub stable_borrow_rate : Option ℤ
  pub stable_rate_last_updated : Option ℤ
  pub usage_as_collateral_enabled : Option Bool
  pub wallet_balance : Option ℤ
  pub variable_borrow_index : Option ℤ
  pub principal_variable_debt : Option ℤ

-- `<UserReserveData>{}`
abbrev pub empty_user : ExpectedUser
empty_user = record {
  scaled_a_token_balance = none;
  current_a_token_balance = none;
  current_stable_debt = none;
  current_variable_debt = none;
  principal_stable_debt = none;
  scaled_variable_debt = none;
  liquidity_rate = none;
  stable_borrow_rate = none;
  stable_rate_last_updated = none;
  usage_as_collateral_enabled = none;
  wallet_balance = none;
  variable_borrow_index = none;
  principal_variable_debt = none;
}

-- `{ ...userData }`, and a complete object where one that may miss fields is expected.
abbrev pub copy_user : UserReserveData → ExpectedUser
copy_user u = record {
  scaled_a_token_balance = some u.scaled_a_token_balance;
  current_a_token_balance = some u.current_a_token_balance;
  current_stable_debt = some u.current_stable_debt;
  current_variable_debt = some u.current_variable_debt;
  principal_stable_debt = some u.principal_stable_debt;
  scaled_variable_debt = some u.scaled_variable_debt;
  liquidity_rate = some u.liquidity_rate;
  stable_borrow_rate = some u.stable_borrow_rate;
  stable_rate_last_updated = some u.stable_rate_last_updated;
  usage_as_collateral_enabled = some u.usage_as_collateral_enabled;
  wallet_balance = some u.wallet_balance;
  variable_borrow_index = u.variable_borrow_index;
  principal_variable_debt = u.principal_variable_debt;
}
