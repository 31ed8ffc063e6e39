-- ===== src/Calc/Data.antt =====
-- The objects that the calculations read and build: test-suites/helpers/utils/interfaces/index.ts,
-- and the parameters of a reserve of helpers/types.ts. Data read from the chain has all its fields.
-- An object under construction starts as `{}`, so its fields are options, `none` for `undefined`.
use kza_lending.Base.{Bool, true, false, Option, none, some, String}
use kza_lending.Base.Int.{ℤ}

pub data RateMode : Type 0 where
  no_debt stable variable : RateMode

abbrev pub is_stable : RateMode → Bool
is_stable stable = true
is_stable no_debt = false
is_stable variable = false

pub record ReserveData : Type 0 where
  pub address : String
  pub symbol : String
  pub decimals : ℤ
  pub reserve_factor : ℤ
  pub available_liquidity : ℤ
  pub total_liquidity : ℤ
  pub total_stable_debt : ℤ
  pub total_variable_debt : ℤ
  pub principal_stable_debt : ℤ
  pub scaled_variable_debt : ℤ
  pub average_stable_borrow_rate : ℤ
  pub variable_borrow_rate : ℤ
  pub stable_borrow_rate : ℤ
  pub supply_usage_ratio : ℤ
  pub borrow_usage_ratio : ℤ
  pub liquidity_index : ℤ
  pub variable_borrow_index : ℤ
  pub a_token_address : String
  pub market_stable_rate : ℤ
  pub last_update_timestamp : ℤ
  pub total_stable_debt_last_updated : ℤ
  pub liquidity_rate : ℤ
  pub unbacked : ℤ
  pub accrued_to_treasury_scaled : ℤ

-- A `ReserveData` under construction.
pub record ExpectedReserve : Type 0 where
  pub address : Option String
  pub symbol : Option String
  pub decimals : Option ℤ
  pub reserve_factor : Option ℤ
  pub available_liquidity : Option ℤ
  pub total_liquidity : Option ℤ
  pub total_stable_debt : Option ℤ
  pub total_variable_debt : Option ℤ
  pub principal_stable_debt : Option ℤ
  pub scaled_variable_debt : Option ℤ
  pub average_stable_borrow_rate : Option ℤ
  pub variable_borrow_rate : Option ℤ
  pub stable_borrow_rate : Option ℤ
  pub supply_usage_ratio : Option ℤ
  pub borrow_usage_ratio : Option ℤ
  pub liquidity_index : Option ℤ
  pub variable_borrow_index : Option ℤ
  pub a_token_address : Option String
  pub market_stable_rate : Option ℤ
  pub last_update_timestamp : Option ℤ
  pub total_stable_debt_last_updated : Option ℤ
  pub liquidity_rate : Option ℤ
  pub unbacked : Option ℤ
  pub accrued_to_treasury_scaled : Option ℤ

-- `<ReserveData>{}`
abbrev pub empty_reserve : ExpectedReserve
empty_reserve = record {
  address = none;
  symbol = none;
  decimals = none;
  reserve_factor = none;
  available_liquidity = none;
  total_liquidity = none;
  total_stable_debt = none;
  total_variable_debt = none;
  principal_stable_debt = none;
  scaled_variable_debt = none;
  average_stable_borrow_rate = none;
  variable_borrow_rate = none;
  stable_borrow_rate = none;
  supply_usage_ratio = none;
  borrow_usage_ratio = none;
  liquidity_index = none;
  variable_borrow_index = none;
  a_token_address = none;
  market_stable_rate = none;
  last_update_timestamp = none;
  total_stable_debt_last_updated = none;
  liquidity_rate = none;
  unbacked = none;
  accrued_to_treasury_scaled = none;
}

-- A complete object where one that may miss fields is expected.
abbrev pub assigned : ReserveData → ExpectedReserve
assigned r = record {
  address = some r.address;
  symbol = some r.symbol;
  decimals = some r.decimals;
  reserve_factor = some r.reserve_factor;
  available_liquidity = some r.available_liquidity;
  total_liquidity = some r.total_liquidity;
  total_stable_debt = some r.total_stable_debt;
  total_variable_debt = some r.total_variable_debt;
  principal_stable_debt = some r.principal_stable_debt;
  scaled_variable_debt = some r.scaled_variable_debt;
  average_stable_borrow_rate = some r.average_stable_borrow_rate;
  variable_borrow_rate = some r.variable_borrow_rate;
  stable_borrow_rate = some r.stable_borrow_rate;
  supply_usage_ratio = some r.supply_usage_ratio;
  borrow_usage_ratio = some r.borrow_usage_ratio;
  liquidity_index = some r.liquidity_index;
  variable_borrow_index = some r.variable_borrow_index;
  a_token_address = some r.a_token_address;
  market_stable_rate = some r.market_stable_rate;
  last_update_timestamp = some r.last_update_timestamp;
  total_stable_debt_last_updated = some r.total_stable_debt_last_updated;
  liquidity_rate = some r.liquidity_rate;
  unbacked = some r.unbacked;
  accrued_to_treasury_scaled = some r.accrued_to_treasury_scaled;
}
