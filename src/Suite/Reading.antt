-- ===== src/Suite/Reading.antt =====
-- What the harness reads of a reserve and of a user: `getReserveData`, `getUserData` and
-- `getATokenUserData` of test-suites/helpers/utils/helpers.ts, and `getContractsData` of
-- test-suites/helpers/actions.ts. The reads of one `Promise.all` see one state of the chain.
pub mod Ratios
pub mod Keeps
use kza_lending.Base.{Option, none, some, String, if◌then◌else◌}
use kza_lending.Base.Int.{ℤ, pos, ◌+ℤ◌, leb_ℤ, eqb_ℤ}
use kza_lending.Base.Result.{Result, ok, ◌>>=◌, ◌>>◌, assert}
use kza_lending.Base.Step.{Step}
use kza_lending.WadRay.{ray_div}
use kza_lending.Calc.Data.{ReserveData}
use kza_lending.Calc.UserData.{UserReserveData}
use kza_lending.Suite.Chain.{Chain, present}

pub record ContractsData : Type 0 where
  pub reserve_data : ReserveData
  pub user_data : UserReserveData
  pub timestamp : ℤ

-- `sender || user`
abbrev pub address_or : Option String → String → String
address_or sender user = elim (present sender) [ none ↦ user | some address ↦ address ]

-- The ratio of the debt to a liquidity with it, which `getReserveData` writes out itself.
unfoldable pub ratio_read : (total_debt liquidity : ℤ) → Result ℤ
ratio_read total_debt liquidity =
    if eqb_ℤ total_debt (pos 0) then ok (pos 0) else ray_div total_debt (liquidity +ℤ total_debt)

module _ (C : Chain) where
  -- What is returned, with the two ratios.
  abbrev pub reserve_read : String → C.State → ℤ → ℤ → ReserveData
  reserve_read reserve s borrow_usage_ratio supply_usage_ratio =
      let data_read = C.provider_reserve reserve s in
      let tokens = C.token_addresses reserve s in
      let available = C.balance_of reserve tokens.a_token_address s in
      record {
        reserve_factor = C.reserve_factor reserve s;
        unbacked = data_read.unbacked;
        accrued_to_treasury_scaled = data_read.accrued_to_treasury_scaled;
        available_liquidity = available;
        total_liquidity = available +ℤ data_read.unbacked;
        borrow_usage_ratio = borrow_usage_ratio;
        supply_usage_ratio = supply_usage_ratio;
        total_stable_debt = data_read.total_stable_debt;
        total_variable_debt = data_read.total_variable_debt;
        liquidity_rate = data_read.liquidity_rate;
        variable_borrow_rate = data_read.variable_borrow_rate;
        stable_borrow_rate = data_read.stable_borrow_rate;
        average_stable_borrow_rate = data_read.average_stable_borrow_rate;
        liquidity_index = data_read.liquidity_index;
        variable_borrow_index = data_read.variable_borrow_index;
        last_update_timestamp = data_read.last_update_timestamp;
        total_stable_debt_last_updated =
            C.total_supply_last_updated tokens.stable_debt_token_address s;
        principal_stable_debt = C.principal_supply tokens.stable_debt_token_address s;
        scaled_variable_debt = C.scaled_total_supply tokens.variable_debt_token_address s;
        address = reserve;
        a_token_address = tokens.a_token_address;
        symbol = C.symbol reserve s;
        decimals = C.decimals reserve s;
        market_stable_rate = C.base_stable_borrow_rate (C.strategy_address reserve s) s;
      }

  unfoldable pub get_reserve_data : String → C.State → Result ReserveData
  unfolding ratio_read
  get_reserve_data reserve s = do
    let data_read = C.provider_reserve reserve s
    let tokens = C.token_addresses reserve s
    let available = C.balance_of reserve tokens.a_token_address s
    let total_liquidity = available +ℤ data_read.unbacked
    let total_debt = data_read.total_stable_debt +ℤ data_read.total_variable_debt
    borrow_usage_ratio ← ratio_read total_debt available
    supply_usage_ratio ← ratio_read total_debt total_liquidity
    assert (leb_ℤ supply_usage_ratio borrow_usage_ratio)
    ok (reserve_read reserve s borrow_usage_ratio supply_usage_ratio)

  unfoldable pub get_a_token_user_data : (reserve user : String) → C.State → ℤ
  get_a_token_user_data reserve user s =
      C.scaled_balance_of (C.token_addresses reserve s).a_token_address user s

  unfoldable pub get_user_data :
      (reserve user : String) (sender : Option String) → C.State → UserReserveData
  unfolding get_a_token_user_data
  get_user_data reserve user sender s =
      let user_data = C.provider_user reserve user s in
      record {
        scaled_a_token_balance = get_a_token_user_data reserve user s;
        current_a_token_balance = user_data.current_a_token_balance;
        current_stable_debt = user_data.current_stable_debt;
        current_variable_debt = user_data.current_variable_debt;
        principal_stable_debt = user_data.principal_stable_debt;
        scaled_variable_debt = user_data.scaled_variable_debt;
        stable_borrow_rate = user_data.stable_borrow_rate;
        liquidity_rate = user_data.liquidity_rate;
        usage_as_collateral_enabled = user_data.usage_as_collateral_enabled;
        stable_rate_last_updated = user_data.stable_rate_last_updated;
        wallet_balance = C.balance_of reserve (address_or sender user) s;
        variable_borrow_index = none;
        principal_variable_debt = none;
      }

  unfoldable pub get_contracts_data :
      (reserve user : String) (sender : Option String) → Step C.State ContractsData
  unfolding get_user_data get_reserve_data
  get_contracts_data reserve user sender s = (
    do
      reserve_data ← get_reserve_data reserve s
      ok (record {
        reserve_data = reserve_data;
        user_data = get_user_data reserve user (some (address_or sender user)) s;
        timestamp = C.time_latest s;
      }),
    s,
  )
