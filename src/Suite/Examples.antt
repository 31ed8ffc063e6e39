-- ===== src/Suite/Examples.antt =====
-- A chain that holds one reserve and one user, and the theorems on the harness at it.
mod Deposits
mod Reads
mod Stories
mod Events
mod Withdrawals
mod Debts
mod Switches
mod Permits
mod Rebalances
use text.Mathlib.Text.{◌==◌ as str_eq}
use kza_lending.Base.{
  ℕ, ◌≡◌, refl, Bool, true, false, Option, none, some, List, [], ◌∷◌, String, if◌then◌else◌,
}
use kza_lending.Base.Int.{ℤ, pos, ◌+ℤ◌, ◌-ℤ◌, ◌*ℤ◌, ◌/ℤ◌}
use kza_lending.Base.Result.{Result, ok, err, invalid_number}
use kza_lending.Calc.Data.{ReserveData, ExpectedReserve}
use kza_lending.Calc.UserData.{UserReserveData, ExpectedUser}
use kza_lending.Calc.Config.{Configuration}
use kza_lending.Calc.Examples.{dai, user, market}
use kza_lending.Suite.Chain.{
  Chain, Transaction, Receipt, Outcome, mined, reverted, SignerWithAddress, ProviderReserve,
}
use kza_lending.Suite.Chain.Permit.{Signature, TypedData}
use kza_lending.Suite.Reading.{ContractsData}
use kza_lending.Suite.Actions.{Environment}
use kza_lending.Suite.Actions.Checked.{ReserveCalculation, UserCalculation}

-- The reserve, the user, the time and an allowance.
pub record World : Type 0 where
  pub reserve : ReserveData
  pub user : UserReserveData
  pub time : ℤ
  pub allowance : ℤ

abbrev pub receipt : Receipt
receipt = record {
  block_number = some 7;
  transaction_hash = some "0xaa";
  cumulative_gas_used = some (pos 21000);
  effective_gas_price = pos 10;
  logs = some [];
}

abbrev signature : Signature
signature = record { v = pos 27; r = "r"; s = "s" }

-- Every transaction is mined at the time 5000, and leaves the given world.
abbrev pub chain_to : World → Chain
chain_to after = record {
  State = World;
  Signer = Unit;
  send = λ signer call w. (mined receipt, after);
  advance_time_and_block = λ seconds w. (ok tt, w);
  reserve_address = λ symbol. ok "dai";
  provider_reserve = λ reserve w. record {
    unbacked = w.reserve.unbacked;
    accrued_to_treasury_scaled = w.reserve.accrued_to_treasury_scaled;
    total_stable_debt = w.reserve.total_stable_debt;
    total_variable_debt = w.reserve.total_variable_debt;
    liquidity_rate = w.reserve.liquidity_rate;
    variable_borrow_rate = w.reserve.variable_borrow_rate;
    stable_borrow_rate = w.reserve.stable_borrow_rate;
    average_stable_borrow_rate = w.reserve.average_stable_borrow_rate;
    liquidity_index = w.reserve.liquidity_index;
    variable_borrow_index = w.reserve.variable_borrow_index;
    last_update_timestamp = w.reserve.last_update_timestamp;
  };
  provider_user = λ reserve account w. record {
    current_a_token_balance = w.user.current_a_token_balance;
    current_stable_debt = w.user.current_stable_debt;
    current_variable_debt = w.user.current_variable_debt;
    principal_stable_debt = w.user.principal_stable_debt;
    scaled_variable_debt = w.user.scaled_variable_debt;
    stable_borrow_rate = w.user.stable_borrow_rate;
    liquidity_rate = w.user.liquidity_rate;
    stable_rate_last_updated = w.user.stable_rate_last_updated;
    usage_as_collateral_enabled = w.user.usage_as_collateral_enabled;
  };
  token_addresses = λ reserve w. record {
    a_token_address = "adai";
    stable_debt_token_address = "sdai";
    variable_debt_token_address = "vdai";
  };
  pool_token_addresses = λ reserve w. record {
    a_token_address = "adai";
    stable_debt_token_address = "sdai";
    variable_debt_token_address = "vdai";
  };
  strategy_address = λ reserve w. "strategy";
  reserve_factor = λ reserve w. w.reserve.reserve_factor;
  base_stable_borrow_rate = λ strategy w. w.reserve.market_stable_rate;
  symbol = λ token w. w.reserve.symbol;
  decimals = λ token w. w.reserve.decimals;
  balance_of = λ token account w.
      if str_eq account "adai" then w.reserve.available_liquidity else w.user.wallet_balance;
  scaled_balance_of = λ token account w. w.user.scaled_a_token_balance;
  scaled_total_supply = λ token w. w.reserve.scaled_variable_debt;
  principal_supply = λ token w. w.reserve.principal_stable_debt;
  total_supply_last_updated = λ token w. w.reserve.total_stable_debt_last_updated;
  borrow_allowance = λ token owner spender w. w.allowance;
  nonces = λ token owner w. pos 3;
  time_latest = λ w. w.time;
  block_timestamp = λ block w. pos 5000;
  gas_price = λ hash w. none;
  chain_id = λ w. pos 31337;
  reverted_with = λ reason message. str_eq reason message;
  parse_units = λ text decimals.
      if str_eq text "10" then ok (pos 10000000000000000000) else err invalid_number;
  big_number = λ text. ok (pos 1);
  sign_typed_data = λ key data_signed. "signed";
  from_rpc_sig = λ text. ok signature;
}

abbrev pub start : World
start = record { reserve = dai; user = user; time = pos 1000; allowance = pos 0 }

abbrev or_before {ℓ} : {A : Type ℓ} → Option A → A → A
or_before none a = a
or_before (some b) a = b

-- The reserve and the user with the values that are expected.
abbrev reserve_after : ReserveData → ExpectedReserve → ReserveData
reserve_after r e = record r {
  available_liquidity = or_before e.available_liquidity r.available_liquidity;
  total_liquidity = or_before e.total_liquidity r.total_liquidity;
  total_stable_debt = or_before e.total_stable_debt r.total_stable_debt;
  total_variable_debt = or_before e.total_variable_debt r.total_variable_debt;
  principal_stable_debt = or_before e.principal_stable_debt r.principal_stable_debt;
  scaled_variable_debt = or_before e.scaled_variable_debt r.scaled_variable_debt;
  average_stable_borrow_rate = or_before e.average_stable_borrow_rate r.average_stable_borrow_rate;
  variable_borrow_rate = or_before e.variable_borrow_rate r.variable_borrow_rate;
  stable_borrow_rate = or_before e.stable_borrow_rate r.stable_borrow_rate;
  liquidity_index = or_before e.liquidity_index r.liquidity_index;
  variable_borrow_index = or_before e.variable_borrow_index r.variable_borrow_index;
  liquidity_rate = or_before e.liquidity_rate r.liquidity_rate;
  unbacked = or_before e.unbacked r.unbacked;
  accrued_to_treasury_scaled = or_before e.accrued_to_treasury_scaled r.accrued_to_treasury_scaled;
}

abbrev pub user_after : UserReserveData → ExpectedUser → UserReserveData
user_after u e = record u {
  scaled_a_token_balance = or_before e.scaled_a_token_balance u.scaled_a_token_balance;
  current_a_token_balance = or_before e.current_a_token_balance u.current_a_token_balance;
  current_stable_debt = or_before e.current_stable_debt u.current_stable_debt;
  current_variable_debt = or_before e.current_variable_debt u.current_variable_debt;
  principal_stable_debt = or_before e.principal_stable_debt u.principal_stable_debt;
  scaled_variable_debt = or_before e.scaled_variable_debt u.scaled_variable_debt;
  liquidity_rate = or_before e.liquidity_rate u.liquidity_rate;
  stable_borrow_rate = or_before e.stable_borrow_rate u.stable_borrow_rate;
  stable_rate_last_updated = or_before e.stable_rate_last_updated u.stable_rate_last_updated;
  usage_as_collateral_enabled =
      or_before e.usage_as_collateral_enabled u.usage_as_collateral_enabled;
  wallet_balance = or_before e.wallet_balance u.wallet_balance;
}

abbrev data_before : ContractsData
data_before = record { reserve_data = dai; user_data = user; timestamp = pos 1000 }

abbrev world_after : Result ExpectedReserve → (ExpectedReserve → Result ExpectedUser) → ℤ → World
world_after (err thrown) for_user allowance = start
world_after (ok e) for_user allowance = elim (for_user e) [
  | err thrown ↦ start
  | ok u ↦ record {
    reserve = reserve_after dai e;
    user = user_after user u;
    time = pos 5000;
    allowance = allowance;
  }
]

-- The world that the calculations predict.
abbrev pub predicted : ReserveCalculation → UserCalculation → ℤ → World
predicted for_reserve for_user allowance =
    world_after (for_reserve data_before (pos 5000) (pos 5000))
      (λ e. for_user data_before e (pos 5000) (pos 5000)) allowance

module _ (after : World) where
  abbrev pub alice : SignerWithAddress (chain_to after)
  alice = record { signer = tt; address = "alice" }

  abbrev pub environment : Environment (chain_to after)
  environment = record {
    pool_address = "pool";
    users = alice ∷ [];
    reserves_params = market;
    skip_integrity_check = false;
  }
