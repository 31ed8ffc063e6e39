-- ===== src/Calc/Interest.antt =====
-- Interest, indexes and balances: the helpers in the second half of
-- test-suites/helpers/utils/calculations.ts that need no configuration. Each function has the name
-- and the argument order of the source.
pub mod Natural
pub mod Growth
use kza_lending.Base.{if◌then◌else◌, ◌||◌}
use kza_lending.Base.Int.{ℤ, pos, ◌+ℤ◌, ◌-ℤ◌, ◌*ℤ◌, ◌/ℤ◌, ltb_ℤ, eqb_ℤ}
use kza_lending.Base.Result.{Result, ok, ◌>>=◌, need, div}
use kza_lending.WadRay.{ray, one_year, ray_mul, ray_div, wad_to_ray}
use kza_lending.Calc.Data.{ReserveData, ExpectedReserve}
use kza_lending.Calc.UserData.{UserReserveData, ExpectedUser}

unfoldable pub calc_linear_interest : ℤ → ℤ → ℤ → ℤ
calc_linear_interest rate current_timestamp last_update_timestamp =
    let time_difference = current_timestamp -ℤ last_update_timestamp in
    rate *ℤ time_difference /ℤ one_year +ℤ ray

unfoldable pub calc_compounded_interest : ℤ → ℤ → ℤ → ℤ
calc_compounded_interest rate current_timestamp last_update_timestamp =
    let time_difference = current_timestamp -ℤ last_update_timestamp in
    let exp_minus_one = time_difference -ℤ pos 1 in
    let exp_minus_two = if ltb_ℤ (pos 2) time_difference then time_difference -ℤ pos 2 else pos 0 in
    let base_power_two = ray_mul rate rate /ℤ (one_year *ℤ one_year) in
    let base_power_three = ray_mul base_power_two rate /ℤ one_year in
    let second_term = time_difference *ℤ exp_minus_one *ℤ base_power_two /ℤ pos 2 in
    let third_term =
      time_difference *ℤ exp_minus_one *ℤ exp_minus_two *ℤ base_power_three /ℤ pos 6 in
    if eqb_ℤ time_difference (pos 0)
    then ray
    else ray +ℤ rate *ℤ time_difference /ℤ one_year +ℤ second_term +ℤ third_term

-- An argument that is `undefined` is an error at the call.
unfoldable pub calc_expected_reserve_normalized_income : ExpectedReserve → ℤ → Result ℤ
calc_expected_reserve_normalized_income reserve_data current_timestamp = do
  liquidity_rate ← need reserve_data.liquidity_rate
  liquidity_index ← need reserve_data.liquidity_index
  last_update_timestamp ← need reserve_data.last_update_timestamp
  let cumulated_interest =
      calc_linear_interest liquidity_rate current_timestamp last_update_timestamp
  ok (
      if eqb_ℤ liquidity_rate (pos 0)
      then liquidity_index
      else ray_mul cumulated_interest liquidity_index)

unfoldable pub calc_expected_reserve_normalized_debt : ℤ → ℤ → ℤ → ℤ → ℤ
calc_expected_reserve_normalized_debt rate index last_update_timestamp current_timestamp =
    if eqb_ℤ rate (pos 0)
    then index
    else (let cumulated_interest =
          calc_compounded_interest rate current_timestamp last_update_timestamp in
        ray_mul cumulated_interest index)

unfoldable pub calc_expected_a_token_balance : ExpectedReserve → ExpectedUser → ℤ → Result ℤ
unfolding calc_expected_reserve_normalized_income
calc_expected_a_token_balance reserve_data user_data current_timestamp = do
  index ← calc_expected_reserve_normalized_income reserve_data current_timestamp
  scaled_balance_before_action ← need user_data.scaled_a_token_balance
  ok (ray_mul scaled_balance_before_action index)

unfoldable pub calc_expected_variable_debt_token_balance :
    ExpectedReserve → ExpectedUser → ℤ → Result ℤ
calc_expected_variable_debt_token_balance reserve_data user_data current_timestamp = do
  rate ← need reserve_data.variable_borrow_rate
  index ← need reserve_data.variable_borrow_index
  last_update_timestamp ← need reserve_data.last_update_timestamp
  let normalized_debt =
      calc_expected_reserve_normalized_debt rate index last_update_timestamp current_timestamp
  scaled_variable_debt ← need user_data.scaled_variable_debt
  ok (ray_mul scaled_variable_debt normalized_debt)

unfoldable pub calc_expected_stable_debt_token_balance : ℤ → ℤ → ℤ → ℤ → ℤ
calc_expected_stable_debt_token_balance principal rate last_updated current_timestamp =
    if eqb_ℤ rate (pos 0) || eqb_ℤ current_timestamp last_updated || eqb_ℤ last_updated (pos 0)
    then principal
    else (let cumulated_interest = calc_compounded_interest rate current_timestamp last_updated in
        ray_mul principal cumulated_interest)

unfoldable pub calc_expected_scaled_a_token_balance : UserReserveData → ℤ → ℤ → ℤ → Result ℤ
calc_expected_scaled_a_token_balance user_data_before_action index amount_added amount_taken = do
  added ← ray_div amount_added index
  taken ← ray_div amount_taken index
  ok (user_data_before_action.scaled_a_token_balance +ℤ added -ℤ taken)

unfoldable pub calc_expected_average_stable_borrow_rate : ℤ → ℤ → ℤ → ℤ → Result ℤ
unfolding div
calc_expected_average_stable_borrow_rate avg_before total_before amount_changed rate =
    let weighted_total_borrows = avg_before *ℤ total_before in
    let weighted_amount_borrowed = rate *ℤ amount_changed in
    let total_borrowed_stable = total_before +ℤ amount_changed in
    if eqb_ℤ total_borrowed_stable (pos 0)
    then ok (pos 0)
    else div (weighted_total_borrows +ℤ weighted_amount_borrowed) total_borrowed_stable

unfoldable pub calc_expected_average_stable_borrow_rate_rebalance : ℤ → ℤ → ℤ → ℤ → Result ℤ
calc_expected_average_stable_borrow_rate_rebalance avg_before total_before amount_changed rate =
    let weighted_total_borrows = ray_mul avg_before total_before in
    let weighted_amount_borrowed = ray_mul rate (wad_to_ray amount_changed) in
    let total_borrowed_stable = total_before +ℤ wad_to_ray amount_changed in
    if eqb_ℤ total_borrowed_stable (pos 0)
    then ok (pos 0)
    else ray_div (weighted_total_borrows +ℤ weighted_amount_borrowed) total_borrowed_stable

unfoldable pub calc_expected_user_stable_rate : ℤ → ℤ → ℤ → ℤ → Result ℤ
unfolding div
calc_expected_user_stable_rate balance_before rate_before amount rate_new =
    div (balance_before *ℤ rate_before +ℤ amount *ℤ rate_new) (balance_before +ℤ amount)

unfoldable pub calc_expected_liquidity_index : ReserveData → ℤ → ℤ
calc_expected_liquidity_index reserve_data timestamp =
    if eqb_ℤ reserve_data.supply_usage_ratio (pos 0)
    then reserve_data.liquidity_index
    else (let cumulated_interest =
          calc_linear_interest reserve_data.liquidity_rate timestamp
            reserve_data.last_update_timestamp in
        ray_mul cumulated_interest reserve_data.liquidity_index)

unfoldable pub calc_expected_variable_borrow_index : ReserveData → ℤ → ℤ
calc_expected_variable_borrow_index reserve_data timestamp =
    if eqb_ℤ reserve_data.total_variable_debt (pos 0)
    then reserve_data.variable_borrow_index
    else (let cumulated_interest =
          calc_compounded_interest reserve_data.variable_borrow_rate timestamp
            reserve_data.last_update_timestamp in
        ray_mul cumulated_interest reserve_data.variable_borrow_index)

unfoldable pub calc_expected_total_stable_debt : ℤ → ℤ → ℤ → ℤ → ℤ
calc_expected_total_stable_debt principal average_rate last_update_timestamp current_timestamp =
    let cumulated_interest =
      calc_compounded_interest average_rate current_timestamp last_update_timestamp in
    ray_mul cumulated_interest principal

unfoldable pub calc_expected_total_variable_debt : ReserveData → ℤ → ℤ
calc_expected_total_variable_debt reserve_data expected_variable_debt_index =
    ray_mul reserve_data.scaled_variable_debt expected_variable_debt_index
