-- ===== src/Calc/Bridge.antt =====
-- Unbacked mints and their backing: `calcExpectedReserveDataAfterMintUnbacked` and
-- `calcExpectedReserveDataAfterBackUnbacked` of test-suites/helpers/utils/calculations.ts.
use kza_lending.Base.{some, if◌then◌else◌}
use kza_lending.Base.Int.{ℤ, pos, ◌+ℤ◌, ◌-ℤ◌, ltb_ℤ}
use kza_lending.Base.Result.{Result, ok, ◌>>=◌, need}
use kza_lending.WadRay.{ray, ray_mul, ray_div, wad_to_ray, percent_mul}
use kza_lending.Calc.Data.{ReserveData, ExpectedReserve, empty_reserve}
use kza_lending.Calc.Config.{Configuration}
use kza_lending.Calc.Interest.{calc_expected_average_stable_borrow_rate}
use kza_lending.Calc.State.{
  update_state, update_liquidity_and_usage_ratios, update_rates,
  update_total_liquidity_and_usage_ratio,
}

-- The end of both actions: the average stable rate with no debt added, the rates, the ratios.
unfoldable pub finish_bridge :
    Configuration → ReserveData → ExpectedReserve → Result ExpectedReserve
unfolding update_rates update_total_liquidity_and_usage_ratio
finish_bridge params before e = do
  average ←
      calc_expected_average_stable_borrow_rate before.average_stable_borrow_rate
        before.total_stable_debt (pos 0) before.stable_borrow_rate
  e' ← update_rates params before (record e { average_stable_borrow_rate = some average })
  update_total_liquidity_and_usage_ratio e'

-- Here `unbacked` is assigned after the state is updated.
unfoldable pub calc_expected_reserve_data_after_mint_unbacked :
    Configuration → ℤ → ReserveData → ℤ → Result ExpectedReserve
calc_expected_reserve_data_after_mint_unbacked params amount_minted before tx_timestamp = do
  let start = record empty_reserve {
    address = some before.address;
    reserve_factor = some before.reserve_factor;
  }
  e₁ ← update_state before start tx_timestamp
  e₂ ←
      update_liquidity_and_usage_ratios before
        (record e₁ { unbacked = some (before.unbacked +ℤ amount_minted) }) (pos 0) (pos 0)
  finish_bridge params before e₂

unfoldable pub cumulate_to_liquidity_index : ℤ → ℤ → ℤ → Result ℤ
cumulate_to_liquidity_index liquidity_index total_liquidity amount = do
  amount_to_liquidity_ratio ← ray_div (wad_to_ray amount) (wad_to_ray total_liquidity)
  ok (ray_mul (amount_to_liquidity_ratio +ℤ ray) liquidity_index)

unfoldable pub backing_amount : ℤ → ℤ → ℤ
backing_amount amount unbacked = if ltb_ℤ amount unbacked then amount else unbacked

-- The fee of a backing, split between the protocol and the suppliers. The suppliers' part raises the
-- liquidity index; the protocol's part is credited at the raised index.
unfoldable pub distribute_fee : ℤ → ℤ → ℤ → ExpectedReserve → Result ExpectedReserve
unfolding cumulate_to_liquidity_index
distribute_fee scaled_a_token_supply fee bridge_protocol_fee e = do
  let premium_to_protocol = percent_mul fee bridge_protocol_fee
  let premium_to_lp = fee -ℤ premium_to_protocol
  liquidity_index ← need e.liquidity_index
  accrued ← need e.accrued_to_treasury_scaled
  let total_supply = ray_mul scaled_a_token_supply liquidity_index
  index ←
      cumulate_to_liquidity_index liquidity_index (total_supply +ℤ ray_mul accrued liquidity_index)
        premium_to_lp
  shares ← ray_div premium_to_protocol index
  ok (record e {
    liquidity_index = some index;
    accrued_to_treasury_scaled = some (accrued +ℤ shares);
  })

unfoldable pub calc_expected_reserve_data_after_back_unbacked :
    Configuration → ℤ → ℤ → ℤ → ℤ → ReserveData → ℤ → Result ExpectedReserve
unfolding backing_amount
calc_expected_reserve_data_after_back_unbacked params scaled_a_token_supply amount fee
      bridge_protocol_fee before tx_timestamp =
    do
      let start = record empty_reserve {
        address = some before.address;
        reserve_factor = some before.reserve_factor;
      }
      e₁ ← update_state before start tx_timestamp
      let backing = backing_amount amount before.unbacked
      e₂ ← distribute_fee scaled_a_token_supply fee bridge_protocol_fee e₁
      e₃ ←
          update_liquidity_and_usage_ratios before
            (record e₂ { unbacked = some (before.unbacked -ℤ backing) }) (backing +ℤ fee) (pos 0)
      finish_bridge params before e₃
