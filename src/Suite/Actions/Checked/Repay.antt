-- ===== src/Suite/Actions/Checked/Repay.antt =====
-- When `repay` and `repayWithPermit` of test-suites/helpers/actions.ts pass where success is expected.
use text.Mathlib.Text.{◌==◌ as str_eq}
use kza_lending.Base.{◌≡◌, Option, none, false, String}
use kza_lending.Base.Int.{ℤ}
use kza_lending.Base.Result.{ok}
use kza_lending.Base.Step.{step_inv, lift_inv, gets_inv}
use kza_lending.Calc.Repay.{
  calc_expected_reserve_data_after_repay, calc_expected_user_data_after_repay,
}
use kza_lending.Suite.Chain.{
  Chain, SignerWithAddress, Transaction, value_to_send, travel, to_number,
  get_signature_from_typed_data,
}
use kza_lending.Suite.Chain.Permit.{Signature, build_permit_params}
use kza_lending.Suite.Reading.{get_contracts_data}
use kza_lending.Suite.Reading.Keeps.{
  keep_inv, contracts_data-Keeps, value-Keeps, amount_or_max-Keeps,
}
use kza_lending.Suite.Actions.{Environment, amount_or_max, as_rate_mode, high_deadline}
use kza_lending.Suite.Actions.Repay.{repay, repay_with_permit}
use kza_lending.Suite.Actions.Checked.{ReserveCalculation, UserCalculation, Checked}
use kza_lending.Suite.Actions.Checked.Settled.{cost_then_read-Checked, cost_then_read-Travelled}

module _ (C : Chain) (env : Environment C) where
  abbrev pub repay_reserve_calc : ℤ → String → ReserveCalculation
  repay_reserve_calc amount mode before tx_timestamp timestamp =
      calc_expected_reserve_data_after_repay env.reserves_params amount (as_rate_mode mode)
        before.reserve_data before.user_data tx_timestamp

  abbrev pub repay_user_calc : ℤ → String → (user on_behalf_of : String) → UserCalculation
  repay_user_calc amount mode user to before expected tx_timestamp timestamp =
      calc_expected_user_data_after_repay amount (as_rate_mode mode) before.reserve_data expected
        before.user_data (str_eq user to) tx_timestamp timestamp

  -- A repayment that passes where success is expected, with the integrity check on, first travels the given
  -- time, then is mined, and every compared value that the chain then
  -- holds of the reserve and of the debtor is the calculated one, a number up to 3; the accessory keys are
  -- not compared. The calculations
  -- start from the data read before the travel.
  pub repay-Checked :
      (reserve_symbol amount rate_mode : String) (user on_behalf_of : SignerWithAddress C)
      (send_value time_travel : Option String) {start final : C.State}
      → env.skip_integrity_check ≡ false
      → repay C env reserve_symbol amount rate_mode user on_behalf_of send_value "success"
          time_travel start
        ≡ (ok tt, final)
      → (reserve : String) × (n : ℤ) × (value : Option ℤ) × (C.reserve_address reserve_symbol
          ≡ ok reserve)
        × (amount_or_max C env reserve amount start ≡ (ok n, start))
        × (value_to_send C reserve send_value start ≡ (ok value, start))
        × Checked C env reserve on_behalf_of.address none user.signer
            (Transaction.repay reserve n rate_mode on_behalf_of.address value)
            time_travel
            none
            (repay_reserve_calc n rate_mode)
            (repay_user_calc n rate_mode user.address on_behalf_of.address)
            start
            final
  unfolding repay
  repay-Checked symbol amount mode user to send_value time_travel {start} checked h =
      let (reserve, named, k₀) = lift_inv (C.reserve_address symbol) _ h in
      let (before, read, k₁) =
        keep_inv (get_contracts_data C reserve to.address none) _
          (contracts_data-Keeps C reserve to.address none) k₀ in
      let (n, converted, k₂) =
        keep_inv (amount_or_max C env reserve amount) _ (amount_or_max-Keeps C env reserve amount)
          k₁ in
      let (value, valued, k₃) =
        keep_inv (value_to_send C reserve send_value) _ (value-Keeps C reserve send_value) k₂ in
      let (_, later, travelled, k₄) = step_inv (travel C time_travel) _ k₃ in
      let settled =
        cost_then_read-Travelled C env reserve to.address none user.signer
          (Transaction.repay reserve n mode to.address value) (repay_reserve_calc n mode)
          (repay_user_calc n mode user.address to.address) time_travel checked read travelled k₄ in
      (reserve, n, value, named, converted, valued, settled)

  -- The same for a repayment with a permit, which travels no time, and whose signature is the one of the
  -- permit for the amount, with the next nonce of the user.
  pub repay_with_permit-Checked :
      (reserve_symbol amount rate_mode : String) (user : SignerWithAddress C) (user_pk : String)
      (on_behalf_of : SignerWithAddress C) (send_value : Option String) {start final : C.State}
      → env.skip_integrity_check ≡ false
      → repay_with_permit C env reserve_symbol amount rate_mode user user_pk on_behalf_of send_value
          "success" start
        ≡ (ok tt, final)
      → (reserve : String) × (n nonce : ℤ) × (signature : Signature) × (value : Option ℤ)
        × (C.reserve_address reserve_symbol ≡ ok reserve)
        × (amount_or_max C env reserve amount start ≡ (ok n, start))
        × (to_number (C.nonces reserve user.address start) ≡ ok nonce)
        × (get_signature_from_typed_data C user_pk (
              build_permit_params
                (C.chain_id start)
                reserve
                "1"
                reserve_symbol
                user.address
                env.pool_address
                nonce
                high_deadline
                n)
            ≡ ok signature)
        × (value_to_send C reserve send_value start ≡ (ok value, start))
        × Checked C env reserve on_behalf_of.address none user.signer
            (Transaction.repay_with_permit reserve n rate_mode on_behalf_of.address high_deadline
              signature value)
            none
            none
            (repay_reserve_calc n rate_mode)
            (repay_user_calc n rate_mode user.address on_behalf_of.address)
            start
            final
  unfolding repay_with_permit
  repay_with_permit-Checked symbol amount mode user key to send_value {start} checked h =
      let (reserve, named, k₀) = lift_inv (C.reserve_address symbol) _ h in
      let (before, read, k₁) =
        keep_inv (get_contracts_data C reserve to.address none) _
          (contracts_data-Keeps C reserve to.address none) k₀ in
      let (n, converted, k₂) =
        keep_inv (amount_or_max C env reserve amount) _ (amount_or_max-Keeps C env reserve amount)
          k₁ in
      let ki = gets_inv C.chain_id _ k₂ in
      let kn = gets_inv (C.nonces reserve user.address) _ ki in
      let (nonce, numbered, k₃) = lift_inv (to_number (C.nonces reserve user.address start)) _ kn in
      let permit =
        build_permit_params (C.chain_id start) reserve "1" symbol user.address env.pool_address
          nonce high_deadline n in
      let (signature, signed, k₄) = lift_inv (get_signature_from_typed_data C key permit) _ k₃ in
      let (value, valued, k₅) =
        keep_inv (value_to_send C reserve send_value) _ (value-Keeps C reserve send_value) k₄ in
      let settled =
        cost_then_read-Checked C env reserve to.address none user.signer
          (Transaction.repay_with_permit reserve n mode to.address high_deadline signature value)
          (repay_reserve_calc n mode) (repay_user_calc n mode user.address to.address) checked read
          k₅ in
      (reserve, n, nonce, signature, value, named, converted, numbered, signed, valued, settled)
