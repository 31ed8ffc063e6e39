-- ===== src/Suite/TokenEvents/Debts.antt =====
-- The calls of test-suites/helpers/utils/tokenization-events.ts that borrow and repay.
use kza_lending.Base.{none, ◌∷◌, String}
use kza_lending.Base.Int.{pos, ◌+ℤ◌, ◌-ℤ◌}
use kza_lending.Base.Result.{assert}
use kza_lending.Base.Step.{Step, pure, lift, gets, ◌>>=◌, ◌>>◌}
use kza_lending.WadRay.{ray_div}
use kza_lending.Calc.Interest.{calc_expected_stable_debt_token_balance}
use kza_lending.Suite.Chain.{
  Chain, SignerWithAddress, Transaction, Receipt, wait_for_tx, convert_to_currency_decimals,
  get_tx_cost_and_timestamp,
}
use kza_lending.Suite.TokenEvents.{
  Token, StableDetails, get_balance_increase, match_events, transfer_event, added_events,
  removed_events, stable_added_events, stable_removed_events, zero_address,
}
use kza_lending.Suite.TokenEvents.Calls.{TokenReads, underlying_token}

module _ (C : Chain) (T : TokenReads C) where
  unfoldable pub variable_borrow :
      (user : SignerWithAddress C) (underlying amount_to_convert on_behalf_of : String)
      → Step C.State Receipt
  unfolding convert_to_currency_decimals wait_for_tx ray_div get_balance_increase match_events
      transfer_event added_events
  variable_borrow user underlying amount_to_convert on_behalf_of = do
    amount ← convert_to_currency_decimals C underlying amount_to_convert
    tokens ← gets (C.pool_token_addresses underlying)
    let debt : Token = record {
      contract = T.variable_debt_token;
      address = tokens.variable_debt_token_address;
    }
    previous_index ← gets (T.previous_index debt.address on_behalf_of)
    rcpt ← wait_for_tx C user.signer (Transaction.borrow underlying amount "2" (pos 0) on_behalf_of)
    index_after ← gets (T.normalized_variable_debt underlying)
    added ← lift (ray_div amount index_after)
    scaled ← gets (C.scaled_balance_of debt.address on_behalf_of)
    let increase = get_balance_increase (scaled -ℤ added) previous_index index_after
    lift (
        match_events rcpt (
          transfer_event (underlying_token C T underlying) tokens.a_token_address user.address
            amount
          ∷ added_events debt user.address on_behalf_of amount increase index_after))
    pure rcpt

  unfoldable pub repay_variable_borrow :
      (user : SignerWithAddress C) (underlying amount_to_convert on_behalf_of : String)
      → Step C.State Receipt
  unfolding convert_to_currency_decimals wait_for_tx ray_div get_balance_increase match_events
      transfer_event removed_events
  repay_variable_borrow user underlying amount_to_convert on_behalf_of = do
    amount ← convert_to_currency_decimals C underlying amount_to_convert
    tokens ← gets (C.pool_token_addresses underlying)
    let debt : Token = record {
      contract = T.variable_debt_token;
      address = tokens.variable_debt_token_address;
    }
    previous_index ← gets (T.previous_index debt.address on_behalf_of)
    rcpt ← wait_for_tx C user.signer (Transaction.repay underlying amount "2" on_behalf_of none)
    lift (
        assert
          (T.emits_mock_repayment rcpt tokens.a_token_address user.address on_behalf_of amount))
    index_after ← gets (T.normalized_variable_debt underlying)
    added ← lift (ray_div amount index_after)
    scaled ← gets (C.scaled_balance_of debt.address on_behalf_of)
    let increase = get_balance_increase (scaled +ℤ added) previous_index index_after
    lift (
        match_events rcpt (
          transfer_event (underlying_token C T underlying) user.address tokens.a_token_address
            amount
          ∷ removed_events debt on_behalf_of zero_address amount increase index_after))
    pure rcpt

  unfoldable pub stable_borrow :
      (user : SignerWithAddress C) (underlying amount_to_convert on_behalf_of : String)
      → Step C.State Receipt
  unfolding convert_to_currency_decimals wait_for_tx get_tx_cost_and_timestamp match_events
      transfer_event calc_expected_stable_debt_token_balance stable_added_events
  stable_borrow user underlying amount_to_convert on_behalf_of = do
    amount ← convert_to_currency_decimals C underlying amount_to_convert
    tokens ← gets (C.pool_token_addresses underlying)
    let debt : Token = record {
      contract = T.stable_debt_token;
      address = tokens.stable_debt_token_address;
    }
    rate ← gets (T.user_stable_rate debt.address on_behalf_of)
    principal ← gets (T.principal_balance_of debt.address on_behalf_of)
    last_timestamp ← gets (T.user_last_updated debt.address on_behalf_of)
    rcpt ← wait_for_tx C user.signer (Transaction.borrow underlying amount "1" (pos 0) on_behalf_of)
    tx ← get_tx_cost_and_timestamp C rcpt
    let new_principal =
        calc_expected_stable_debt_token_balance principal rate last_timestamp tx.tx_timestamp
    average_rate ← gets (T.average_stable_rate debt.address)
    rate_after ← gets (T.user_stable_rate debt.address on_behalf_of)
    total_supply ← gets (C.principal_supply debt.address)
    let details : StableDetails = record {
      new_principal = new_principal;
      balance_increase = new_principal -ℤ principal;
      user_rate = rate_after;
      average_rate = average_rate;
      total_supply = total_supply;
    }
    lift (
        match_events rcpt (
          transfer_event (underlying_token C T underlying) tokens.a_token_address user.address
            amount
          ∷ stable_added_events debt user.address on_behalf_of amount details))
    pure rcpt

  unfoldable pub repay_stable_borrow :
      (user : SignerWithAddress C) (underlying amount_to_convert on_behalf_of : String)
      → Step C.State Receipt
  unfolding convert_to_currency_decimals wait_for_tx get_tx_cost_and_timestamp match_events
      transfer_event calc_expected_stable_debt_token_balance stable_removed_events
  repay_stable_borrow user underlying amount_to_convert on_behalf_of = do
    amount ← convert_to_currency_decimals C underlying amount_to_convert
    tokens ← gets (C.pool_token_addresses underlying)
    let debt : Token = record {
      contract = T.stable_debt_token;
      address = tokens.stable_debt_token_address;
    }
    principal ← gets (T.principal_balance_of debt.address on_behalf_of)
    rate ← gets (T.user_stable_rate debt.address on_behalf_of)
    last_timestamp ← gets (T.user_last_updated debt.address on_behalf_of)
    rcpt ← wait_for_tx C user.signer (Transaction.repay underlying amount "1" on_behalf_of none)
    tx ← get_tx_cost_and_timestamp C rcpt
    let new_principal =
        calc_expected_stable_debt_token_balance principal rate last_timestamp tx.tx_timestamp
    average_rate ← gets (T.average_stable_rate debt.address)
    rate_after ← gets (T.user_stable_rate debt.address on_behalf_of)
    total_supply ← gets (C.principal_supply debt.address)
    let details : StableDetails = record {
      new_principal = new_principal;
      balance_increase = new_principal -ℤ principal;
      user_rate = rate_after;
      average_rate = average_rate;
      total_supply = total_supply;
    }
    lift (
        match_events rcpt (
          transfer_event (underlying_token C T underlying) user.address tokens.a_token_address
            amount
          ∷ stable_removed_events debt on_behalf_of amount details))
    pure rcpt
