-- ===== src/Suite/TokenEvents/Calls.antt =====
-- The calls of test-suites/helpers/utils/tokenization-events.ts on aTokens: each sends one transaction and matches the
-- events of its receipt. The argument `debug` only prints.
use text.Mathlib.Text.{◌==◌ as str_eq}
use kza_lending.Base.{Bool, ◌∷◌, String, if◌then◌else◌}
use kza_lending.Base.Int.{ℤ, pos, ◌+ℤ◌, ◌-ℤ◌}
use kza_lending.Base.Step.{Step, pure, lift, gets, ◌>>=◌, ◌>>◌}
use kza_lending.WadRay.{ray_div}
use kza_lending.Suite.Chain.{
  Chain, SignerWithAddress, Transaction, Receipt, wait_for_tx, convert_to_currency_decimals,
}
use kza_lending.Suite.Events.{ContractInterface}
use kza_lending.Suite.TokenEvents.{
  Token, get_balance_increase, match_events, transfer_event, added_events, removed_events,
  transfer_events,
}

-- What these functions read of the pool and the tokens, their interfaces, and the test of the event
-- `MockRepayment` with its arguments.
pub record TokenReads (C : Chain) : Type 0 where
  pub erc20 : ContractInterface
  pub a_token : ContractInterface
  pub variable_debt_token : ContractInterface
  pub stable_debt_token : ContractInterface
  pub previous_index : (token account : String) → C.State → ℤ
  pub normalized_income : String → C.State → ℤ
  pub normalized_variable_debt : String → C.State → ℤ
  pub user_stable_rate : (token account : String) → C.State → ℤ
  pub principal_balance_of : (token account : String) → C.State → ℤ
  pub user_last_updated : (token account : String) → C.State → ℤ
  pub average_stable_rate : String → C.State → ℤ
  pub emits_mock_repayment : Receipt → (a_token user on_behalf_of : String) → ℤ → Bool

module _ (C : Chain) (T : TokenReads C) where
  abbrev pub underlying_token : String → Token
  underlying_token underlying = record { contract = T.erc20; address = underlying }

  unfoldable pub supply :
      (user : SignerWithAddress C) (underlying amount_to_convert on_behalf_of : String)
      → Step C.State Receipt
  unfolding convert_to_currency_decimals wait_for_tx ray_div get_balance_increase match_events
      transfer_event added_events
  supply user underlying amount_to_convert on_behalf_of = do
    amount ← convert_to_currency_decimals C underlying amount_to_convert
    tokens ← gets (C.pool_token_addresses underlying)
    let a_token : Token = record { contract = T.a_token; address = tokens.a_token_address }
    previous_index ← gets (T.previous_index a_token.address on_behalf_of)
    rcpt ← wait_for_tx C user.signer (Transaction.supply underlying amount on_behalf_of (pos 0))
    index_after ← gets (T.normalized_income underlying)
    added ← lift (ray_div amount index_after)
    scaled ← gets (C.scaled_balance_of a_token.address on_behalf_of)
    let increase = get_balance_increase (scaled -ℤ added) previous_index index_after
    lift (
        match_events rcpt (
          transfer_event (underlying_token underlying) user.address a_token.address amount
          ∷ added_events a_token user.address on_behalf_of amount increase index_after))
    pure rcpt

  unfoldable pub withdraw :
      (user : SignerWithAddress C) (underlying amount_to_convert to : String) → Step C.State Receipt
  unfolding convert_to_currency_decimals wait_for_tx ray_div get_balance_increase match_events
      transfer_event removed_events
  withdraw user underlying amount_to_convert to = do
    amount ← convert_to_currency_decimals C underlying amount_to_convert
    tokens ← gets (C.pool_token_addresses underlying)
    let a_token : Token = record { contract = T.a_token; address = tokens.a_token_address }
    previous_index ← gets (T.previous_index a_token.address user.address)
    rcpt ← wait_for_tx C user.signer (Transaction.withdraw underlying amount to)
    index_after ← gets (T.normalized_income underlying)
    added ← lift (ray_div amount index_after)
    scaled ← gets (C.scaled_balance_of a_token.address user.address)
    let increase = get_balance_increase (scaled +ℤ added) previous_index index_after
    lift (
        match_events rcpt (
          transfer_event (underlying_token underlying) a_token.address to amount
          ∷ removed_events a_token user.address to amount increase index_after))
    pure rcpt

  -- What is transferred to oneself moves no shares.
  unfoldable pub transfer :
      (user : SignerWithAddress C) (underlying amount_to_convert to : String) → Step C.State Receipt
  unfolding convert_to_currency_decimals wait_for_tx ray_div get_balance_increase match_events
      transfer_events
  transfer user underlying amount_to_convert to = do
    amount ← convert_to_currency_decimals C underlying amount_to_convert
    tokens ← gets (C.pool_token_addresses underlying)
    let a_token : Token = record { contract = T.a_token; address = tokens.a_token_address }
    from_previous_index ← gets (T.previous_index a_token.address user.address)
    to_previous_index ← gets (T.previous_index a_token.address to)
    rcpt ← wait_for_tx C user.signer (Transaction.transfer a_token.address to amount)
    index_after ← gets (T.normalized_income underlying)
    added ← lift (ray_div amount index_after)
    let delta = if str_eq user.address to then pos 0 else added
    from_scaled ← gets (C.scaled_balance_of a_token.address user.address)
    to_scaled ← gets (C.scaled_balance_of a_token.address to)
    let from_increase = get_balance_increase (from_scaled +ℤ delta) from_previous_index index_after
    let to_increase = get_balance_increase (to_scaled -ℤ delta) to_previous_index index_after
    lift (
        match_events rcpt (
          transfer_events a_token user.address user.address to amount added from_increase
            to_increase index_after))
    pure rcpt

  unfoldable pub transfer_from :
      (user : SignerWithAddress C) (origin underlying amount_to_convert to : String)
      → Step C.State Receipt
  unfolding convert_to_currency_decimals wait_for_tx ray_div get_balance_increase match_events
      transfer_events
  transfer_from user origin underlying amount_to_convert to = do
    amount ← convert_to_currency_decimals C underlying amount_to_convert
    tokens ← gets (C.pool_token_addresses underlying)
    let a_token : Token = record { contract = T.a_token; address = tokens.a_token_address }
    from_previous_index ← gets (T.previous_index a_token.address origin)
    to_previous_index ← gets (T.previous_index a_token.address to)
    rcpt ← wait_for_tx C user.signer (Transaction.transfer_from a_token.address origin to amount)
    index_after ← gets (T.normalized_income underlying)
    added ← lift (ray_div amount index_after)
    let delta = if str_eq origin to then pos 0 else added
    from_scaled ← gets (C.scaled_balance_of a_token.address origin)
    to_scaled ← gets (C.scaled_balance_of a_token.address to)
    let from_increase = get_balance_increase (from_scaled +ℤ delta) from_previous_index index_after
    let to_increase = get_balance_increase (to_scaled -ℤ delta) to_previous_index index_after
    lift (
        match_events rcpt (
          transfer_events a_token user.address origin to amount added from_increase to_increase
            index_after))
    pure rcpt
