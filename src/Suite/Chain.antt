-- ===== src/Suite/Chain.antt =====
-- The chain that the harness talks to, through ethers, hardhat and the getters of @aave/deploy-v3: what
-- it reads, the transactions that it sends, and what comes back. The chain is a parameter; of the rest
-- this models `SignerWithAddress` of test-suites/helpers/make-suite.ts, `getTxCostAndTimestamp` of
-- test-suites/helpers/actions.ts and the conversions and typed data of helpers/contracts-helpers.ts.
pub mod Data
pub mod Permit
use text.Mathlib.Text.{◌==◌ as str_eq}
use Prim.Native.String.{slice}
use kza_lending.Base.{
  ℕ, ◌^◌, Bool, true, false, Option, none, some, List, String, ltb, ◌==◌, if◌then◌else◌,
}
use kza_lending.Base.Int.{ℤ, pos, ◌*ℤ◌, ◌/ℤ◌, pos_part, abs}
use kza_lending.Base.Result.{
  Result, ok, err, transaction_reverted, assertion_failed, no_block_number, invalid_number, assert,
}
use kza_lending.Base.Step.{Step, pure, throw, lift, gets, ◌>>=◌}
use kza_lending.WadRay.{one_year}
use kza_lending.Suite.Chain.Permit.{Signature, TypedData}
pub use kza_lending.Suite.Chain.Data.{
  ProviderReserve, ProviderUser, TokenAddresses, Transaction, Log, Receipt, Outcome, mined,
  reverted,
}

pub record Chain : Type 1 where
  pub State : Type 0
  pub Signer : Type 0
  pub send : Signer → Transaction → State → Outcome × State
  -- `advanceTimeAndBlock`
  pub advance_time_and_block : ℤ → Step State (Unit {0})
  -- `getTestnetReserveAddressFromSymbol`
  pub reserve_address : String → Result String
  -- the data provider
  pub provider_reserve : String → State → ProviderReserve
  pub provider_user : (reserve user : String) → State → ProviderUser
  pub token_addresses : String → State → TokenAddresses
  -- the addresses that `getReserveData` of the pool returns
  pub pool_token_addresses : String → State → TokenAddresses
  pub strategy_address : String → State → String
  pub reserve_factor : String → State → ℤ
  -- the strategy and the tokens, by their addresses
  pub base_stable_borrow_rate : String → State → ℤ
  pub symbol : String → State → String
  pub decimals : String → State → ℤ
  pub balance_of : (token account : String) → State → ℤ
  pub scaled_balance_of : (token account : String) → State → ℤ
  pub scaled_total_supply : String → State → ℤ
  pub principal_supply : String → State → ℤ
  pub total_supply_last_updated : String → State → ℤ
  pub borrow_allowance : (token owner spender : String) → State → ℤ
  pub nonces : (token owner : String) → State → ℤ
  -- the node
  pub time_latest : State → ℤ
  pub block_timestamp : ℕ → State → ℤ
  pub gas_price : (transaction_hash : String) → State → Option ℤ
  pub chain_id : State → ℤ
  -- the test of `to.be.revertedWith`
  pub reverted_with : (reason message : String) → Bool
  -- the libraries: `ethers.utils.parseUnits`, `BigNumber.from` of a text, `signTypedData_v4`
  -- with the key in hexadecimal digits, and `fromRpcSig`
  pub parse_units : (amount : String) (decimals : ℤ) → Result ℤ
  pub big_number : String → Result ℤ
  pub sign_typed_data : (key : String) → TypedData → String
  pub from_rpc_sig : String → Result Signature

pub record SignerWithAddress (C : Chain) : Type 0 where
  pub signer : C.Signer
  pub address : String

-- `toNumber()`, which holds 53 bits at most.
unfoldable pub to_number : ℤ → Result ℤ
unfolding abs
to_number a = if ltb (pos_part (abs a)) (2 ^ 53) then ok a else err invalid_number

-- A number that is absent or 0, and a text that is absent or empty, are false.
abbrev pub present_number : Option ℕ → Option ℕ
present_number none = none
present_number (some n) = if n == 0 then none else some n

abbrev pub present : Option String → Option String
present none = none
present (some s) = if str_eq s "" then none else some s

-- `txInfo.gasPrice ? txInfo.gasPrice : tx.effectiveGasPrice`
abbrev price_or : ℤ → Option ℤ → ℤ
price_or effective none = effective
price_or effective (some price) = price

pub record CostAndTimestamp : Type 0 where
  pub tx_cost : ℤ
  pub tx_timestamp : ℤ

-- `waitForTx(await transaction)`
unfoldable pub await_success : Outcome → Result Receipt
await_success (mined receipt) = ok receipt
await_success (reverted reason) = err transaction_reverted

-- `expect(transaction, revertMessage).to.be.reverted`: any revert passes, since the message is the one
-- that a failed assertion prints.
unfoldable pub await_revert : Outcome → Result (Unit {0})
await_revert (mined receipt) = err assertion_failed
await_revert (reverted reason) = ok tt

module _ (C : Chain) where
  -- A transaction that is sent, and not yet awaited.
  unfoldable pub send_now : C.Signer → Transaction → Step C.State Outcome
  send_now signer call before =
      let (outcome, after) = C.send signer call before in (ok outcome, after)

  unfoldable pub wait_for_tx : C.Signer → Transaction → Step C.State Receipt
  unfolding await_success send_now
  wait_for_tx signer call = do outcome ← send_now signer call; lift (await_success outcome)

  unfoldable pub expect_reverted : C.Signer → Transaction → Step C.State (Unit {0})
  unfolding await_revert send_now
  expect_reverted signer call = do outcome ← send_now signer call; lift (await_revert outcome)

  -- `expect(transaction, message).to.be.revertedWith(message)`
  unfoldable pub expect_reverted_with : C.Signer → Transaction → String → Step C.State (Unit {0})
  expect_reverted_with signer call message before =
      let (outcome, after) = C.send signer call before in
      elim outcome [
        | mined receipt ↦ (err assertion_failed, after)
        | reverted reason ↦ (assert (C.reverted_with reason message), after)
      ]

  unfoldable pub convert_to_currency_decimals : String → String → Step C.State ℤ
  convert_to_currency_decimals token_address amount = do
    decimals ← gets (C.decimals token_address)
    lift (C.parse_units amount decimals)

  -- `if (sendValue) { txOptions.value = ... }`
  unfoldable pub value_to_send : String → Option String → Step C.State (Option ℤ)
  value_to_send reserve send_value = elim (present send_value) [
    | none ↦ pure none
    | some amount ↦ (do value ← convert_to_currency_decimals reserve amount; pure (some value))
  ]

  -- `if (timeTravel) { ... }`: the days are turned into seconds, and the time is advanced by them.
  unfoldable pub travel : Option String → Step C.State (Unit {0})
  unfolding to_number
  travel time_travel = elim (present time_travel) [
    | none ↦ pure tt
    | some days ↦ (do
      n ← lift (C.big_number days)
      seconds ← lift (to_number (n *ℤ one_year /ℤ pos 365))
      C.advance_time_and_block seconds)
  ]

  -- The key is taken from behind its prefix '0x'.
  unfoldable pub get_signature_from_typed_data :
      (private_key : String) → TypedData → Result Signature
  get_signature_from_typed_data private_key typed_data =
      C.from_rpc_sig (C.sign_typed_data (slice private_key 2 66) typed_data)

  unfoldable pub get_tx_cost_and_timestamp : Receipt → Step C.State CostAndTimestamp
  get_tx_cost_and_timestamp tx = elim (present_number tx.block_number) [
    | none ↦ throw no_block_number
    | some block ↦ elim (present tx.transaction_hash) [
      | none ↦ throw no_block_number
      | some hash ↦ elim tx.cumulative_gas_used [
        | none ↦ throw no_block_number
        | some gas ↦ (do
          tx_timestamp ← gets (C.block_timestamp block)
          price ← gets (C.gas_price hash)
          pure (record {
            tx_cost = gas *ℤ price_or tx.effective_gas_price price;
            tx_timestamp = tx_timestamp;
          }))
      ]
    ]
  ]
