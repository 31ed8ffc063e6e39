-- ===== src/Suite/Actions/Checked/Borrow.antt =====
-- When `borrow` of test-suites/helpers/actions.ts passes where success is expected.
use text.Mathlib.Text.{◌==◌ as str_eq}
use kza_lending.Base.{
  ◌≡◌, refl, sym, ap, ◌∙◌, ◌⊎◌, inl, inr, Bool, true, false, Option, none, some, String, not,
  if◌then◌else◌,
}
use kza_lending.Base.Int.{ℤ, pos, ◌-ℤ◌, eqb_ℤ, eqb_ℤ→eq}
use kza_lending.Base.Result.{Result, ok, assert}
use kza_lending.Base.Step.{Step, lift, gets, when, ◌>>=◌, ◌>>◌, step_inv, lift_inv, gets_inv}
use kza_lending.Calc.Borrow.{
  calc_expected_reserve_data_after_borrow, calc_expected_user_data_after_borrow,
}
use kza_lending.Suite.Compare.Passing.{assert_iff}
use kza_lending.Suite.Chain.{
  Chain, SignerWithAddress, Transaction, TokenAddresses, Receipt, Outcome, mined, reverted,
  send_now, await_success, travel, CostAndTimestamp, get_tx_cost_and_timestamp,
  convert_to_currency_decimals,
}
use kza_lending.Suite.Reading.{ContractsData, get_contracts_data}
use kza_lending.Suite.Reading.Keeps.{keep_inv, contracts_data-Keeps, convert-Keeps, cost-Keeps}
use kza_lending.Suite.Actions.{Environment, expect_reserve, expect_user, as_rate_mode}
use kza_lending.Suite.Actions.Borrow.{borrow}
use kza_lending.Suite.Actions.Checked.{
  ReserveCalculation, UserCalculation, Checked, compare_then-Predicted, stay, passed,
}

-- The debt token of a rate mode.
abbrev pub debt_token : String → TokenAddresses → String
debt_token mode tokens =
    if str_eq mode "1" then tokens.stable_debt_token_address else tokens.variable_debt_token_address

module _ (C : Chain) (env : Environment C) where
  abbrev pub borrow_reserve_calc : ℤ → String → ReserveCalculation
  borrow_reserve_calc amount mode before tx_timestamp timestamp =
      calc_expected_reserve_data_after_borrow env.reserves_params amount (as_rate_mode mode)
        before.reserve_data tx_timestamp timestamp

  abbrev pub borrow_user_calc : ℤ → String → UserCalculation
  borrow_user_calc amount mode before expected tx_timestamp timestamp =
      calc_expected_user_data_after_borrow amount (as_rate_mode mode) before.reserve_data expected
        before.user_data tx_timestamp timestamp

  -- The allowance of a borrower who is not the debtor has dropped by the amount.
  abbrev pub AllowanceUsed : (token owner spender : String) → ℤ → C.State → C.State → Type 0
  AllowanceUsed token owner spender amount start final =
      (str_eq spender owner ≡ true)
      ⊎ (C.borrow_allowance token owner spender final
          ≡ C.borrow_allowance token owner spender start -ℤ amount)

  assert→eq : (a b : ℤ) → assert (eqb_ℤ a b) ≡ ok tt → a ≡ b
  assert→eq a b h = eqb_ℤ→eq a b ((assert_iff (eqb_ℤ a b)).0 h)

  allowance_inv :
      (self : Bool) (read : C.State → ℤ) (expected : ℤ) {start final : C.State}
      → when (not self) (do allowance ← gets read; lift (assert (eqb_ℤ allowance expected))) start
        ≡ (ok tt, final)
      → ((self ≡ true) ⊎ (read final ≡ expected)) × (start ≡ final)
  unfolding gets
  allowance_inv true read expected h = (inl refl, ap (λ x. x.1) h)
  allowance_inv false read expected {start} h =
      let last = ap (λ x. x.1) h in
      (inr (ap read (sym last) ∙ assert→eq (read start) expected (ap (λ x. x.0) h)), last)

  sent_pair :
      (m : Outcome × C.State) {outcome : Outcome} {receipt : Receipt} {after : C.State}
      → ◌≡◌ {A = Result Outcome × C.State} (ok m.0, m.1) (ok outcome, after)
      → outcome ≡ mined receipt
      → m ≡ (mined receipt, after)
  sent_pair (o, s) h k = cc

  awaited : (o : Outcome) {receipt : Receipt} → await_success o ≡ ok receipt → o ≡ mined receipt
  unfolding await_success
  awaited (mined r) h = cc
  awaited (reverted reason) h = cc

  -- The outcome of the call, and the state that it leaves.
  sent_now :
      (signer : C.Signer) (call : Transaction) {start after : C.State} {outcome : Outcome}
      {receipt : Receipt}
      → send_now C signer call start ≡ (ok outcome, after)
      → await_success outcome ≡ ok receipt
      → C.send signer call start ≡ (mined receipt, after)
  unfolding send_now
  sent_now signer call {start} h k = sent_pair (C.send signer call start) h (awaited _ k)

  -- What `borrow` does with the outcome of its call, where success is expected.
  module _ (reserve mode : String) (user : SignerWithAddress C) (on_behalf_of : String) (n : ℤ)
      (token : String) (allowance : ℤ) (before : ContractsData) where
    abbrev check_allowance : Step C.State (Unit {0})
    check_allowance = when (not (str_eq user.address on_behalf_of)) (do
      now ← gets (C.borrow_allowance token on_behalf_of user.address)
      lift (assert (eqb_ℤ now (allowance -ℤ n))))

    abbrev predict : ContractsData → CostAndTimestamp → Step C.State (Unit {0})
    predict after cost = do
      expected_reserve ← lift (borrow_reserve_calc n mode before cost.tx_timestamp after.timestamp)
      expected_user ←
          lift (borrow_user_calc n mode before expected_reserve cost.tx_timestamp after.timestamp)
      expect_reserve C env after.reserve_data expected_reserve
      expect_user C env after.user_data expected_user
      check_allowance

    abbrev settle : Option String → Outcome → Step C.State (Unit {0})
    settle time_travel outcome = do
      tx_result ← lift (await_success outcome)
      cost ← get_tx_cost_and_timestamp C tx_result
      travel C time_travel
      after ← get_contracts_data C reserve on_behalf_of (some user.address)
      predict after cost

    settled :
        (time_travel : Option String) {outcome : Outcome} {start mined_at final : C.State}
        → env.skip_integrity_check ≡ false
        → get_contracts_data C reserve on_behalf_of (some user.address) start ≡ (ok before, start)
        → send_now C user.signer (Transaction.borrow reserve n mode (pos 0) on_behalf_of) start
          ≡ (ok outcome, mined_at)
        → settle time_travel outcome mined_at ≡ (ok tt, final)
        → ((str_eq user.address on_behalf_of ≡ true)
            ⊎ (C.borrow_allowance token on_behalf_of user.address final ≡ allowance -ℤ n))
          × Checked C env reserve on_behalf_of
              (some user.address)
              user.signer
              (Transaction.borrow reserve n mode (pos 0) on_behalf_of)
              none
              time_travel
              (borrow_reserve_calc n mode)
              (borrow_user_calc n mode)
              start
              final
    settled time_travel {outcome} {start} checked read sent h =
        let (receipt, success, k₁) = lift_inv (await_success outcome) _ h in
        let (cost, timed, k₂) =
          keep_inv (get_tx_cost_and_timestamp C receipt) _ (cost-Keeps C receipt) k₁ in
        let (_, later, travelled, k₃) = step_inv (travel C time_travel) _ k₂ in
        let (after, again, k₄) =
          keep_inv (get_contracts_data C reserve on_behalf_of (some user.address)) _
            (contracts_data-Keeps C reserve on_behalf_of (some user.address)) k₃ in
        let (predicted, k₅) =
          compare_then-Predicted C env after
            (borrow_reserve_calc n mode before cost.tx_timestamp after.timestamp)
            (λ e. borrow_user_calc n mode before e cost.tx_timestamp after.timestamp)
            check_allowance checked k₄ in
        let (used, last) =
          allowance_inv (str_eq user.address on_behalf_of)
            (C.borrow_allowance token on_behalf_of user.address) (allowance -ℤ n) k₅ in
        let was_mined = sent_now user.signer _ sent success in
        (
          used,
          passed C env read (stay C env start) was_mined timed travelled again (predicted, last),
        )

  -- A borrowing that passes where success is expected, with the integrity check on, was mined, the given time
  -- was travelled after it, and every compared value that the chain then
  -- holds of the reserve and of the debtor is the calculated one, a number up to 3; the accessory keys are
  -- not compared; if the borrower is not the debtor, the allowance dropped by the amount.
  pub borrow-Checked :
      (reserve_symbol amount mode : String) (user : SignerWithAddress C) (on_behalf_of : String)
      (time_travel : Option String) {start final : C.State}
      → env.skip_integrity_check ≡ false
      → borrow C env reserve_symbol amount mode user on_behalf_of time_travel "success" start
        ≡ (ok tt, final)
      → (reserve : String) × (n : ℤ) × (C.reserve_address reserve_symbol ≡ ok reserve)
        × (convert_to_currency_decimals C reserve amount start ≡ (ok n, start))
        × AllowanceUsed
            (debt_token mode (C.token_addresses reserve start))
            on_behalf_of
            user.address
            n
            start
            final
        × Checked C env reserve on_behalf_of
            (some user.address)
            user.signer
            (Transaction.borrow reserve n mode (pos 0) on_behalf_of)
            none
            time_travel
            (borrow_reserve_calc n mode)
            (borrow_user_calc n mode)
            start
            final
  unfolding borrow expect_reserve expect_user
  borrow-Checked symbol amount mode user to time_travel {start} {final} checked h =
      let sender = some user.address in
      let (reserve, named, k₀) = lift_inv (C.reserve_address symbol) _ h in
      let (before, read, k₁) =
        keep_inv (get_contracts_data C reserve to sender) _
          (contracts_data-Keeps C reserve to sender) k₀ in
      let token = debt_token mode (C.token_addresses reserve start) in
      let kt = gets_inv (C.token_addresses reserve) _ k₁ in
      let ka = gets_inv (C.borrow_allowance token to user.address) _ kt in
      let (n, converted, k₂) =
        keep_inv (convert_to_currency_decimals C reserve amount) _ (convert-Keeps C reserve amount)
          ka in
      let call = Transaction.borrow reserve n mode (pos 0) to in
      let (outcome, mined_at, sent, k₃) = step_inv (send_now C user.signer call) _ k₂ in
      let allowance = C.borrow_allowance token to user.address start in
      let (used, all_checked) =
        settled reserve mode user to n token allowance before time_travel checked read sent k₃ in
      (reserve, n, named, converted, used, all_checked)
