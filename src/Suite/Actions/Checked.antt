-- ===== src/Suite/Actions/Checked.antt =====
-- What it takes that an action of test-suites/helpers/actions.ts passes where success is expected.
pub mod Settled
pub mod Supply
pub mod Borrow
pub mod Repay
pub mod Modes
use text.Mathlib.Text.{◌==◌ as str_eq}
use kza_lending.Base.{◌≡◌, refl, sym, ap, ◌∙◌, Bool, true, false, Option, none, some, List, String}
use kza_lending.Base.Int.{ℤ}
use kza_lending.Base.Result.{Result, ok, err}
use kza_lending.Base.Step.{Step, continue, lift, ◌>>=◌, ◌>>◌, step_inv, lift_inv}
use kza_lending.Calc.Data.{ReserveData, ExpectedReserve}
use kza_lending.Calc.UserData.{UserReserveData, ExpectedUser}
use kza_lending.Suite.Compare.{
  Property, almost_equal_or_equal, expect_equal, reserve_properties, user_properties,
}
use kza_lending.Suite.Compare.Passing.{AllClose, comparison_passes}
use kza_lending.Suite.Chain.{
  Chain, travel, Transaction, Receipt, Outcome, mined, reverted, wait_for_tx, await_success,
  CostAndTimestamp, get_tx_cost_and_timestamp,
}
use kza_lending.Suite.Reading.{
  ContractsData, get_contracts_data, get_reserve_data, reserve_read, get_user_data,
}
use kza_lending.Suite.Reading.Keeps.{keep_inv, contracts_data-Keeps, cost-Keeps}
use kza_lending.Suite.Actions.{Environment, expect_reserve, expect_user}

-- A calculation for a reserve, from the data before, the time of the transaction and the latest time.
abbrev pub ReserveCalculation : Type 0
ReserveCalculation = ContractsData → ℤ → ℤ → Result ExpectedReserve

abbrev pub UserCalculation : Type 0
UserCalculation = ContractsData → ExpectedReserve → ℤ → ℤ → Result ExpectedUser

module _ (C : Chain) (env : Environment C) where
  -- The two calculations return, and every compared value that was read is the calculated one, a number
  -- up to 3.
  pub record Predicted (for_reserve : Result ExpectedReserve)
      (for_user : ExpectedReserve → Result ExpectedUser) (after : ContractsData) : Type 0 where
    pub reserve_expected : ExpectedReserve
    pub user_expected : ExpectedUser
    pub reserve_calculated : for_reserve ≡ ok reserve_expected
    pub user_calculated : for_user reserve_expected ≡ ok user_expected
    pub reserve_close : AllClose (reserve_properties after.reserve_data reserve_expected)
    pub user_close : AllClose (user_properties after.user_data user_expected)

  -- From `start` the time is advanced, the call is mined, and the time is advanced to `final`; what is
  -- read there is what the calculations predict from the data read at `start`, with the time of the
  -- block of the call.
  pub record Checked (reserve user : String) (sender : Option String) (signer : C.Signer)
      (call : Transaction) (travel_before travel_after : Option String)
      (for_reserve : ReserveCalculation) (for_user : UserCalculation) (start final : C.State)
      : Type 0 where
    pub before : ContractsData
    pub read_before : get_contracts_data C reserve user sender start ≡ (ok before, start)
    pub sent_at : C.State
    pub travelled_before : travel C travel_before start ≡ (ok tt, sent_at)
    pub receipt : Receipt
    pub mined_at : C.State
    pub sent : C.send signer call sent_at ≡ (mined receipt, mined_at)
    pub cost : CostAndTimestamp
    pub timed : get_tx_cost_and_timestamp C receipt mined_at ≡ (ok cost, mined_at)
    pub travelled_after : travel C travel_after mined_at ≡ (ok tt, final)
    pub after : ContractsData
    pub read_after : get_contracts_data C reserve user sender final ≡ (ok after, final)
    pub predicted :
        Predicted
          (for_reserve before cost.tx_timestamp after.timestamp)
          (λ e. for_user before e cost.tx_timestamp after.timestamp)
          after

  -- The end of every action: the two calculations and the two comparisons.
  abbrev pub compare_all :
      ContractsData
      → Result ExpectedReserve
      → (ExpectedReserve → Result ExpectedUser)
      → Step C.State (Unit {0})
  compare_all after for_reserve for_user = do
    expected_reserve ← lift for_reserve
    expected_user ← lift (for_user expected_reserve)
    expect_reserve C env after.reserve_data expected_reserve
    expect_user C env after.user_data expected_user

  pub expect_equal-AllClose :
      (properties : List (String × Property))
      → env.skip_integrity_check ≡ false
      → expect_equal env.skip_integrity_check properties ≡ ok tt
      → AllClose properties
  unfolding expect_equal
  expect_equal-AllClose properties checked h = (comparison_passes properties).0 (rw checked at h)

  -- The calculations and the comparison of the reserve, before anything else.
  reserve_then :
      (after : ContractsData) (for_reserve : Result ExpectedReserve)
      (for_user : ExpectedReserve → Result ExpectedUser)
      (rest : ExpectedUser → Step C.State (Unit {0})) {start final : C.State}
      → env.skip_integrity_check ≡ false
      → (do
        expected_reserve ← lift for_reserve
        expected_user ← lift (for_user expected_reserve)
        expect_reserve C env after.reserve_data expected_reserve
        rest expected_user)
          start
        ≡ (ok tt, final)
      → (e : ExpectedReserve) × (u : ExpectedUser) × (for_reserve ≡ ok e)
        × (for_user e ≡ ok u)
        × AllClose (reserve_properties after.reserve_data e)
        × (rest u start ≡ (ok tt, final))
  unfolding expect_reserve
  reserve_then after for_reserve for_user rest checked h =
      let (e, h₁, k₁) = lift_inv for_reserve _ h in
      let (u, h₂, k₂) = lift_inv (for_user e) _ k₁ in
      let compared =
        expect_equal env.skip_integrity_check (reserve_properties after.reserve_data e) in
      let (_, h₃, k₃) = lift_inv compared _ k₂ in
      (e, u, h₁, h₂, expect_equal-AllClose _ checked h₃, k₃)

  module _ (after : ContractsData) (for_reserve : Result ExpectedReserve)
      (for_user : ExpectedReserve → Result ExpectedUser) where
    pub compare_then-Predicted :
        (rest : Step C.State (Unit {0})) {start final : C.State}
        → env.skip_integrity_check ≡ false
        → (do
          expected_reserve ← lift for_reserve
          expected_user ← lift (for_user expected_reserve)
          expect_reserve C env after.reserve_data expected_reserve
          expect_user C env after.user_data expected_user
          rest)
            start
          ≡ (ok tt, final)
        → Predicted for_reserve for_user after × (rest start ≡ (ok tt, final))
    unfolding expect_user
    compare_then-Predicted rest checked h =
        let (e, u, h₁, h₂, close, k) =
          reserve_then after for_reserve for_user (λ u. expect_user C env after.user_data u >> rest)
            checked h in
        let compared = expect_equal env.skip_integrity_check (user_properties after.user_data u) in
        let (_, h₃, last) = lift_inv compared _ k in
        (
          record {
            reserve_expected = e;
            user_expected = u;
            reserve_calculated = h₁;
            user_calculated = h₂;
            reserve_close = close;
            user_close = expect_equal-AllClose _ checked h₃;
          },
          last,
        )

    pub compare_all-Predicted :
        {start final : C.State}
        → env.skip_integrity_check ≡ false
        → compare_all after for_reserve for_user start ≡ (ok tt, final)
        → Predicted for_reserve for_user after × (start ≡ final)
    unfolding expect_user
    compare_all-Predicted checked h =
        let (e, u, h₁, h₂, close, k) =
          reserve_then after for_reserve for_user (expect_user C env after.user_data) checked h in
        (
          record {
            reserve_expected = e;
            user_expected = u;
            reserve_calculated = h₁;
            user_calculated = h₂;
            reserve_close = close;
            user_close = expect_equal-AllClose _ checked (ap (λ x. x.0) k);
          },
          ap (λ x. x.1) k,
        )

  sent_inv :
      (m : Outcome × C.State) {receipt : Receipt} {final : C.State}
      → continue {A = Outcome} (ok m.0, m.1) (λ o. lift (await_success o)) ≡ (ok receipt, final)
      → m ≡ (mined receipt, final)
  unfolding await_success
  sent_inv (mined r, after) h = cc
  sent_inv (reverted reason, after) h = cc

  pub wait_inv :
      (signer : C.Signer) (call : Transaction) {start final : C.State} {receipt : Receipt}
      → wait_for_tx C signer call start ≡ (ok receipt, final)
      → C.send signer call start ≡ (mined receipt, final)
  unfolding wait_for_tx
  wait_inv signer call {start} h = sent_inv (C.send signer call start) h

  pub stay : (start : C.State) → travel C none start ≡ (ok tt, start)
  unfolding travel
  stay start = refl

  -- The parts of an action that passes, whose last steps leave the chain.
  pub passed :
      {reserve user : String} {sender : Option String} {signer : C.Signer} {call : Transaction}
      {travel_before travel_after : Option String} {for_reserve : ReserveCalculation}
      {for_user : UserCalculation} {start sent_at mined_at later final : C.State}
      {before after : ContractsData} {receipt : Receipt} {cost : CostAndTimestamp}
      → get_contracts_data C reserve user sender start ≡ (ok before, start)
      → travel C travel_before start ≡ (ok tt, sent_at)
      → C.send signer call sent_at ≡ (mined receipt, mined_at)
      → get_tx_cost_and_timestamp C receipt mined_at ≡ (ok cost, mined_at)
      → travel C travel_after mined_at ≡ (ok tt, later)
      → get_contracts_data C reserve user sender later ≡ (ok after, later)
      → Predicted
          (for_reserve before cost.tx_timestamp after.timestamp)
          (λ e. for_user before e cost.tx_timestamp after.timestamp)
          after
        × (later ≡ final)
      → Checked reserve user sender signer call travel_before travel_after for_reserve for_user
          start final
  passed {sent_at} {mined_at} {before} {after} {receipt} {cost} read travelled sent timed
        travelled_after again (p, last) =
      rw (sym last) (record {
        before = before;
        read_before = read;
        sent_at = sent_at;
        travelled_before = travelled;
        receipt = receipt;
        mined_at = mined_at;
        sent = sent;
        cost = cost;
        timed = timed;
        travelled_after = travelled_after;
        after = after;
        read_after = again;
        predicted = p;
      })
