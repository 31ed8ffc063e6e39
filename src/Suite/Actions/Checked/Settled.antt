-- ===== src/Suite/Actions/Checked/Settled.antt =====
-- The branch of success of the actions of test-suites/helpers/actions.ts that travel no time after the
-- call: the data are read before the cost, or after it.
use kza_lending.Base.{◌≡◌, false, Option, none, String}
use kza_lending.Base.Result.{ok}
use kza_lending.Base.Step.{Step, ◌>>=◌, step_inv}
use kza_lending.Suite.Chain.{
  Chain, travel, Transaction, wait_for_tx, CostAndTimestamp, get_tx_cost_and_timestamp,
}
use kza_lending.Suite.Reading.{ContractsData, get_contracts_data}
use kza_lending.Suite.Reading.Keeps.{keep_inv, contracts_data-Keeps, cost-Keeps}
use kza_lending.Suite.Actions.Checked.{
  ReserveCalculation, UserCalculation, Checked, compare_all, compare_all-Predicted, wait_inv, stay,
  passed,
}
use kza_lending.Suite.Actions.{Environment}

module _ (C : Chain) (env : Environment C) where
  -- The branch of success, where the data are read before the cost, or after it.
  module _ (reserve user : String) (sender : Option String) (signer : C.Signer) (call : Transaction)
      (for_reserve : ReserveCalculation) (for_user : UserCalculation) where
    abbrev pub predict : ContractsData → ContractsData → CostAndTimestamp → Step C.State (Unit {0})
    predict before after cost =
        compare_all C env after (for_reserve before cost.tx_timestamp after.timestamp)
          (λ e. for_user before e cost.tx_timestamp after.timestamp)

    abbrev pub read_then_cost : ContractsData → Step C.State (Unit {0})
    read_then_cost before = do
      tx_result ← wait_for_tx C signer call
      after ← get_contracts_data C reserve user sender
      cost ← get_tx_cost_and_timestamp C tx_result
      predict before after cost

    abbrev cost_then_read : ContractsData → Step C.State (Unit {0})
    cost_then_read before = do
      tx_result ← wait_for_tx C signer call
      cost ← get_tx_cost_and_timestamp C tx_result
      after ← get_contracts_data C reserve user sender
      predict before after cost

    pub read_then_cost-Checked :
        {before : ContractsData} {start final : C.State}
        → env.skip_integrity_check ≡ false
        → get_contracts_data C reserve user sender start ≡ (ok before, start)
        → read_then_cost before start ≡ (ok tt, final)
        → Checked C env reserve user sender signer call none none for_reserve for_user start final
    read_then_cost-Checked checked read h =
        let (receipt, mined_at, sent, k₁) = step_inv (wait_for_tx C signer call) _ h in
        let (after, again, k₂) =
          keep_inv (get_contracts_data C reserve user sender) _
            (contracts_data-Keeps C reserve user sender) k₁ in
        let (cost, timed, k₃) =
          keep_inv (get_tx_cost_and_timestamp C receipt) _ (cost-Keeps C receipt) k₂ in
        passed C env read (stay C env _) (wait_inv C env signer call sent) timed (stay C env _)
          again (compare_all-Predicted C env after _ _ checked k₃)

    pub cost_then_read-Travelled :
        (travel_before : Option String) {before : ContractsData} {start sent_at final : C.State}
        → env.skip_integrity_check ≡ false
        → get_contracts_data C reserve user sender start ≡ (ok before, start)
        → travel C travel_before start ≡ (ok tt, sent_at)
        → cost_then_read before sent_at ≡ (ok tt, final)
        → Checked C env reserve user sender signer call travel_before none for_reserve for_user
            start final
    cost_then_read-Travelled travel_before checked read travelled h =
        let (receipt, mined_at, sent, k₁) = step_inv (wait_for_tx C signer call) _ h in
        let (cost, timed, k₂) =
          keep_inv (get_tx_cost_and_timestamp C receipt) _ (cost-Keeps C receipt) k₁ in
        let (after, again, k₃) =
          keep_inv (get_contracts_data C reserve user sender) _
            (contracts_data-Keeps C reserve user sender) k₂ in
        passed C env read travelled (wait_inv C env signer call sent) timed (stay C env _) again
          (compare_all-Predicted C env after _ _ checked k₃)

    pub cost_then_read-Checked :
        {before : ContractsData} {start final : C.State}
        → env.skip_integrity_check ≡ false
        → get_contracts_data C reserve user sender start ≡ (ok before, start)
        → cost_then_read before start ≡ (ok tt, final)
        → Checked C env reserve user sender signer call none none for_reserve for_user start final
    cost_then_read-Checked checked read h =
        cost_then_read-Travelled none checked read (stay C env _) h
