-- ===== src/Suite/Actions/Outcomes.antt =====
-- When `withdraw` of test-suites/helpers/actions.ts passes, by the result that is expected of it.
use text.Mathlib.Text.{◌==◌ as str_eq}
use kza_lending.Base.{◌≡◌, refl, sym, ap, ◌∙◌, ◌↔◌, false, String}
use kza_lending.Base.Int.{ℤ}
use kza_lending.Base.Result.{Result, ok}
use kza_lending.Base.Step.{pure, ◌>>=◌, step_inv, step_ok}
use kza_lending.Suite.Chain.{
  Chain, SignerWithAddress, Transaction, Outcome, Receipt, mined, reverted, send_now, await_revert,
  wait_for_tx, expect_reverted,
}
use kza_lending.Suite.Reading.Keeps.{keep_inv, amount_or_max-Keeps}
use kza_lending.Suite.Actions.{ActionData, Environment, get_data_before_action, amount_or_max}
use kza_lending.Suite.Actions.Supply.{withdraw}
use kza_lending.Suite.Actions.Checked.{wait_inv}
use kza_lending.Suite.Actions.Checked.Supply.{action_data_inv}

first_inj : {A S : Type 0} {a b : A} {s t : S} → ◌≡◌ {A = Result A × S} (ok a, s) (ok b, t) → a ≡ b
first_inj h = cc

not_both :
    {S : Type 0} {receipt : Receipt} {reason : String} {s t : S}
    → ¬ (◌≡◌ {A = Outcome × S} (mined receipt, s) (reverted reason, t))
not_both h = cc

module _ (C : Chain) (env : Environment C) where
  reverted_inv :
      (m : Outcome × C.State) {final : C.State}
      → ◌≡◌ {A = Result (Unit {0}) × C.State} (await_revert m.0, m.1) (ok tt, final)
      → (reason : String) × (m ≡ (reverted reason, final))
  unfolding await_revert
  reverted_inv (mined receipt, after) h = cc
  reverted_inv (reverted reason, after) h = (reason, ap (λ x. (reverted reason, x.1)) h)

  expect_reverted_iff :
      (signer : C.Signer) (call : Transaction) (start final : C.State)
      → (expect_reverted C signer call start ≡ (ok tt, final))
        ↔ ((reason : String) × (C.send signer call start ≡ (reverted reason, final)))
  unfolding expect_reverted send_now await_revert
  expect_reverted_iff signer call start final =
      (λ h. reverted_inv (C.send signer call start) h, λ (reason, h). rw h refl)

  module _ (reserve_symbol amount : String) (user : SignerWithAddress C) (start : C.State) where
    -- The data and the amount of a withdrawal can be read.
    pub record Ready : Type 0 where
      pub action : ActionData
      pub n : ℤ
      pub read : get_data_before_action C env reserve_symbol user.address start ≡ (ok action, start)
      pub converted : amount_or_max C env action.reserve amount start ≡ (ok n, start)

    -- The transaction of the withdrawal.
    abbrev pub call_of : Ready → Transaction
    call_of r = Transaction.withdraw r.action.reserve r.n user.address

    -- A withdrawal that passes has read its data and its amount.
    begins :
        (next : ActionData → ℤ → C.State → Result (Unit {0}) × C.State) {final : C.State}
        → (get_data_before_action C env reserve_symbol user.address >>= λ action.
              amount_or_max C env action.reserve amount >>= next action)
            start
          ≡ (ok tt, final)
        → (r : Ready) × (next r.action r.n start ≡ (ok tt, final))
    begins next h =
        let (action, same, read, k₀) =
          step_inv (get_data_before_action C env reserve_symbol user.address) _ h in
        let (_, _, _, kept) = action_data_inv C env reserve_symbol user.address read in
        let (n, converted, k₁) =
          keep_inv (amount_or_max C env action.reserve amount) _
            (amount_or_max-Keeps C env action.reserve amount) (rw kept at k₀) in
        (record { action = action; n = n; read = rw kept at read; converted = converted }, k₁)

    continues :
        (next : ActionData → ℤ → C.State → Result (Unit {0}) × C.State) (r : Ready)
        {result : Result (Unit {0}) × C.State}
        → next r.action r.n start ≡ result
        → (get_data_before_action C env reserve_symbol user.address >>= λ action.
              amount_or_max C env action.reserve amount >>= next action)
            start
          ≡ result
    continues next r h =
        step_ok (get_data_before_action C env reserve_symbol user.address) _ r.read
          (step_ok (amount_or_max C env r.action.reserve amount) _ r.converted h)

    reverted_iff :
        (final : C.State)
        → (withdraw C env reserve_symbol amount user "revert" start ≡ (ok tt, final)) ↔ (
            (r : Ready) × (reason : String) × (C.send user.signer (call_of r) start
              ≡ (reverted reason, final)))
    unfolding withdraw
    reverted_iff final = (
      λ h.
          let (r, k) =
            begins
              (λ a n. expect_reverted C user.signer (Transaction.withdraw a.reserve n user.address))
              h in
          let (reason, sent) = (expect_reverted_iff user.signer (call_of r) start final).0 k in
          (r, reason, sent),
      λ (r, reason, sent).
          continues
            (λ a n. expect_reverted C user.signer (Transaction.withdraw a.reserve n user.address)) r
            ((expect_reverted_iff user.signer (call_of r) start final).1 (reason, sent)),
    )

    other_iff :
        (expected_result : String) (final : C.State)
        → str_eq expected_result "success" ≡ false
        → str_eq expected_result "revert" ≡ false
        → (withdraw C env reserve_symbol amount user expected_result start ≡ (ok tt, final))
          ↔ (Ready × (start ≡ final))
    unfolding withdraw
    other_iff expected_result final not_success not_revert =
        rw (not_success, not_revert)
          (
            λ h. let (r, k) = begins (λ a n. pure tt) h in (r, ap (λ x. x.1) k),
            λ (r, same). continues (λ a n. pure tt) r (rw same refl),
          )

    success_sends :
        {final : C.State}
        → withdraw C env reserve_symbol amount user "success" start ≡ (ok tt, final)
        → (r : Ready) × (receipt : Receipt) × (after : C.State) × (C.send user.signer
              (call_of r)
              start
            ≡ (mined receipt, after))
    unfolding withdraw
    success_sends h =
        let (r, k) = begins _ h in
        let (receipt, after, sent, _) = step_inv (wait_for_tx C user.signer (call_of r)) _ k in
        (r, receipt, after, wait_inv C env user.signer (call_of r) sent)

    same_call : (r q : Ready) → call_of r ≡ call_of q
    same_call r q =
        let action : r.action ≡ q.action = first_inj (sym r.read ∙ q.read) in
        let n : r.n ≡ q.n = first_inj (sym (rw action at r.converted) ∙ q.converted) in
        rw (action, n) refl

    -- A withdrawal of which a revert is expected passes exactly if its data and amount can be read and the
    -- chain then reverts its call, whatever the reason; one of which another result is expected, neither
    -- success nor a revert, passes exactly if they can be read, and sends nothing; and no chain passes both
    -- the withdrawal that is to succeed and the one that is to be reverted.
    pub withdraw_outcomes :
        (expected_result : String) (final other : C.State)
        → str_eq expected_result "success" ≡ false
        → str_eq expected_result "revert" ≡ false
        → ((withdraw C env reserve_symbol amount user "revert" start ≡ (ok tt, final)) ↔ (
            (r : Ready) × (reason : String) × (C.send user.signer (call_of r) start
              ≡ (reverted reason, final))))
          × ((withdraw C env reserve_symbol amount user expected_result start ≡ (ok tt, final))
              ↔ (Ready × (start ≡ final)))
          × (¬ (
              (withdraw C env reserve_symbol amount user "success" start ≡ (ok tt, other))
              × (withdraw C env reserve_symbol amount user "revert" start ≡ (ok tt, final))))
    withdraw_outcomes expected_result final other not_success not_revert = (
      reverted_iff final,
      other_iff expected_result final not_success not_revert,
      λ (passed, failed).
          let (r, receipt, after, was_mined) = success_sends passed in
          let (q, reason, was_reverted) = (reverted_iff final).0 failed in
          let call = same_call r q in not_both (sym (rw call at was_mined) ∙ was_reverted),
    )
