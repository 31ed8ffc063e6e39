-- ===== src/Suite/Engine.antt =====
-- The engine of the scenarios, test-suites/helpers/scenario-engine.ts: stories of actions, and what one
-- action calls. A text that an action has not got is absent, as is an empty one. A user whom the list
-- has not got is `undefined`, and throws where an action first uses it: before any transaction, though a
-- repayment for another user may have travelled in time by then. Here it throws at the call of the action.
pub mod Numbers
pub mod Stories
pub mod Refused
use text.Mathlib.Text.{◌==◌ as str_eq}
use kza_lending.Base.{ℕ, Bool, Option, none, some, List, [], ◌∷◌, String, if◌then◌else◌}
use kza_lending.Base.Int.{ℤ, pos, negsuc, ◌+ℤ◌}
use kza_lending.Base.Result.{
  Result, ok, err, need, undefined_read, missing_argument, invalid_action, ◌>>=◌ as bind,
}
use kza_lending.Base.Step.{Step, pure, throw, lift, ◌>>=◌, ◌>>◌}
use kza_lending.Calc.Config.{get_elem?}
use kza_lending.Suite.Chain.{Chain, SignerWithAddress, present}
use kza_lending.Suite.Engine.Numbers.{parse_int, parse_decimal}
use kza_lending.Suite.Actions.{Environment, mint, approve, delegate_borrow_allowance}
use kza_lending.Suite.Actions.Supply.{deposit, supply_with_permit, withdraw}
use kza_lending.Suite.Actions.Borrow.{borrow}
use kza_lending.Suite.Actions.Repay.{repay, repay_with_permit}
use kza_lending.Suite.Actions.Modes.{
  set_use_as_collateral, swap_borrow_rate_mode, rebalance_stable_borrow_rate,
}

-- The fields of `action.args` that the engine reads.
pub record Args : Type 0 where
  pub reserve : Option String
  pub user : Option String
  pub borrow_rate_mode : Option String
  pub amount : Option String
  pub send_value : Option String
  pub on_behalf_of : Option String
  pub to_user : Option String
  pub time_travel : Option String
  pub use_as_collateral : Option String
  pub target : Option String

pub record Action : Type 0 where
  pub name : Option String
  pub args : Option Args
  pub expected : Option String
  pub revert_message : Option String

pub record Story : Type 0 where
  pub description : String
  pub actions : List Action

pub record Scenario : Type 0 where
  pub title : String
  pub description : String
  pub stories : List Story

-- `if (!value || value === '') { throw ... }`
abbrev pub required : Option String → Result String
required value = elim (present value) [ none ↦ err missing_argument | some s ↦ ok s ]

-- The rate mode of an action; '4' tests an improper one.
unfoldable pub rate_mode : Option String → String
rate_mode borrow_rate_mode = elim (present borrow_rate_mode) [
  | none ↦ "0"
  | some mode ↦
      if str_eq mode "none"
      then "0"
      else (if str_eq mode "stable" then "1" else (if str_eq mode "variable" then "2" else "4"))
]

-- An element of an array, at an index that may be `NaN`.
unfoldable pub element {ℓ} : {A : Type ℓ} → List A → Option ℤ → Result A
element xs none = err undefined_read
element xs (some (negsuc i)) = err undefined_read
element xs (some (pos i)) = need (get_elem? xs i)

abbrev decimal_index : Option String → Option ℤ
decimal_index none = none
decimal_index (some s) = parse_decimal s

abbrev pub next_index : Option ℤ → Option ℤ
next_index none = none
next_index (some i) = some (i +ℤ pos 1)

-- What every action of a story needs, read and checked in the source's order.
pub record Request (C : Chain) : Type 0 where
  pub args : Args
  pub name : String
  pub reserve : String
  pub expected : String
  pub mode : String
  pub user : SignerWithAddress C
  pub private_key : String
  pub revert_message : Option String

-- The secret keys of `test-wallets.js`.
module _ (C : Chain) (env : Environment C) (secret_keys : List String) where
  -- The checks at the beginning of `executeAction`.
  unfoldable pub request : Action → Result (Request C)
  unfolding rate_mode element parse_int
  request action = bind (need action.args) λ args. bind (required action.name) λ name.
      bind (required args.reserve) λ reserve. bind (required args.user) λ user_index.
        bind (required action.expected) λ expected.
          bind (element secret_keys (next_index (parse_int user_index))) λ key.
            bind (element env.users (parse_int user_index)) λ user. ok (record {
              args = args;
              name = name;
              reserve = reserve;
              expected = expected;
              mode = rate_mode args.borrow_rate_mode;
              user = user;
              private_key = key;
              revert_message = action.revert_message;
            })

  -- `onBehalfOfIndex ? users[parseInt(onBehalfOfIndex)] : user`
  unfoldable pub beneficiary : Request C → Result (SignerWithAddress C)
  unfolding element parse_int
  beneficiary r = elim (present r.args.on_behalf_of) [
    | none ↦ ok r.user
    | some index ↦ element env.users (parse_int index)
  ]

  -- The cases of the switch. Where a case reads the beneficiary before its amount, so does this.
  unfoldable pub perform : Request C → Step C.State (Unit {0})
  unfolding beneficiary element parse_int parse_decimal mint approve deposit supply_with_permit
      delegate_borrow_allowance withdraw borrow repay repay_with_permit set_use_as_collateral
      swap_borrow_rate_mode rebalance_stable_borrow_rate
  perform r =
      let is : String → Bool = λ name. str_eq r.name name in
      if is "mint"
      then (do amount ← lift (required r.args.amount); mint C env r.reserve amount r.user)
      else (if is "approve"
          then approve C env r.reserve r.user
          else (if is "deposit"
              then (do
                on_behalf_of ← lift (beneficiary r)
                amount ← lift (required r.args.amount)
                deposit C env r.reserve amount r.user on_behalf_of.address r.args.send_value
                    r.expected)
              else (if is "supplyWithPermit"
                  then (do
                    on_behalf_of ← lift (beneficiary r)
                    amount ← lift (required r.args.amount)
                    supply_with_permit C env r.reserve amount r.user r.private_key
                        on_behalf_of.address r.args.send_value r.expected)
                  else (if is "delegateBorrowAllowance"
                      then (do
                        to_user ← lift (element env.users (decimal_index r.args.to_user))
                        amount ← lift (required r.args.amount)
                        delegate_borrow_allowance C env r.reserve amount r.mode r.user
                            to_user.address r.expected r.revert_message)
                      else (if is "withdraw"
                          then (do
                            amount ← lift (required r.args.amount)
                            withdraw C env r.reserve amount r.user r.expected)
                          else (if is "borrow"
                              then (do
                                on_behalf_of ← lift (beneficiary r)
                                amount ← lift (required r.args.amount)
                                borrow C env r.reserve amount r.mode r.user on_behalf_of.address
                                    r.args.time_travel r.expected)
                              else (if is "repay"
                                  then (do
                                    amount ← lift (required r.args.amount)
                                    on_behalf_of ← lift (beneficiary r)
                                    repay C env r.reserve amount r.mode r.user on_behalf_of
                                        r.args.send_value r.expected r.args.time_travel)
                                  else (if is "repayWithPermit"
                                      then (do
                                        amount ← lift (required r.args.amount)
                                        on_behalf_of ← lift (beneficiary r)
                                        repay_with_permit C env r.reserve amount r.mode r.user
                                            r.private_key on_behalf_of r.args.send_value r.expected)
                                      else (if is "setUseAsCollateral"
                                          then (do
                                            use_as_collateral ←
                                                lift (required r.args.use_as_collateral)
                                            set_use_as_collateral C env r.reserve r.user
                                                use_as_collateral r.expected)
                                          else (if is "swapBorrowRateMode"
                                              then swap_borrow_rate_mode C env r.reserve r.user
                                                  r.mode r.expected
                                              else (if is "rebalanceStableBorrowRate"
                                                  then (do
                                                    index ← lift (required r.args.target)
                                                    target ←
                                                        lift (element env.users (parse_int index))
                                                    rebalance_stable_borrow_rate C env r.reserve
                                                        r.user target r.expected)
                                                  else throw invalid_action)))))))))))

  unfoldable pub execute_action : Action → Step C.State (Unit {0})
  unfolding request perform
  execute_action action = do r ← lift (request action); perform r

  -- One action after the other; an exception ends the story.
  unfoldable pub execute_actions : List Action → Step C.State (Unit {0})
  unfolding execute_action
  execute_actions [] = pure tt
  execute_actions (action ∷ actions) = execute_action action >> execute_actions actions

  unfoldable pub execute_story : Story → Step C.State (Unit {0})
  unfolding execute_actions
  execute_story story = execute_actions story.actions
