-- ===== src/Suite/Engine/Stories.antt =====
-- What a passing story of test-suites/helpers/scenario-engine.ts shows of a deposit among its actions.
use kza_lending.Base.{
  ◌≡◌, refl, sym, ◌∙◌, ◌⊎◌, inl, inr, false, Option, none, some, List, [], ◌∷◌, ◌++◌, String,
}
use kza_lending.Base.Int.{ℤ, pos}
use kza_lending.Base.Result.{Result, ok, err, missing_argument, need, >>=-eq-ok}
use kza_lending.Base.Step.{step_inv, lift_inv, step_ok}
use kza_lending.Calc.Consistent.{some_inj}
use kza_lending.Calc.State.Inversion.{need-eq-ok}
use kza_lending.Suite.Chain.{
  Chain, SignerWithAddress, Transaction, present, convert_to_currency_decimals, value_to_send,
}
use kza_lending.Suite.Actions.{Environment}
use kza_lending.Suite.Actions.Supply.{deposit}
use kza_lending.Suite.Actions.Checked.{Checked}
use kza_lending.Suite.Actions.Checked.Supply.{
  deposit_reserve_calc, deposit_user_calc, deposit-Checked,
}
use kza_lending.Suite.Engine.Numbers.{parse_int}
use kza_lending.Suite.Engine.{
  Action, Args, Request, required, element, request, beneficiary, perform, execute_action,
  execute_actions, next_index,
}

ok_inj {ℓ} : {A : Type ℓ} {a b : A} → Result.ok a ≡ ok b → a ≡ b
ok_inj h = cc

given :
    (o : Option String) {s : String}
    → elim o [ none ↦ err missing_argument | some t ↦ ok t ] ≡ ok s
    → o ≡ some s
given none h = cc
given (some t) h = cc

required_inv : (o : Option String) {s : String} → required o ≡ ok s → present o ≡ some s
required_inv o h = given (present o) h

module _ (C : Chain) (env : Environment C) (secret_keys : List String) where
  story_at :
      (earlier later : List Action) (start : C.State) {final : C.State}
      → execute_actions C env secret_keys (earlier ++ later) start ≡ (ok tt, final)
      → (before : C.State) × (execute_actions C env secret_keys earlier start ≡ (ok tt, before))
        × (execute_actions C env secret_keys later before ≡ (ok tt, final))
  unfolding execute_actions
  story_at [] later start h = (start, refl, h)
  story_at (action ∷ earlier) later start h =
      let (_, middle, passed, rest) = step_inv (execute_action C env secret_keys action) _ h in
      let (before, first, second) = story_at earlier later middle rest in
      (before, step_ok (execute_action C env secret_keys action) _ passed first, second)

  -- Who deposits, for whom, how much and of what: the texts of the action, and the users at the two indexes.
  pub record Asks (action : Action) : Type 0 where
    pub args : Args
    pub args_are : action.args ≡ some args
    pub symbol : String
    pub symbol_is : present args.reserve ≡ some symbol
    pub amount : String
    pub amount_is : present args.amount ≡ some amount
    pub user_index : String
    pub user_index_is : present args.user ≡ some user_index
    pub sender : SignerWithAddress C
    pub sender_is : element env.users (parse_int user_index) ≡ ok sender
    pub receiver : SignerWithAddress C
    pub receiver_is :
        ((present args.on_behalf_of ≡ none) × (receiver ≡ sender))
        ⊎ ((index : String) × (present args.on_behalf_of ≡ some index)
            × (element env.users (parse_int index) ≡ ok receiver))

  -- The deposit that was asked for was mined, and the chain holds what is expected after it.
  abbrev pub Deposited : {action : Action} → Asks action → C.State → C.State → Type 0
  Deposited a before after =
      (reserve : String) × (n : ℤ) × (value : Option ℤ) × (C.reserve_address a.symbol ≡ ok reserve)
      × (convert_to_currency_decimals C reserve a.amount before ≡ (ok n, before))
      × (value_to_send C reserve a.args.send_value before ≡ (ok value, before))
      × Checked C env reserve a.receiver.address (some a.sender.address) a.sender.signer
          (Transaction.deposit reserve n a.receiver.address (pos 0) value) none none
          (deposit_reserve_calc C env n) (deposit_user_calc C env n) before after

  chosen :
      (on_behalf_of : Option String) (user : SignerWithAddress C) {receiver : SignerWithAddress C}
      → elim on_behalf_of [ none ↦ ok user | some index ↦ element env.users (parse_int index) ]
        ≡ ok receiver
      → ((on_behalf_of ≡ none) × (receiver ≡ user))
        ⊎ ((index : String) × (on_behalf_of ≡ some index)
            × (element env.users (parse_int index) ≡ ok receiver))
  chosen none user h = inl (refl, cc)
  chosen (some index) user h = inr (index, refl, h)

  -- What the checks of an action give of a request.
  record Read (action : Action) (r : Request C) : Type 0 where
    args_are : action.args ≡ some r.args
    name_is : present action.name ≡ some r.name
    symbol_is : present r.args.reserve ≡ some r.reserve
    expected_is : present action.expected ≡ some r.expected
    user_index : String
    user_index_is : present r.args.user ≡ some user_index
    user_is : element env.users (parse_int user_index) ≡ ok r.user

  request-Read :
      (action : Action) (r : Request C) → request C env secret_keys action ≡ ok r → Read action r
  unfolding request
  request-Read action r h =
      let (args, args_are, h₁) = >>=-eq-ok (need action.args) _ h in
      let (name, name_is, h₂) = >>=-eq-ok (required action.name) _ h₁ in
      let (reserve, reserve_is, h₃) = >>=-eq-ok (required args.reserve) _ h₂ in
      let (index, index_is, h₄) = >>=-eq-ok (required args.user) _ h₃ in
      let (expected, expected_is, h₅) = >>=-eq-ok (required action.expected) _ h₄ in
      let (key, _, h₆) = >>=-eq-ok (element secret_keys (next_index (parse_int index))) _ h₅ in
      let (user, user_is, h₇) = >>=-eq-ok (element env.users (parse_int index)) _ h₆ in
      rw (sym (ok_inj h₇)) (record {
        args_are = need-eq-ok args_are;
        name_is = required_inv action.name name_is;
        symbol_is = required_inv args.reserve reserve_is;
        expected_is = required_inv action.expected expected_is;
        user_index = index;
        user_index_is = required_inv args.user index_is;
        user_is = user_is;
      })

  -- The case of a deposit.
  perform-deposit :
      (r : Request C) (start : C.State) {final : C.State}
      → r.name ≡ "deposit"
      → perform C env secret_keys r start ≡ (ok tt, final)
      → (receiver : SignerWithAddress C) × (amount : String) × (beneficiary C env secret_keys r
          ≡ ok receiver)
        × (present r.args.amount ≡ some amount)
        × (deposit C env r.reserve amount r.user receiver.address r.args.send_value r.expected start
            ≡ (ok tt, final))
  unfolding perform
  perform-deposit r start named h =
      let (receiver, receiver_is, h₁) =
        lift_inv (beneficiary C env secret_keys r) _ (rw named at h) in
      let (amount, amount_is, h₂) = lift_inv (required r.args.amount) _ h₁ in
      (receiver, amount, receiver_is, required_inv r.args.amount amount_is, h₂)

  deposited :
      (action : Action) (before : C.State) {after : C.State}
      → env.skip_integrity_check ≡ false
      → present action.name ≡ some "deposit"
      → present action.expected ≡ some "success"
      → execute_action C env secret_keys action before ≡ (ok tt, after)
      → (a : Asks action) × Deposited a before after
  unfolding execute_action beneficiary
  deposited action before checked named expected h =
      let (r, requested, h₁) = lift_inv (request C env secret_keys action) _ h in
      let read = request-Read action r requested in
      let is_deposit = some_inj (sym read.name_is ∙ named) in
      let success = some_inj (sym read.expected_is ∙ expected) in
      let (receiver, amount, receiver_is, amount_is, h₂) = perform-deposit r before is_deposit h₁ in
      (
        record {
          args = r.args;
          args_are = read.args_are;
          symbol = r.reserve;
          symbol_is = read.symbol_is;
          amount = amount;
          amount_is = amount_is;
          user_index = read.user_index;
          user_index_is = read.user_index_is;
          sender = r.user;
          sender_is = read.user_is;
          receiver = receiver;
          receiver_is = chosen (present r.args.on_behalf_of) r.user receiver_is;
        },
        deposit-Checked C env r.reserve amount r.user receiver.address r.args.send_value checked
            (rw success at h₂),
      )

  -- Wherever a deposit that is to succeed stands in a story that passes with the integrity check on, the
  -- actions before it have passed and those after it pass from the state that it leaves; and it was one of
  -- the asset and the amount that its texts give, by the user at its index, for that user or for the one at
  -- the index that is given, its call was mined, and every compared value that the chain then holds of the
  -- reserve and of the receiver is the calculated one, a number up to 3.
  pub story_deposit-Checked :
      (earlier later : List Action) (action : Action) (start : C.State) {final : C.State}
      → env.skip_integrity_check ≡ false
      → present action.name ≡ some "deposit"
      → present action.expected ≡ some "success"
      → execute_actions C env secret_keys (earlier ++ action ∷ later) start ≡ (ok tt, final)
      → (before : C.State) × (after : C.State) × (execute_actions C env secret_keys earlier start
          ≡ (ok tt, before))
        × (execute_actions C env secret_keys later after ≡ (ok tt, final))
        × (a : Asks action) × Deposited a before after
  unfolding execute_actions
  story_deposit-Checked earlier later action start checked named expected h =
      let (before, first, h₁) = story_at earlier (action ∷ later) start h in
      let (_, after, passed, rest) = step_inv (execute_action C env secret_keys action) _ h₁ in
      let (a, done) = deposited action before checked named expected passed in
      (before, after, first, rest, a, done)
