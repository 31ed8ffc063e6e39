-- ===== src/Suite/Reading/Keeps.antt =====
-- The reads of test-suites/helpers/actions.ts and helpers/contracts-helpers.ts, and the state.
use text.Mathlib.Text.{◌==◌ as str_eq}
use kza_lending.Base.{
  ◌≡◌, refl, sym, ap, ◌∙◌, Bool, true, false, Option, none, some, String, if◌then◌else◌,
}
use kza_lending.Base.Result.{Result, ok, err}
use kza_lending.Base.Step.{Step, continue, gets, ◌>>=◌, step_inv}
use kza_lending.Suite.Chain.{
  Chain, Receipt, convert_to_currency_decimals, value_to_send, get_tx_cost_and_timestamp, present,
  present_number,
}
use kza_lending.Suite.Reading.{get_contracts_data}
use kza_lending.Suite.Actions.{Environment, amount_or_max}

-- The call leaves the state as it found it.
pub record Keeps {S A : Type 0} (call : Step S A) : Type 0 where
  pub exact : (before : S) → (call before).1 ≡ before

continue-after :
    {S A B : Type 0} (m : Result A × S) (next : A → Step S B) {before : S}
    → m.1 ≡ before
    → ((a : A) → Keeps (next a))
    → (continue m next).1 ≡ before
continue-after (err e, after) next kept k = kept
continue-after (ok a, after) next kept k = (k a).exact after ∙ kept

>>=-Keeps :
    {S A B : Type 0} (call : Step S A) (next : A → Step S B)
    → Keeps call
    → ((a : A) → Keeps (next a))
    → Keeps (call >>= next)
>>=-Keeps call next k ks = record {
  exact = λ before. continue-after (call before) next (k.exact before) ks;
}

module _ {S A : Type 0} where
  option-Keeps :
      {X : Type 0} (o : Option X) (missing : Step S A) (given : X → Step S A)
      → Keeps missing
      → ((x : X) → Keeps (given x))
      → Keeps (elim o [ none ↦ missing | some x ↦ given x ])
  option-Keeps none missing given k ks = k
  option-Keeps (some x) missing given k ks = ks x

  if-Keeps : (b : Bool) (m n : Step S A) → Keeps m → Keeps n → Keeps (if b then m else n)
  if-Keeps true m n k l = k
  if-Keeps false m n k l = l

  pub Keeps→eq :
      {call : Step S A} {before after : S} {result : Result A}
      → Keeps call
      → call before ≡ (result, after)
      → after ≡ before
  Keeps→eq k h = sym (ap (λ (p : Result A × S). p.1) h) ∙ k.exact _

module _ (C : Chain) where
  pub convert-Keeps :
      (reserve amount : String) → Keeps (convert_to_currency_decimals C reserve amount)
  unfolding convert_to_currency_decimals gets
  convert-Keeps reserve amount = record { exact = λ s. refl }

  pub contracts_data-Keeps :
      (reserve user : String) (sender : Option String)
      → Keeps (get_contracts_data C reserve user sender)
  unfolding get_contracts_data
  contracts_data-Keeps reserve user sender = record { exact = λ s. refl }

  pub value-Keeps :
      (reserve : String) (value : Option String) → Keeps (value_to_send C reserve value)
  unfolding value_to_send
  value-Keeps reserve value =
      option-Keeps (present value) _ _ (record { exact = λ s. refl })
        λ amount.
          >>=-Keeps (convert_to_currency_decimals C reserve amount) _ (convert-Keeps reserve amount)
            λ n. record { exact = λ s. refl }

  pub cost-Keeps : (receipt : Receipt) → Keeps (get_tx_cost_and_timestamp C receipt)
  unfolding get_tx_cost_and_timestamp gets
  cost-Keeps receipt =
      option-Keeps (present_number receipt.block_number) _ _ (record { exact = λ s. refl })
        λ block.
          option-Keeps (present receipt.transaction_hash) _ _ (record { exact = λ s. refl })
            λ hash.
              option-Keeps receipt.cumulative_gas_used _ _ (record { exact = λ s. refl })
                λ gas. record { exact = λ s. refl }

  pub amount_or_max-Keeps :
      (env : Environment C) (reserve amount : String) → Keeps (amount_or_max C env reserve amount)
  unfolding amount_or_max
  amount_or_max-Keeps env reserve amount =
      if-Keeps (str_eq amount "-1") _ _ (record { exact = λ s. refl })
        (convert-Keeps reserve amount)

-- The inversion of a bind whose first call leaves the state.
pub keep_inv :
    {S A B : Type 0} (call : Step S A) (next : A → Step S B) {before final : S} {result : B}
    → Keeps call
    → (call >>= next) before ≡ (ok result, final)
    → (value : A) × (call before ≡ (ok value, before)) × (next value before ≡ (ok result, final))
keep_inv call next kept h =
    let (value, after, given, rest) = step_inv call next h in
    let same = Keeps→eq kept given in (value, rw same at given, rw same at rest)
