-- ===== src/Suite/Engine/Refused.antt =====
-- Actions that test-suites/helpers/scenario-engine.ts refuses.
use kza_lending.Base.{◌≡◌, refl, sym, ap, ◌∙◌, Option, none, some, List, String}
use kza_lending.Base.Result.{Result, Error, ok, err, need, ◌>>=◌, missing_argument}
use kza_lending.Suite.Chain.{Chain, present}
use kza_lending.Suite.Actions.{Environment}
use kza_lending.Suite.Engine.{Action, Args, required, request, execute_action}

-- The arguments that every action needs: the ones that the engine checks before it looks at the name.
pub data IsIncomplete (action : Action) : Type 0 where
  no_args : action.args ≡ none → IsIncomplete action
  no_name : present action.name ≡ none → IsIncomplete action
  no_expected : present action.expected ≡ none → IsIncomplete action
  no_reserve :
      (args : Args) → action.args ≡ some args → present args.reserve ≡ none → IsIncomplete action
  no_user : (args : Args) → action.args ≡ some args → present args.user ≡ none → IsIncomplete action

-- The result is an exception.
abbrev pub Throws {ℓ} : {A : Type ℓ} → Result A → Type ℓ
Throws {A} m = (thrown : Error) × (m ≡ err thrown)

fail_first : {A B : Type 0} (m : Result A) (f : A → Result B) → Throws m → Throws (m >>= f)
fail_first m f (e, h) = (e, rw h refl)

fail_then :
    {A B : Type 0} (m : Result A) (f : A → Result B)
    → ((a : A) → m ≡ ok a → Throws (f a))
    → Throws (m >>= f)
fail_then (err e) f h = (e, refl)
fail_then (ok a) f h = h a refl

required-none : (o : Option String) → present o ≡ none → Throws (required o)
required-none o h = (missing_argument, rw (h, required) refl)

need-none : {A : Type 0} (o : Option A) → o ≡ none → Throws (need o)
need-none o h = rw h (_, refl)

need-some : {A : Type 0} {o : Option A} {a b : A} → o ≡ some b → need o ≡ ok a → b ≡ a
need-some {o = none} h k = cc
need-some {o = some c} h k = cc

module _ (C : Chain) (env : Environment C) (secret_keys : List String) (action : Action) where
  request-Throws : IsIncomplete action → Throws (request C env secret_keys action)
  unfolding request
  request-Throws (no_args h) = fail_first (need action.args) _ (need-none action.args h)
  request-Throws (no_name h) =
      fail_then (need action.args) _
        λ args _. fail_first (required action.name) _ (required-none action.name h)
  request-Throws (no_reserve args given h) = fail_then (need action.args) _ λ a is_a.
      fail_then (required action.name) _ λ name _.
        fail_first (required a.reserve) _
          (required-none a.reserve (ap (λ x. present x.reserve) (sym (need-some given is_a)) ∙ h))
  request-Throws (no_user args given h) = fail_then (need action.args) _ λ a is_a.
      fail_then (required action.name) _ λ name _. fail_then (required a.reserve) _ λ reserve _.
        fail_first (required a.user) _
          (required-none a.user (ap (λ x. present x.user) (sym (need-some given is_a)) ∙ h))
  request-Throws (no_expected h) = fail_then (need action.args) _ λ a _.
      fail_then (required action.name) _ λ name _. fail_then (required a.reserve) _ λ reserve _.
        fail_then (required a.user) _
          λ user _. fail_first (required action.expected) _ (required-none action.expected h)

  -- An action without arguments, or whose name, reserve, user or expected result is absent or empty, throws,
  -- whatever it is called, and leaves the chain as it was.
  pub incomplete_refused :
      (s : C.State)
      → IsIncomplete action
      → (thrown : Error) × (execute_action C env secret_keys action s ≡ (err thrown, s))
  unfolding execute_action
  incomplete_refused s incomplete =
      let (thrown, h) = request-Throws incomplete in (thrown, rw h refl)
