-- ===== src/Base/Step.antt =====
-- A call of the source that reads and changes a state outside it: what it gives, and the state that it
-- leaves, also after an exception.
use kza_lending.Base.{◌≡◌, refl, Bool, true, false}
use kza_lending.Base.Result.{Result, Error, ok, err}

abbrev pub Step : Type 0 → Type 0 → Type 0
Step S A = S → Result A × S

module _ {S A : Type 0} where
  abbrev pub pure : A → Step S A
  pure value state = (ok value, state)

  abbrev pub throw : Error → Step S A
  throw thrown state = (err thrown, state)

  -- A computation that does not look at the state.
  abbrev pub lift : Result A → Step S A
  lift result state = (result, state)

  -- A read.
  unfoldable pub gets : (S → A) → Step S A
  gets read state = (ok (read state), state)

-- An exception skips the rest.
abbrev pub continue : {S A B : Type 0} → Result A × S → (A → Step S B) → Result B × S
continue (err thrown, after) next = (err thrown, after)
continue (ok value, after) next = next value after

infixl 5 ◌>>=◌ ◌>>◌
abbrev pub ◌>>=◌ : {S A B : Type 0} → Step S A → (A → Step S B) → Step S B
◌>>=◌ call next before = continue (call before) next

abbrev pub ◌>>◌ : {S B : Type 0} → Step S (Unit {0}) → Step S B → Step S B
call >> rest = call >>= λ _. rest

abbrev pub when : {S : Type 0} → Bool → Step S (Unit {0}) → Step S (Unit {0})
when true call = call
when false call = pure tt

returned :
    {S A B : Type 0} (m : Result A × S) (next : A → Step S B) {final : S} {result : B}
    → continue m next ≡ (ok result, final)
    → (value : A) × (after : S) × (m ≡ (ok value, after)) × (next value after ≡ (ok result, final))
returned (err e, after) next h = cc
returned (ok a, after) next h = (a, after, refl, h)

-- A call that returns has returned from its first part, and the rest from there.
pub step_inv :
    {S A B : Type 0} (call : Step S A) (next : A → Step S B) {before final : S} {result : B}
    → (call >>= next) before ≡ (ok result, final)
    → (value : A) × (after : S) × (call before ≡ (ok value, after))
      × (next value after ≡ (ok result, final))
step_inv call next {before} h = returned (call before) next h

-- The same for a computation that does not look at the state.
pub lift_inv :
    {S A B : Type 0} (m : Result A) (next : A → Step S B) {before final : S} {result : B}
    → (lift m >>= next) before ≡ (ok result, final)
    → (value : A) × (m ≡ ok value) × (next value before ≡ (ok result, final))
lift_inv (err e) next h = cc
lift_inv (ok a) next h = (a, refl, h)

-- A read gives what it reads, and leaves the state.
pub gets_inv :
    {S A B : Type 0} (read : S → A) (next : A → Step S B) {before final : S} {result : B}
    → (gets read >>= next) before ≡ (ok result, final)
    → next (read before) before ≡ (ok result, final)
unfolding gets
gets_inv read next h = h

-- A call that returns goes on with the rest.
pub step_ok :
    {S A B : Type 0} (call : Step S A) (next : A → Step S B) {before after : S} {value : A}
    {result : Result B × S}
    → call before ≡ (ok value, after)
    → next value after ≡ result
    → (call >>= next) before ≡ result
step_ok call next h k = rw h k

pub lift_ok :
    {S A B : Type 0} (m : Result A) (next : A → Step S B) {before : S} {value : A}
    {result : Result B × S}
    → m ≡ ok value
    → next value before ≡ result
    → (lift m >>= next) before ≡ result
lift_ok m next h k = rw h k
