-- ===== src/Base/Result.antt =====
-- What a call of the source gives: a value, or the exception that it throws.
use kza_lending.Base.{◌≡◌, refl, Bool, true, false, Option, none, some, if◌then◌else◌}
use kza_lending.Base.Int.{ℤ, pos, ◌/ℤ◌, eqb_ℤ}

pub data Error : Type 0 where
  -- a `BigNumber` divided by 0
  division_by_zero : Error
  -- a failed `expect` of chai
  assertion_failed : Error
  -- an operation on a field that was never assigned
  undefined_read : Error
  -- a reserve that the configuration does not name
  unknown_reserve : Error
  -- a transaction that the chain reverts, where the source awaits its success
  transaction_reverted : Error
  -- a number that ethers cannot read
  invalid_number : Error
  -- `No tx blocknumber`
  no_block_number : Error
  -- an argument that the scenario engine requires
  missing_argument : Error
  -- `Invalid action requested`
  invalid_action : Error
  -- the errors of `matchEvent`
  no_events unknown_event wrong_length unexpected_args event_not_found : Error

pub data Result {ℓ} (A : Type ℓ) : Type ℓ where
  err : Error → Result A
  ok : A → Result A

infixl 5 ◌>>=◌ ◌>>◌
abbrev pub ◌>>=◌ {ℓ κ} : {A : Type ℓ} {B : Type κ} → Result A → (A → Result B) → Result B
err thrown >>= next = err thrown
ok value >>= next = next value

abbrev pub assert : Bool → Result (Unit {0})
assert true = ok tt
assert false = err assertion_failed

-- A statement whose value nothing reads.
abbrev pub ◌>>◌ {ℓ} : {B : Type ℓ} → Result (Unit {0}) → Result B → Result B
statement >> rest = statement >>= λ _. rest

-- Reading a field of an object under construction; `none` is `undefined`.
abbrev pub need {ℓ} : {A : Type ℓ} → Option A → Result A
need none = err undefined_read
need (some a) = ok a

-- `a.div(b)` of a `BigNumber`.
unfoldable pub div : ℤ → ℤ → Result ℤ
div a b = if eqb_ℤ b (pos 0) then err division_by_zero else ok (a /ℤ b)

-- A call that returns has returned from its first part, and the rest from there.
pub >>=-eq-ok {ℓ κ} :
    {A : Type ℓ} {B : Type κ} (call : Result A) (next : A → Result B) {result : B}
    → (call >>= next) ≡ ok result
    → (value : A) × (call ≡ ok value) × (next value ≡ ok result)
>>=-eq-ok (err thrown) next h = cc
>>=-eq-ok (ok value) next h = (value, refl, h)

-- Whatever the call returns, unless it throws, has the property.
pub record Ensures {ℓ κ} {A : Type ℓ} (P : A → Type κ) (m : Result A) : Type (ℓ ⊔ κ) where
  pub exact : (a : A) → m ≡ ok a → P a

-- The property is about the last step.
pub after {ℓ κ μ} :
    {A : Type ℓ} {B : Type κ} (P : B → Type μ) (m : Result A) (f : A → Result B)
    → ((a : A) → m ≡ ok a → Ensures P (f a))
    → Ensures P (m >>= f)
after P (ok a) f h = h a refl
after P (err e) f h = record { exact = λ b k. cc }

pub either {ℓ κ} :
    {A : Type ℓ} (P : A → Type κ) (b : Bool) {m n : Result A}
    → Ensures P m
    → Ensures P n
    → Ensures P (if b then m else n)
either P true p q = p
either P false p q = q
