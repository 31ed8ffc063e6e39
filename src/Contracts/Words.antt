-- ===== src/Contracts/Words.antt =====
-- Words of 256 bits and the checked arithmetic of Solidity 0.8, where `none` is a revert.
use kza_lending.Base.{
  ℕ, ◌+◌, ◌-◌, ◌*◌, ◌≤◌, ◌<◌, ◌≡◌, refl, sym, ap, ◌∙◌, Bool, true, false, Option, none, some, arith,
  ltb, leb, if◌then◌else◌,
}

-- 2^256
abbrev pub word : ℕ
word = 115792089237316195423570985008687907853269984665640564039457584007913129639936

abbrev pub max_uint : ℕ
max_uint = 115792089237316195423570985008687907853269984665640564039457584007913129639935

infixl 5 ◌>>=◌ ◌>>◌
abbrev pub ◌>>=◌ {ℓ κ} : {A : Type ℓ} {B : Type κ} → Option A → (A → Option B) → Option B
some a >>= f = f a
none >>= f = none

abbrev pub ◌>>◌ {ℓ} : {B : Type ℓ} → Option (Unit {0}) → Option B → Option B
m >> k = m >>= λ _. k

unfoldable pub checked_add : ℕ → ℕ → Option ℕ
checked_add a b = if ltb (a + b) word then some (a + b) else none

unfoldable pub checked_sub : ℕ → ℕ → Option ℕ
checked_sub a b = if leb b a then some (a - b) else none

unfoldable pub checked_mul : ℕ → ℕ → Option ℕ
checked_mul a b = if ltb (a * b) word then some (a * b) else none

-- Whatever the call returns, if it does not revert, is the given value.
pub record Gives {ℓ} {A : Type ℓ} (m : Option A) (v : A) : Type ℓ where
  pub exact : (c : A) → m ≡ some c → c ≡ v

pub give {ℓ} : {A : Type ℓ} {v : A} → Gives (some v) v
give = record { exact = λ c h. cc }

pub chain {ℓ κ} :
    {A : Type ℓ} {B : Type κ} (m : Option A) (f : A → Option B) {v : A} {w : B}
    → Gives m v
    → Gives (f v) w
    → Gives (m >>= f) w
chain none f g h = record { exact = λ c e. cc }
chain (some a) f g h = record { exact = λ c e. h.exact c (ap f (sym (g.exact a refl)) ∙ e) }

pub checked_add-Gives : (a b : ℕ) → Gives (checked_add a b) (a + b)
unfolding checked_add
checked_add-Gives a b = record { exact = λ c h. ground arith }

pub checked_mul-Gives : (a b : ℕ) → Gives (checked_mul a b) (a * b)
unfolding checked_mul
checked_mul-Gives a b = record { exact = λ c h. ground arith }

pub checked_sub-Gives : (a b : ℕ) → Gives (checked_sub a b) (a - b)
unfolding checked_sub
checked_sub-Gives a b = record { exact = λ c h. ground arith }

pub weaken {ℓ} : {A : Type ℓ} {m : Option A} {v w : A} → Gives m v → v ≡ w → Gives m w
weaken g e = record { exact = λ c h. g.exact c h ∙ e }

-- The calls that return.
pub checked_add_fits : (a b : ℕ) → a + b < word → checked_add a b ≡ some (a + b)
unfolding checked_add
checked_add_fits a b h = ground arith

pub checked_mul_fits : (a b : ℕ) → a * b < word → checked_mul a b ≡ some (a * b)
unfolding checked_mul
checked_mul_fits a b h = ground arith

pub checked_sub_fits : (a b : ℕ) → b ≤ a → checked_sub a b ≡ some (a - b)
unfolding checked_sub
checked_sub_fits a b h = ground arith

pub chain_fits {ℓ κ} :
    {A : Type ℓ} {B : Type κ} (m : Option A) (f : A → Option B) {v : A} {w : Option B}
    → m ≡ some v
    → f v ≡ w
    → (m >>= f) ≡ w
chain_fits m f e h = rw e h

pub if_Gives {ℓ} :
    {A : Type ℓ} (b : Bool) {m n : Option A} {v w : A}
    → Gives m v
    → Gives n w
    → Gives (if b then m else n) (if b then v else w)
if_Gives true g h = g
if_Gives false g h = h
