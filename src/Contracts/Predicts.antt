-- ===== src/Contracts/Predicts.antt =====
-- How a calculation over `BigNumber` predicts a call of a contract: whatever the call returns, unless
-- it reverts, the calculation gives, read as a signed integer. The rules follow the contract's code.
use kza_lending.Base.{
  ℕ, ◌≡◌, refl, sym, ap, ◌∙◌, Bool, true, false, Option, none, some, arith, ltb, ◌==◌,
  if◌then◌else◌,
}
use kza_lending.Base.Int.{pos, ◌+ℤ◌, ◌-ℤ◌, eqb_ℤ, ltb_ℤ}
use kza_lending.Base.Result
use kza_lending.Base.Result.{Result, ok}
use kza_lending.WadRay.{
  ray_mul, ray_div, wad_to_ray, percent_mul, ray_mul_pos, ray_div_pos, wad_to_ray_pos,
  percent_mul_pos,
}
use kza_lending.Contracts.Words
use kza_lending.Contracts.Words.{checked_add, checked_sub}
use kza_lending.Contracts.FixedPoint.{
  contract_ray_mul, contract_ray_div, contract_wad_to_ray, contract_percent_mul,
  contract_ray_mul-some, contract_ray_div-some, contract_wad_to_ray-some, contract_percent_mul-some,
}

pub record Predicts {ℓ κ} {A : Type ℓ} {B : Type κ} (f : A → B) (n : Result B) (m : Option A)
    : Type (ℓ ⊔ κ) where
  pub exact : (a : A) → m ≡ some a → n ≡ ok (f a)

pub predict {ℓ κ} : {A : Type ℓ} {B : Type κ} (f : A → B) (a : A) → Predicts f (ok (f a)) (some a)
predict f a = record { exact = λ b e. cc }

-- A step of the contract with no counterpart of its own.
pub skip {ℓ κ μ} :
    {A : Type ℓ} {B : Type κ} {C : Type μ} (f : B → C) (m : Option A) (g : A → Option B)
    {n : Result C}
    → ((a : A) → m ≡ some a → Predicts f n (g a))
    → Predicts f n (Words.◌>>=◌ m g)
skip f none g h = record { exact = λ b e. cc }
skip f (some a) g h = h a refl

-- A step that both make.
pub both {ℓ κ μ ν} :
    {A : Type ℓ} {B : Type κ} {C : Type μ} {D : Type ν} (d : A → D) (f : B → C) (m : Option A)
    (g : A → Option B) (n : Result D) (h : D → Result C)
    → Predicts d n m
    → ((a : A) → m ≡ some a → Predicts f (h (d a)) (g a))
    → Predicts f (Result.◌>>=◌ n h) (Words.◌>>=◌ m g)
both d f none g n h p q = record { exact = λ b e. cc }
both d f (some a) g n h p q = record { exact = λ b e. rw (p.exact a refl) ((q a refl).exact b e) }

pub branch {ℓ κ} :
    {A : Type ℓ} {B : Type κ} (f : A → B) (b : Bool) {n₁ n₂ : Result B} {m₁ m₂ : Option A}
    → Predicts f n₁ m₁
    → Predicts f n₂ m₂
    → Predicts f (if b then n₁ else n₂) (if b then m₁ else m₂)
branch f true p q = p
branch f false p q = q

-- The steps.
pub ray_div-Predicts : (a b : ℕ) → Predicts pos (ray_div (pos a) (pos b)) (contract_ray_div a b)
ray_div-Predicts a b = record {
  exact = λ c e.
      let (p, q) = contract_ray_div-some a b e in ray_div_pos a b p ∙ ap (λ x. ok (pos x)) (sym q);
}

pub ray_mul_agrees :
    (a b : ℕ) {c : ℕ} → contract_ray_mul a b ≡ some c → ray_mul (pos a) (pos b) ≡ pos c
ray_mul_agrees a b e = rw (contract_ray_mul-some a b e) (ray_mul_pos a b)

pub percent_mul_agrees :
    (a b : ℕ) {c : ℕ} → contract_percent_mul a b ≡ some c → percent_mul (pos a) (pos b) ≡ pos c
percent_mul_agrees a b e = rw (contract_percent_mul-some a b e) (percent_mul_pos a b)

pub wad_to_ray_agrees :
    (a : ℕ) {c : ℕ} → contract_wad_to_ray a ≡ some c → wad_to_ray (pos a) ≡ pos c
wad_to_ray_agrees a e = rw (contract_wad_to_ray-some a e) (wad_to_ray_pos a)

pub add_agrees : (a b : ℕ) {c : ℕ} → checked_add a b ≡ some c → pos a +ℤ pos b ≡ pos c
unfolding checked_add ◌+ℤ◌
add_agrees a b e = ground arith

pub sub_agrees : (a b : ℕ) {c : ℕ} → checked_sub a b ≡ some c → pos a -ℤ pos b ≡ pos c
unfolding checked_sub ◌-ℤ◌
sub_agrees a b e = ground arith

-- Comparisons of numbers that are not negative.
pub eqb_pos : (a b : ℕ) → eqb_ℤ (pos a) (pos b) ≡ (a == b)
eqb_pos a b = ground arith

pub ltb_pos : (a b : ℕ) → ltb_ℤ (pos a) (pos b) ≡ ltb a b
ltb_pos a b = ground arith

-- A sum that the contract brackets to the right.
pub add_add_agrees :
    (a b c : ℕ) {d e : ℕ}
    → checked_add b c ≡ some d
    → checked_add a d ≡ some e
    → pos a +ℤ pos b +ℤ pos c ≡ pos e
unfolding checked_add ◌+ℤ◌
add_add_agrees a b c h k = ground arith
