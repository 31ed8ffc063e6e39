-- ===== src/Contracts/FixedPoint.antt =====
-- The libraries WadRayMath and PercentageMath of contracts/protocol/libraries/math. Their assembly
-- tests for an overflow and then computes modulo 2^256; `none` is a revert.
pub mod Agree
use native.Mathlib.Nat.{le-div_iff_mul-le, div-eq_of_lt}
use kza_lending.Base.{
  ℕ, ◌+◌, ◌-◌, ◌*◌, ◌/◌, ◌%◌, ◌≤◌, ◌<◌, ◌≡◌, Option, none, some, arith, ltb, leb, ◌==◌, ◌||◌, ◌&&◌,
  if◌then◌else◌, Bool-cases, inl, inr,
}
use kza_lending.WadRay.{nat_ray, nat_half_ray, nat_ray_mul, nat_ray_div, nat_percent_mul}
use kza_lending.Contracts.Words.{Gives, word, max_uint}

-- `WadRayMath.rayMul`
unfoldable pub contract_ray_mul : ℕ → ℕ → Option ℕ
contract_ray_mul a b =
    if b == 0 || leb a ((max_uint - nat_half_ray) / b)
    then some ((a * b % word + nat_half_ray) % word / nat_ray)
    else none

-- `WadRayMath.rayDiv`
unfoldable pub contract_ray_div : ℕ → ℕ → Option ℕ
contract_ray_div a b =
    if b == 0 || ltb ((max_uint - b / 2) / nat_ray) a
    then none
    else some ((a * nat_ray % word + b / 2) % word / b)

-- `WadRayMath.wadToRay`
unfoldable pub contract_wad_to_ray : ℕ → Option ℕ
contract_wad_to_ray a =
    let b = a * 1000000000 % word in if b / 1000000000 == a then some b else none

-- `WadRayMath.rayToWad`, which cannot revert.
unfoldable pub contract_ray_to_wad : ℕ → ℕ
contract_ray_to_wad a =
    let b = a / 1000000000 in
    let remainder = a % 1000000000 in if ltb remainder (1000000000 / 2) then b else (b + 1) % word

-- `PercentageMath.percentMul`
unfoldable pub contract_percent_mul : ℕ → ℕ → Option ℕ
contract_percent_mul value percentage =
    if percentage == 0 || leb value ((max_uint - 5000) / percentage)
    then some ((value * percentage % word + 5000) % word / 10000)
    else none

-- A product that passes the test of an overflow fits with the half added.
fits : (a b half : ℕ) → half ≤ max_uint → a ≤ (max_uint - half) / b → 0 < b → a * b + half < word
fits a b half small h p = let le = (le-div_iff_mul-le p).0 h in omega arith

fits_not :
    (a b half : ℕ) → half ≤ max_uint → (max_uint - half) / b < a → 0 < b → word ≤ a * b + half
fits_not a b half small h p = elim (Bool-cases (ltb (a * b + half) word)) [
  | inl room ↦
      let le : a * b ≤ max_uint - half = ground arith in
      absurd (let q = (le-div_iff_mul-le p).1 le in omega arith)
  | inr none_left ↦ ground arith
]

wraps_not : (x half : ℕ) → x + half < word → (x % word + half) % word ≡ x + half
wraps_not x half h = omega arith

-- The assembly returns the rounded product exactly when it fits a word, and reverts otherwise.
pub contract_ray_mul_lem :
    (a b : ℕ)
    → contract_ray_mul a b
      ≡ (if ltb (a * b + nat_half_ray) word then some (nat_ray_mul a b) else none)
unfolding contract_ray_mul nat_ray_mul
contract_ray_mul_lem a b = elim (Bool-cases (b == 0)) [
  | inl z ↦ let e : b ≡ 0 = ground arith in rw e (ground arith)
  | inr nz ↦
      let p : 0 < b = ground arith in
      elim (Bool-cases (leb a ((max_uint - nat_half_ray) / b))) [
        | inl small ↦
            let room = fits a b nat_half_ray (omega arith) (ground arith) p in ground arith
        | inr large ↦
            let no_room = fits_not a b nat_half_ray (omega arith) (ground arith) p in ground arith
      ]
]

pub contract_percent_mul_lem :
    (a b : ℕ)
    → contract_percent_mul a b
      ≡ (if ltb (a * b + 5000) word then some (nat_percent_mul a b) else none)
unfolding contract_percent_mul nat_percent_mul
contract_percent_mul_lem a b = elim (Bool-cases (b == 0)) [
  | inl z ↦ let e : b ≡ 0 = ground arith in rw e (ground arith)
  | inr nz ↦
      let p : 0 < b = ground arith in
      elim (Bool-cases (leb a ((max_uint - 5000) / b))) [
        | inl small ↦ let room = fits a b 5000 (omega arith) (ground arith) p in ground arith
        | inr large ↦ let no_room = fits_not a b 5000 (omega arith) (ground arith) p in ground arith
      ]
]

pub contract_ray_div_lem :
    (a b : ℕ)
    → b < word
    → contract_ray_div a b
      ≡ (if ltb 0 b && ltb (a * nat_ray + b / 2) word then some (nat_ray_div a b) else none)
unfolding contract_ray_div nat_ray_div
contract_ray_div_lem a b h = ground arith

pub contract_ray_div-some :
    (a b : ℕ) {c : ℕ} → contract_ray_div a b ≡ some c → (0 < b) × (c ≡ nat_ray_div a b)
unfolding contract_ray_div nat_ray_div
contract_ray_div-some a b {c} h = elim (Bool-cases (ltb b word)) [
  | inl small ↦ ground (arith, contract_ray_div_lem a b)
  | inr large ↦ ground (
    arith,
    div-eq_of_lt {n = b / 2 + a * nat_ray} {m = b},
    div-eq_of_lt {n = (a * nat_ray % word + b / 2) % word} {m = b},
  )
]

pub contract_wad_to_ray-some : (a : ℕ) {c : ℕ} → contract_wad_to_ray a ≡ some c → c ≡ a * 1000000000
unfolding contract_wad_to_ray
contract_wad_to_ray-some a h = ground arith

pub contract_ray_mul-some : (a b : ℕ) {c : ℕ} → contract_ray_mul a b ≡ some c → c ≡ nat_ray_mul a b
contract_ray_mul-some a b h = ground (arith, contract_ray_mul_lem a b)

pub contract_percent_mul-some :
    (a b : ℕ) {c : ℕ} → contract_percent_mul a b ≡ some c → c ≡ nat_percent_mul a b
contract_percent_mul-some a b h = ground (arith, contract_percent_mul_lem a b)

pub ray_mul_Gives : (a b : ℕ) → Gives (contract_ray_mul a b) (nat_ray_mul a b)
ray_mul_Gives a b = record { exact = λ c. contract_ray_mul-some a b }

pub ray_div_Gives : (a b : ℕ) → Gives (contract_ray_div a b) (nat_ray_div a b)
ray_div_Gives a b = record { exact = λ c h. (contract_ray_div-some a b h).1 }

pub wad_to_ray_Gives : (a : ℕ) → Gives (contract_wad_to_ray a) (a * 1000000000)
wad_to_ray_Gives a = record { exact = λ c. contract_wad_to_ray-some a }

pub percent_mul_Gives : (a b : ℕ) → Gives (contract_percent_mul a b) (nat_percent_mul a b)
percent_mul_Gives a b = record { exact = λ c. contract_percent_mul-some a b }

pub ray_mul_fits :
    (a b : ℕ) → a * b + nat_half_ray < word → contract_ray_mul a b ≡ some (nat_ray_mul a b)
ray_mul_fits a b h = ground (arith, contract_ray_mul_lem a b)
