-- ===== src/WadRay/Natural.antt =====
-- The methods on numbers that are not negative, as the same formulas over ℕ, and the laws of those.
use native.Mathlib.Nat.{mul-le-mul}
use kza_lending.Base.{ℕ, ◌+◌, ◌*◌, ◌/◌, ◌≤◌, ◌<◌, ◌≡◌, arith}
use kza_lending.Base.Int.{pos, pos-add, pos-mul, pos-div}
use kza_lending.Base.Result.{ok}
use kza_lending.WadRay.Defs.{ray_mul, ray_div, percent_mul, wad_to_ray, ray_to_wad}

abbrev pub nat_ray : ℕ
nat_ray = 1000000000000000000000000000

abbrev pub nat_half_ray : ℕ
nat_half_ray = 500000000000000000000000000

unfoldable pub nat_ray_mul : ℕ → ℕ → ℕ
nat_ray_mul a b = (nat_half_ray + a * b) / nat_ray

unfoldable pub nat_ray_div : ℕ → ℕ → ℕ
nat_ray_div a b = (b / 2 + a * nat_ray) / b

unfoldable pub nat_percent_mul : ℕ → ℕ → ℕ
nat_percent_mul a b = (5000 + a * b) / 10000

pub ray_mul_pos : (a b : ℕ) → ray_mul (pos a) (pos b) ≡ pos (nat_ray_mul a b)
unfolding ray_mul nat_ray_mul
ray_mul_pos a b = rw (pos-mul, pos-add, pos-div)

pub percent_mul_pos : (a b : ℕ) → percent_mul (pos a) (pos b) ≡ pos (nat_percent_mul a b)
unfolding percent_mul nat_percent_mul
percent_mul_pos a b = rw (pos-mul, pos-add, pos-div)

pub wad_to_ray_pos : (a : ℕ) → wad_to_ray (pos a) ≡ pos (a * 1000000000)
unfolding wad_to_ray
wad_to_ray_pos a = rw pos-mul

pub ray_to_wad_pos : (a : ℕ) → ray_to_wad (pos a) ≡ pos ((500000000 + a) / 1000000000)
unfolding ray_to_wad
ray_to_wad_pos a = rw (pos-div, pos-add, pos-div)

pub ray_div_pos : (a b : ℕ) → 0 < b → ray_div (pos a) (pos b) ≡ ok (pos (nat_ray_div a b))
unfolding ray_div nat_ray_div
ray_div_pos a b h = simp (pos-div, pos-mul, pos-add) (ground arith)

-- Laws of the formulas.
pub nat_ray_mul_one : (a : ℕ) → nat_ray_mul nat_ray a ≡ a
unfolding nat_ray_mul
nat_ray_mul_one a = omega arith

pub nat_ray_mul_comm : (a b : ℕ) → nat_ray_mul a b ≡ nat_ray_mul b a
unfolding nat_ray_mul
nat_ray_mul_comm a b = omega arith

pub nat_ray_mul_mono : (a b c d : ℕ) → a ≤ c → b ≤ d → nat_ray_mul a b ≤ nat_ray_mul c d
unfolding nat_ray_mul
nat_ray_mul_mono a b c d p q = omega (arith, mul-le-mul p q)

-- A factor of at least one ray does not lower a number.
pub le-nat_ray_mul : (a b : ℕ) → nat_ray ≤ a → b ≤ nat_ray_mul a b
le-nat_ray_mul a b h =
    omega (arith, nat_ray_mul_one b, nat_ray_mul_mono nat_ray b a b h (omega arith))

-- A factor of at most one ray does not raise a number.
pub nat_ray_mul-le : (a b : ℕ) → b ≤ nat_ray → nat_ray_mul a b ≤ a
nat_ray_mul-le a b h = omega (
  arith,
  nat_ray_mul_one a,
  nat_ray_mul_comm a nat_ray,
  nat_ray_mul_mono a b a nat_ray (omega arith) h,
)
