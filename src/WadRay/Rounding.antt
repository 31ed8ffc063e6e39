-- ===== src/WadRay/Rounding.antt =====
-- How far test-suites/helpers/utils/wadraymath.ts rounds, on numbers that are not negative.
use native.Mathlib.Nat.{
  div-mul-le_self, lt-div-mul-add, le-div_iff_mul-le, div-eq_of_lt-le, div-lt_iff_lt-mul,
}
use kza_lending.Base.{
  ℕ, zero, suc, refl, ◌+◌, ◌*◌, ◌/◌, ◌≤◌, ◌<◌, ◌≡◌, arith, ap, inl, inr, Bool-cases, ◌==◌,
}
use kza_lending.Base.Int.{pos}
use kza_lending.Base.Result.{ok, ◌>>=◌}
use kza_lending.WadRay.Defs.{ray_mul, ray_div, wad_to_ray, ray_to_wad}
use kza_lending.WadRay.Natural.{
  nat_ray, nat_half_ray, nat_ray_mul, nat_ray_div, nat_percent_mul, ray_mul_pos, ray_div_pos,
  wad_to_ray_pos, ray_to_wad_pos, nat_ray_mul_comm, nat_ray_mul_one,
}

pub nat_ray_mul_bounds :
    (a b : ℕ)
    → (nat_ray_mul a b * nat_ray ≤ a * b + nat_half_ray)
      × (a * b + nat_half_ray < nat_ray_mul a b * nat_ray + nat_ray)
unfolding nat_ray_mul
nat_ray_mul_bounds a b = omega arith

pub nat_ray_div_bounds :
    (a b : ℕ)
    → 0 < b
    → (nat_ray_div a b * b ≤ a * nat_ray + b / 2) × (a * nat_ray + b / 2 < nat_ray_div a b * b + b)
unfolding nat_ray_div
nat_ray_div_bounds a b h =
    omega
      (arith, div-mul-le_self (b / 2 + a * nat_ray) b, lt-div-mul-add {a = b / 2 + a * nat_ray} h)

-- A multiple of b that is at most half of it is 0.
zero_of_mul : (q b : ℕ) → 0 < b → q * b ≤ b / 2 → q ≡ 0
zero_of_mul zero b h k = refl
zero_of_mul (suc q) b h k = absurd (omega arith)

-- The quotient is the largest number that fits, and below every number that does not.
pub nat_ray_div_greatest : (a b q : ℕ) → 0 < b → q * b ≤ a * nat_ray + b / 2 → q ≤ nat_ray_div a b
unfolding nat_ray_div
nat_ray_div_greatest a b q h fits = (le-div_iff_mul-le h).1 (omega arith)

pub nat_ray_div_least : (a b : ℕ) → 0 < b → a * nat_ray ≤ nat_ray * b → nat_ray_div a b ≤ nat_ray
unfolding nat_ray_div
nat_ray_div_least a b h k =
    let lt : b / 2 + a * nat_ray < (nat_ray + 1) * b = omega arith in
    let q = (div-lt_iff_lt-mul {x = b / 2 + a * nat_ray} {y = nat_ray + 1} h).1 lt in omega arith

pub nat_ray_div_zero : (b : ℕ) → 0 < b → nat_ray_div 0 b ≡ 0
nat_ray_div_zero b h =
    let d = nat_ray_div_bounds 0 b h in zero_of_mul (nat_ray_div 0 b) b h (omega arith)

nat_ray_div_one : (a : ℕ) → nat_ray_div a nat_ray ≡ a
unfolding nat_ray_div
nat_ray_div_one a = omega arith

-- The product and the quotient of two numbers in ray are the whole numbers nearest to a * b / 10^27
-- and a * 10^27 / b, and a tie goes up; the divisor of the quotient is not 0.
pub ray_nearest :
    (a b : ℕ)
    → 0 < b
    → (p : ℕ) × (q : ℕ) × (ray_mul (pos a) (pos b) ≡ pos p)
      × (ray_div (pos a) (pos b) ≡ ok (pos q))
      × (p * nat_ray ≤ a * b + nat_half_ray)
      × (a * b + nat_half_ray < p * nat_ray + nat_ray)
      × (q * b ≤ a * nat_ray + b / 2)
      × (a * nat_ray + b / 2 < q * b + b)
ray_nearest a b h =
    let m = nat_ray_mul_bounds a b in
    let d = nat_ray_div_bounds a b h in
    (nat_ray_mul a b, nat_ray_div a b, ray_mul_pos a b, ray_div_pos a b h, m.0, m.1, d.0, d.1)

nat_round_trip_exact :
    (a index : ℕ) → 0 < index → index ≤ nat_ray → nat_ray_mul (nat_ray_div a index) index ≡ a
nat_round_trip_exact a index h small =
    let d = nat_ray_div_bounds a index h in
    let m = nat_ray_mul_bounds (nat_ray_div a index) index in
    elim (Bool-cases (index == nat_ray)) [
      | inl same ↦
          let e : index ≡ nat_ray = ground arith in
          rw (e, nat_ray_div_one, nat_ray_mul_comm, nat_ray_mul_one)
      | inr less ↦ let lt : index < nat_ray = ground arith in omega arith
    ]

-- An amount that is scaled down by an index and scaled up again comes back within half the index and
-- half a unit, counted in ray: exactly if the index is at most one ray.
pub scale_round_trip :
    (a index : ℕ)
    → 0 < index
    → (b : ℕ) × ((ray_div (pos a) (pos index) >>= λ s. ok (ray_mul s (pos index))) ≡ ok (pos b))
      × (b * nat_ray ≤ a * nat_ray + nat_half_ray + index / 2)
      × (a * nat_ray ≤ b * nat_ray + nat_half_ray + index / 2)
      × (index ≤ nat_ray → b ≡ a)
scale_round_trip a index h =
    let s = nat_ray_div a index in
    let b = nat_ray_mul s index in
    let d = nat_ray_div_bounds a index h in
    let m = nat_ray_mul_bounds s index in
    (
      b,
      rw (ray_div_pos a index h, ray_mul_pos),
      omega arith,
      omega arith,
      nat_round_trip_exact a index h,
    )

nat_unscale_exact : (s index : ℕ) → nat_ray ≤ index → nat_ray_div (nat_ray_mul s index) index ≡ s
unfolding nat_ray_div
nat_unscale_exact s index h =
    let q = nat_ray_mul s index in
    let m = nat_ray_mul_bounds s index in
    elim (Bool-cases (index == nat_ray)) [
      | inl same ↦
          let e : index ≡ nat_ray = ground arith in
          rw (e, nat_ray_div_one, nat_ray_mul_comm, nat_ray_mul_one)
      | inr more ↦
          let lt : nat_ray < index = ground arith in
          div-eq_of_lt-le {k = s} index {m = index / 2 + q * nat_ray} (omega arith) (omega arith)
    ]

-- A scaled amount that is scaled up by an index of at least one ray and down again is unchanged: what
-- a balance shows is enough to clear it.
pub unscale_round_trip :
    (s index : ℕ) → nat_ray ≤ index → ray_div (ray_mul (pos s) (pos index)) (pos index) ≡ ok (pos s)
unscale_round_trip s index h = rw (
  ray_mul_pos,
  ray_div_pos (nat_ray_mul s index) index (omega arith),
  nat_unscale_exact s index h,
)

-- Wad to ray and back is the identity on numbers that are not negative.
pub ray_to_wad-wad_to_ray : (a : ℕ) → ray_to_wad (wad_to_ray (pos a)) ≡ pos a
ray_to_wad-wad_to_ray a = rw (wad_to_ray_pos, ray_to_wad_pos) (ap pos (omega arith))

pub nat_percent_mul-le : (a bps : ℕ) → bps ≤ 10000 → nat_percent_mul a bps ≤ a
unfolding nat_percent_mul
nat_percent_mul-le a bps h = grind arith
