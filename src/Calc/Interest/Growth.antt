-- ===== src/Calc/Interest/Growth.antt =====
-- Bounds of the interest of test-suites/helpers/utils/calculations.ts, and of what it scales.
use native.Mathlib.Nat.{mul-le-mul}
use kza_lending.Base.{ℕ, ◌-◌, ◌/◌, ◌≤◌, ◌≡◌, arith, ap}
use kza_lending.Base.Int.{ℤ, pos, negsuc, ◌≤ℤ◌}
use kza_lending.WadRay.{
  ray, ray_mul, nat_ray, nat_ray_mul_mono, le-nat_ray_mul, ray_mul_pos, nat_ray_mul_comm,
}
use kza_lending.Calc.Interest.{calc_linear_interest, calc_compounded_interest}
use kza_lending.Calc.Interest.Natural.{
  nat_linear, nat_power_two, nat_power_three, nat_compound, compound_zero, linear_pos,
  compounded_pos,
}

pub ray-le-linear : (rate n : ℕ) → nat_ray ≤ nat_linear rate n
unfolding nat_linear
ray-le-linear rate n = omega arith

pub linear-le-compound : (rate n : ℕ) → nat_linear rate n ≤ nat_compound rate n
unfolding nat_linear nat_compound
linear-le-compound rate n = omega arith

-- Division by a number and multiplication are monotone.
div_mono : (a b k : ℕ) → a ≤ b → a / k ≤ b / k
div_mono a b k h = grind arith

power_two_mono : (r s : ℕ) → r ≤ s → nat_power_two r ≤ nat_power_two s
unfolding nat_power_two
power_two_mono r s h = omega (arith, nat_ray_mul_mono r r s s h h)

power_three_mono : (r s : ℕ) → r ≤ s → nat_power_three r ≤ nat_power_three s
unfolding nat_power_three
power_three_mono r s h =
    omega (arith, nat_ray_mul_mono (nat_power_two r) r (nat_power_two s) s (power_two_mono r s h) h)

pub compound_mono : (r s m n : ℕ) → r ≤ s → m ≤ n → nat_compound r m ≤ nat_compound s n
unfolding nat_compound
compound_mono r s m n h k =
    let two = mul-le-mul k (let t : m - 1 ≤ n - 1 = omega arith in t) in
    let three = mul-le-mul two (let t : m - 2 ≤ n - 2 = omega arith in t) in
    omega (
      arith,
      mul-le-mul h k,
      mul-le-mul two (power_two_mono r s h),
      mul-le-mul three (power_three_mono r s h),
    )

linear_mono : (r s m n : ℕ) → r ≤ s → m ≤ n → nat_linear r m ≤ nat_linear s n
unfolding nat_linear
linear_mono r s m n h k = omega (arith, mul-le-mul h k)

linear_now : (rate last : ℕ) → nat_linear rate (last - last) ≡ nat_ray
unfolding nat_linear
linear_now rate last = let e : last - last ≡ 0 = omega arith in rw e (omega arith)

compound_now : (rate last : ℕ) → nat_compound rate (last - last) ≡ nat_ray
compound_now rate last = compound_zero rate (last - last) (omega arith)

-- On a rate that is not negative the compounded interest is at least the linear interest, which is at
-- least one ray; both are one ray at the time of the last update; and neither falls when the rate or
-- the time that has passed grows.
pub interest_growth :
    (rate higher last now later : ℕ)
    → rate ≤ higher
    → last ≤ now
    → now ≤ later
    → (ray ≤ℤ calc_linear_interest (pos rate) (pos now) (pos last))
      × (calc_linear_interest (pos rate) (pos now) (pos last)
          ≤ℤ calc_compounded_interest (pos rate) (pos now) (pos last))
      × (calc_linear_interest (pos rate) (pos last) (pos last) ≡ ray)
      × (calc_compounded_interest (pos rate) (pos last) (pos last) ≡ ray)
      × (calc_linear_interest (pos rate) (pos now) (pos last)
          ≤ℤ calc_linear_interest (pos higher) (pos later) (pos last))
      × (calc_compounded_interest (pos rate) (pos now) (pos last)
          ≤ℤ calc_compounded_interest (pos higher) (pos later) (pos last))
interest_growth rate higher last now later h k l =
    let more : now - last ≤ later - last = omega arith in
    simp
      (
        linear_pos rate now last k,
        compounded_pos rate now last k,
        linear_pos rate last last (omega arith),
        compounded_pos rate last last (omega arith),
        linear_pos higher later last (omega arith),
        compounded_pos higher later last (omega arith),
      )
      (
        omega (arith, ray-le-linear rate (now - last)),
        omega (arith, linear-le-compound rate (now - last)),
        ap pos (linear_now rate last),
        ap pos (compound_now rate last),
        omega (arith, linear_mono rate higher (now - last) (later - last) h more),
        omega (arith, compound_mono rate higher (now - last) (later - last) h more),
      )

-- The same facts about signed numbers that are not negative.
pub le-ray_mul : (a b : ℤ) → ray ≤ℤ a → pos 0 ≤ℤ b → b ≤ℤ ray_mul a b
le-ray_mul (pos a) (pos b) h k = rw ray_mul_pos (omega (arith, le-nat_ray_mul a b (omega arith)))
le-ray_mul (negsuc a) b h k = absurd (omega arith)
le-ray_mul (pos a) (negsuc b) h k = absurd (omega arith)

pub le-ray_mul_right : (a b : ℤ) → pos 0 ≤ℤ a → ray ≤ℤ b → a ≤ℤ ray_mul a b
le-ray_mul_right (pos a) (pos b) h k =
    rw (ray_mul_pos, nat_ray_mul_comm) (omega (arith, le-nat_ray_mul b a (omega arith)))
le-ray_mul_right (negsuc a) b h k = absurd (omega arith)
le-ray_mul_right (pos a) (negsuc b) h k = absurd (omega arith)

pub ray-le-compounded :
    (rate now last : ℤ)
    → pos 0 ≤ℤ rate
    → pos 0 ≤ℤ last
    → last ≤ℤ now
    → ray ≤ℤ calc_compounded_interest rate now last
ray-le-compounded (pos rate) (pos now) (pos last) h k l =
    rw (compounded_pos rate now last (omega arith))
      (omega (arith, ray-le-linear rate (now - last), linear-le-compound rate (now - last)))
ray-le-compounded (negsuc a) now last h k l = absurd (omega arith)
ray-le-compounded (pos a) now (negsuc last) h k l = absurd (omega arith)
ray-le-compounded (pos a) (negsuc now) (pos last) h k l = absurd (omega arith)

pub ray-le-calc_linear :
    (rate now last : ℤ)
    → pos 0 ≤ℤ rate
    → pos 0 ≤ℤ last
    → last ≤ℤ now
    → ray ≤ℤ calc_linear_interest rate now last
ray-le-calc_linear (pos rate) (pos now) (pos last) h k l =
    rw (linear_pos rate now last (omega arith)) (omega (arith, ray-le-linear rate (now - last)))
ray-le-calc_linear (negsuc a) now last h k l = absurd (omega arith)
ray-le-calc_linear (pos a) now (negsuc last) h k l = absurd (omega arith)
ray-le-calc_linear (pos a) (negsuc now) (pos last) h k l = absurd (omega arith)
