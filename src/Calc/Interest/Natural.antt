-- ===== src/Calc/Interest/Natural.antt =====
-- The interest of test-suites/helpers/utils/calculations.ts on numbers that are not negative, at a
-- time that is not before the last update, as the same formulas over ℕ.
use kza_lending.Base.{
  ℕ, ◌+◌, ◌-◌, ◌*◌, ◌/◌, ◌≤◌, ◌<◌, ◌≡◌, arith, if◌then◌else◌, Bool-cases, inl, inr, ap, sym,
}
use kza_lending.Base.Int.{
  pos, ◌+ℤ◌, ◌-ℤ◌, ◌*ℤ◌, ◌/ℤ◌, ltb_ℤ, eqb_ℤ, pos-add, pos-sub, pos-mul, pos-div,
}
use kza_lending.WadRay.{one_year, ray_mul, nat_ray, nat_ray_mul, ray_mul_pos}
use kza_lending.Calc.Interest.{calc_linear_interest, calc_compounded_interest}

abbrev pub nat_year : ℕ
nat_year = 31536000

unfoldable pub nat_linear : ℕ → ℕ → ℕ
nat_linear rate elapsed = rate * elapsed / nat_year + nat_ray

unfoldable pub nat_power_two : ℕ → ℕ
nat_power_two rate = nat_ray_mul rate rate / (nat_year * nat_year)

unfoldable pub nat_power_three : ℕ → ℕ
unfolding nat_power_two
nat_power_three rate = nat_ray_mul (nat_power_two rate) rate / nat_year

unfoldable pub nat_compound : ℕ → ℕ → ℕ
nat_compound rate elapsed =
    nat_ray
    + rate * elapsed / nat_year
    + elapsed * (elapsed - 1) * nat_power_two rate / 2
    + elapsed * (elapsed - 1) * (elapsed - 2) * nat_power_three rate / 6

pub linear_pos :
    (rate now last : ℕ)
    → last ≤ now
    → calc_linear_interest (pos rate) (pos now) (pos last) ≡ pos (nat_linear rate (now - last))
unfolding calc_linear_interest nat_linear
linear_pos rate now last h = rw (pos-sub now last h, pos-mul, pos-div, pos-add)

two_less : (n : ℕ) → (if ltb_ℤ (pos 2) (pos n) then pos n -ℤ pos 2 else pos 0) ≡ pos (n - 2)
unfolding ◌-ℤ◌
two_less n = ground arith

pub compound_zero : (rate n : ℕ) → n ≡ 0 → nat_compound rate n ≡ nat_ray
unfolding nat_compound
compound_zero rate n e = rw e (omega arith)

compounded_later :
    (rate n : ℕ)
    → 0 < n
    → pos nat_ray
        +ℤ pos rate *ℤ pos n /ℤ one_year
        +ℤ pos n
          *ℤ (pos n -ℤ pos 1)
          *ℤ (ray_mul (pos rate) (pos rate) /ℤ (one_year *ℤ one_year))
          /ℤ pos 2
        +ℤ pos n
          *ℤ (pos n -ℤ pos 1)
          *ℤ (if ltb_ℤ (pos 2) (pos n) then pos n -ℤ pos 2 else pos 0)
          *ℤ (ray_mul (ray_mul (pos rate) (pos rate) /ℤ (one_year *ℤ one_year)) (pos rate)
              /ℤ one_year)
          /ℤ pos 6
      ≡ pos (nat_compound rate n)
unfolding nat_compound nat_power_two nat_power_three
compounded_later rate n h =
    rw (pos-sub n 1 h, two_less n) (simp (ray_mul_pos, pos-mul, pos-div, pos-add))

pub compounded_pos :
    (rate now last : ℕ)
    → last ≤ now
    → calc_compounded_interest (pos rate) (pos now) (pos last)
      ≡ pos (nat_compound rate (now - last))
unfolding calc_compounded_interest
compounded_pos rate now last h =
    let n = now - last in
    elim (Bool-cases (eqb_ℤ (pos n) (pos 0))) [
      | inl same ↦
          rw (pos-sub now last h, same) (ap pos (sym (compound_zero rate n (ground arith))))
      | inr later ↦ rw (pos-sub now last h, later) (compounded_later rate n (ground arith))
    ]
