-- ===== src/Suite/Compare/Passing.antt =====
-- When `almostEqualOrEqual` of test-suites/helpers/actions.ts passes.
use text.Mathlib.TextEquality.{eq_iff}
use kza_lending.Base.{
  ℕ, ◌+◌, ◌≤◌, ◌≡◌, refl, sym, ap, ◌∙◌, ◌↔◌, ◌⊎◌, inl, inr, Bool, true, false, none, some, List, [],
  ◌∷◌, String, arith, ◌==◌, ◌||◌, if◌then◌else◌,
}
use kza_lending.Base.Int.{ℤ, pos, ◌+ℤ◌, ◌≤ℤ◌, eqb_ℤ, pos_part, neg_part, int_laws}
use kza_lending.Base.Result.{Result, ok, err, assert, ◌>>◌}
use kza_lending.Calc.Consistent.{some_inj}
use kza_lending.Suite.Compare.{
  Property, number, written, flag, is_skipped, almost_equal, same_flag, compare_values,
  almost_equal_or_equal,
}

-- The expected value is assigned, a number lies within 3 of it, and any other value equals it.
abbrev pub Close : Property → Type 0
Close (number actual expected) =
    (e : ℤ) × (expected ≡ some e) × (actual ≤ℤ e +ℤ pos 3) × (e ≤ℤ actual +ℤ pos 3)
Close (written actual expected) = expected ≡ some actual
Close (flag actual expected) = expected ≡ some actual

-- Every key that is not skipped has close values.
abbrev pub AllClose : List (String × Property) → Type 0
AllClose [] = Unit
AllClose ((key, values) ∷ properties) =
    ((is_skipped key ≡ true) ⊎ Close values) × AllClose properties

-- The difference of two integers, as sums of numbers.
left : ℤ → ℤ → ℕ
left a e = pos_part a + neg_part e

module _ (a e : ℤ) (k : ℕ) where
  eqb_above : eqb_ℤ (a +ℤ pos k) e ≡ (left a e + k == left e a)
  unfolding ◌+ℤ◌ left
  eqb_above = ground arith

  eqb_below : eqb_ℤ a (e +ℤ pos k) ≡ (left a e == left e a + k)
  unfolding ◌+ℤ◌ left
  eqb_below = ground arith

within : ℕ → ℕ → Bool
within p q =
    p == q
    || (p + 1 == q || (p == q + 1 || (p + 2 == q || (p == q + 2 || (p + 3 == q || p == q + 3)))))

within_iff : (p q : ℕ) → (within p q ≡ true) ↔ ((p ≤ q + 3) × (q ≤ p + 3))
unfolding within
within_iff p q = ground arith

almost_equal-within : (a e : ℤ) → almost_equal a e ≡ within (left a e) (left e a)
unfolding almost_equal within left
almost_equal-within a e =
    rw
      (
        eqb_above a e 1,
        eqb_above a e 2,
        eqb_above a e 3,
        eqb_below a e 1,
        eqb_below a e 2,
        eqb_below a e 3,
      )
      refl

near_iff :
    (a e : ℤ)
    → ((left a e ≤ left e a + 3) × (left e a ≤ left a e + 3))
      ↔ ((a ≤ℤ e +ℤ pos 3) × (e ≤ℤ a +ℤ pos 3))
unfolding left
near_iff a e = (λ h. (omega int_laws, omega int_laws), λ h. (omega int_laws, omega int_laws))

almost_equal_iff : (a e : ℤ) → (almost_equal a e ≡ true) ↔ ((a ≤ℤ e +ℤ pos 3) × (e ≤ℤ a +ℤ pos 3))
almost_equal_iff a e = (
  λ h. (near_iff a e).0 ((within_iff _ _).0 (sym (almost_equal-within a e) ∙ h)),
  λ h. almost_equal-within a e ∙ (within_iff _ _).1 ((near_iff a e).1 h),
)

pub assert_iff : (b : Bool) → (assert b ≡ ok tt) ↔ (b ≡ true)
assert_iff true = (λ h. refl, λ h. refl)
assert_iff false = (λ h. cc, λ h. cc)

same_flag→eq : (a e : Bool) → same_flag a e ≡ true → e ≡ a
same_flag→eq true e h = h
same_flag→eq false true h = sym h
same_flag→eq false false h = refl

same_flag_refl : (a : Bool) → same_flag a a ≡ true
same_flag_refl true = refl
same_flag_refl false = refl

compare_values_iff : (v : Property) → (compare_values v ≡ ok tt) ↔ Close v
unfolding compare_values
compare_values_iff (number a none) = (λ h. cc, λ h. cc)
compare_values_iff (number a (some e)) = (
  λ h. let (low, high) = (almost_equal_iff a e).0 ((assert_iff _).0 h) in (e, refl, low, high),
  λ (e', same, low, high).
      (assert_iff _).1 ((almost_equal_iff a e).1 (rw (some_inj same) (low, high))),
)
compare_values_iff (written a none) = (λ h. cc, λ h. cc)
compare_values_iff (written a (some e)) = (
  λ h. ap some (sym ((eq_iff a e).0 ((assert_iff _).0 h))),
  λ h. (assert_iff _).1 ((eq_iff a e).1 (sym (some_inj h))),
)
compare_values_iff (flag a none) = (λ h. cc, λ h. cc)
compare_values_iff (flag a (some e)) = (
  λ h. ap some (same_flag→eq a e ((assert_iff _).0 h)),
  λ h. (assert_iff _).1 (rw (some_inj h) (same_flag_refl a)),
)

unless_skipped :
    (skipped : Bool) (v : Property)
    → ((if skipped then ok tt else compare_values v) ≡ ok tt) ↔ ((skipped ≡ true) ⊎ Close v)
unless_skipped true v = (λ h. inl refl, λ h. refl)
unless_skipped false v = (
  λ h. inr ((compare_values_iff v).0 h),
  λ h. elim h [ inl p ↦ cc | inr close ↦ (compare_values_iff v).1 close ],
)

pub >>_iff : (m rest : Result (Unit {0})) → ((m >> rest) ≡ ok tt) ↔ ((m ≡ ok tt) × (rest ≡ ok tt))
>>_iff (err e) rest = (λ h. cc, λ h. cc)
>>_iff (ok tt) rest = (λ h. (refl, h), λ h. h.1)

-- The comparison of a list of keys passes exactly if every key but those of the accessory data has an
-- expected value, a number within 3 of it, and any other value equal to it.
pub comparison_passes :
    (properties : List (String × Property))
    → (almost_equal_or_equal properties ≡ ok tt) ↔ AllClose properties
unfolding almost_equal_or_equal
comparison_passes [] = (λ h. tt, λ h. refl)
comparison_passes ((key, values) ∷ properties) =
    let rest = comparison_passes properties in
    let first = unless_skipped (is_skipped key) values in
    let split =
      >>_iff (if is_skipped key then ok tt else compare_values values)
        (almost_equal_or_equal properties) in
    (
      λ h. (first.0 (split.0 h).0, rest.0 (split.0 h).1),
      λ (close, all). split.1 (first.1 close, rest.1 all),
    )
