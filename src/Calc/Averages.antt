-- ===== src/Calc/Averages.antt =====
-- The weighted averages of stable rates of test-suites/helpers/utils/calculations.ts.
use native.Mathlib.Nat.{mul-le-mul, le-div_iff_mul-le, div-lt_iff_lt-mul}
use kza_lending.Base.{ℕ, ◌+◌, ◌*◌, ◌/◌, ◌≤◌, ◌<◌, ◌≡◌, arith}
use kza_lending.Base.Int.{pos, pos-add, pos-mul, pos-div}
use kza_lending.Base.Result.{ok, div}
use kza_lending.Calc.Interest.{
  calc_expected_average_stable_borrow_rate, calc_expected_user_stable_rate,
}

above :
    (lo a r total amount : ℕ)
    → lo ≤ a
    → lo ≤ r
    → 0 < total + amount
    → lo ≤ (a * total + r * amount) / (total + amount)
above lo a r total amount h k p =
    let one : total ≤ total = omega arith in
    let two : amount ≤ amount = omega arith in
    (le-div_iff_mul-le p).1 (omega (arith, mul-le-mul h one, mul-le-mul k two))

below :
    (hi a r total amount : ℕ)
    → a ≤ hi
    → r ≤ hi
    → 0 < total + amount
    → (a * total + r * amount) / (total + amount) ≤ hi
below hi a r total amount h k p =
    let one : total ≤ total = omega arith in
    let two : amount ≤ amount = omega arith in
    let lt : a * total + r * amount < (hi + 1) * (total + amount) =
      omega (arith, mul-le-mul h one, mul-le-mul k two) in
    let q = (div-lt_iff_lt-mul {x = a * total + r * amount} {y = hi + 1} p).1 lt in omega arith

-- The average stable rate after an amount is added, and the stable rate of a user after a borrow, are
-- given and are the same number, if the debts are not both 0; and it lies between any bounds that the
-- rate before and the rate of the amount lie between.
pub averages_between :
    (lo hi before rate total amount : ℕ)
    → lo ≤ before
    → lo ≤ rate
    → before ≤ hi
    → rate ≤ hi
    → 0 < total + amount
    → (q : ℕ) × (calc_expected_average_stable_borrow_rate
          (pos before)
          (pos total)
          (pos amount)
          (pos rate)
        ≡ ok (pos q))
      × (calc_expected_user_stable_rate (pos total) (pos before) (pos amount) (pos rate)
          ≡ ok (pos q))
      × (lo ≤ q)
      × (q ≤ hi)
unfolding calc_expected_average_stable_borrow_rate calc_expected_user_stable_rate div
averages_between lo hi before rate total amount h k h' k' p = (
  (before * total + rate * amount) / (total + amount),
  simp (pos-mul, pos-add, pos-div) (ground arith),
  simp (pos-mul, pos-add, pos-div) (ground arith),
  above lo before rate total amount h k p,
  below hi before rate total amount h' k' p,
)
