-- ===== src/Suite/Events/Arguments.antt =====
-- What it means that a log holds the expected event, without the loops of `matchEvent` of
-- test-suites/helpers/utils/helpers.ts, and that its tests decide it.
use text.Mathlib.TextEquality.{eq_iff}
use kza_lending.Base.{
  ℕ, suc, ◌≡◌, refl, sym, ap, ◌↔◌, Bool, true, false, Option, none, some, List, [], ◌∷◌, arith,
  ◌==◌, if◌then◌else◌,
}
use kza_lending.Base.Int.{ℤ, eqb_ℤ, eqb_ℤ→eq}
use kza_lending.Calc.Consistent.{some_inj}
use kza_lending.Base.Result.{Result, ok, err, invalid_number, ◌>>=◌}
use kza_lending.Suite.Events.{
  ContractInterface, Argument, Single, single, array, number, written, flag, matches_single,
  matches_element, matches_array, matches_argument, matches_arguments, element_at, as_bytes,
  same_flag, length,
}

-- A test that returns tells whether the property holds.
abbrev pub Reflects : Result Bool → Type 0 → Type 0
Reflects test P = (b : Bool) → test ≡ ok b → (b ≡ true) ↔ P

Reflects-then :
    {P Q : Type 0} (first rest : Result Bool)
    → Reflects first P
    → Reflects rest Q
    → Reflects (first >>= λ same. if same then rest else ok false) (P × Q)
Reflects-then (err e) rest p q b h = cc
Reflects-then (ok true) rest p q b h =
    (λ t. ((p true refl).0 refl, (q b h).0 t), λ (x, y). (q b h).1 y)
Reflects-then (ok false) rest p q b h = (λ t. cc, λ (x, y). let wrong = (p false refl).1 x in cc)

Reflects-ok : {P : Type 0} (test : Bool) → ((test ≡ true) ↔ P) → Reflects (ok test) P
Reflects-ok test (to, from) b h = (λ t. to cc, λ p. let is = from p in cc)

flags_iff : (a e : Bool) → (same_flag a e ≡ true) ↔ (a ≡ e)
flags_iff true e = (λ h. sym h, λ h. sym h)
flags_iff false true = (λ h. cc, λ h. cc)
flags_iff false false = (λ h. refl, λ h. refl)

eqb_same : (a n : ℤ) → n ≡ a → eqb_ℤ a n ≡ true
eqb_same a n h = ground arith

module _ (contract : ContractInterface) where
  -- A value is the expected one: a number is what the expected value converts to, a text or a flag is
  -- equal to one of its kind, and JavaScript's `==` holds of two kinds.
  abbrev pub Same : Single → Argument → Type 0
  Same (number a) e = contract.number_from e ≡ some a
  Same (written a) (single (written e)) = a ≡ e
  Same (flag a) (single (flag e)) = a ≡ e
  Same (written a) (single (number e)) =
      contract.coerced_equal (written a) (single (number e)) ≡ true
  Same (written a) (single (flag e)) = contract.coerced_equal (written a) (single (flag e)) ≡ true
  Same (written a) (array es) = contract.coerced_equal (written a) (array es) ≡ true
  Same (flag a) (single (number e)) = contract.coerced_equal (flag a) (single (number e)) ≡ true
  Same (flag a) (single (written e)) = contract.coerced_equal (flag a) (single (written e)) ≡ true
  Same (flag a) (array es) = contract.coerced_equal (flag a) (array es) ≡ true

  -- The elements of the event's array are the expected ones, from an index on.
  abbrev pub SameElements : List Single → Argument → ℕ → Type 0
  SameElements [] expected j = Unit
  SameElements (a ∷ params) expected j =
      ((e : Single) × (element_at expected j ≡ some e) × Same a (single e))
      × SameElements params expected (suc j)

  -- An empty array stands for the text of no bytes.
  abbrev pub SameArgument : Argument → Argument → Type 0
  SameArgument (single a) expected = Same a (as_bytes expected)
  SameArgument (array params) expected = SameElements params (as_bytes expected) 0

  -- The arguments are the expected ones, in their order and as many.
  pub data SameArguments : (actual expected : List Argument) → Type 0 where
    no_arguments : SameArguments [] []
    one_more :
        {a e : Argument} {actual expected : List Argument}
        → SameArgument a e
        → SameArguments actual expected
        → SameArguments (a ∷ actual) (e ∷ expected)

  same_parts :
      {a e : Argument} {actual expected : List Argument}
      → SameArguments (a ∷ actual) (e ∷ expected)
      → SameArgument a e × SameArguments actual expected
  same_parts (one_more first rest) = (first, rest)

  converted_reflects :
      (a : ℤ) (converted : Option ℤ)
      → Reflects
          (elim converted [ none ↦ err invalid_number | some e ↦ ok (eqb_ℤ a e) ])
          (converted ≡ some a)
  converted_reflects a none = λ b h. cc
  converted_reflects a (some n) =
      Reflects-ok (eqb_ℤ a n) (λ t. ap some (sym (eqb_ℤ→eq a n t)), λ t. eqb_same a n (some_inj t))

  single_reflects : (a : Single) (e : Argument) → Reflects (matches_single contract a e) (Same a e)
  unfolding matches_single
  single_reflects (number a) e = converted_reflects a (contract.number_from e)
  single_reflects (written a) (single (written e)) = Reflects-ok _ (eq_iff a e)
  single_reflects (written a) (single (number e)) = Reflects-ok _ (λ t. t, λ t. t)
  single_reflects (written a) (single (flag e)) = Reflects-ok _ (λ t. t, λ t. t)
  single_reflects (written a) (array es) = Reflects-ok _ (λ t. t, λ t. t)
  single_reflects (flag a) (single (flag e)) = Reflects-ok _ (flags_iff a e)
  single_reflects (flag a) (single (number e)) = Reflects-ok _ (λ t. t, λ t. t)
  single_reflects (flag a) (single (written e)) = Reflects-ok _ (λ t. t, λ t. t)
  single_reflects (flag a) (array es) = Reflects-ok _ (λ t. t, λ t. t)

  element_reflects :
      (a : Single) (o : Option Single)
      → Reflects (matches_element contract a o) ((e : Single) × (o ≡ some e) × Same a (single e))
  unfolding matches_element
  element_reflects a (some e) b h = (
    λ t. (e, refl, (single_reflects a (single e) b h).0 t),
    λ (e', is, same). (single_reflects a (single e) b h).1 (rw (some_inj is) same),
  )
  element_reflects (number a) none b h = cc
  element_reflects (written a) none b h = (λ t. cc, λ (e, is, same). cc)
  element_reflects (flag a) none b h = (λ t. cc, λ (e, is, same). cc)

  elements_reflect :
      (params : List Single) (expected : Argument) (j : ℕ)
      → Reflects (matches_array contract params expected j) (SameElements params expected j)
  unfolding matches_array
  elements_reflect [] expected j = Reflects-ok true (λ t. tt, λ t. refl)
  elements_reflect (a ∷ params) expected j =
      Reflects-then (matches_element contract a (element_at expected j)) _
        (element_reflects a (element_at expected j)) (elements_reflect params expected (suc j))

  argument_reflects : (a e : Argument) → Reflects (matches_argument contract a e) (SameArgument a e)
  unfolding matches_argument
  argument_reflects (single a) e = single_reflects a (as_bytes e)
  argument_reflects (array params) e = elements_reflect params (as_bytes e) 0

  pub all_reflect :
      (actual expected : List Argument)
      → (length expected == length actual) ≡ true
      → Reflects (matches_arguments contract actual expected) (SameArguments actual expected)
  unfolding matches_arguments
  all_reflect [] [] n = Reflects-ok true (λ t. no_arguments, λ t. refl)
  all_reflect [] (e ∷ expected) n = absurd (ground arith)
  all_reflect (a ∷ actual) [] n = absurd (ground arith)
  all_reflect (a ∷ actual) (e ∷ expected) n = λ b h.
      let both =
        Reflects-then (matches_argument contract a e) _ (argument_reflects a e)
          (all_reflect actual expected (ground arith)) b h in
      (λ t. let (first, rest) = both.0 t in one_more first rest, λ same. both.1 (same_parts same))
