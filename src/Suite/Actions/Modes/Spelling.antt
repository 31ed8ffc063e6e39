-- ===== src/Suite/Actions/Modes/Spelling.antt =====
-- The texts that `setUseAsCollateral` of test-suites/helpers/actions.ts takes for true.
use kza_lending.Base.{
  ℕ, ◌+◌, ◌≡◌, ◌≤◌, refl, ◌↔◌, ◌⊎◌, Bool, true, false, ◌&&◌, List, [], ◌∷◌, map, String, arith,
  ◌==◌,
}
use kza_lending.Suite.Actions.{codes}
use kza_lending.Suite.Actions.Modes.{lower, same_codes, is_true}

-- The letter with this code in lower case, in either case.
abbrev EitherCase : (letter c : ℕ) → Type 0
EitherCase letter c = (c ≡ letter) ⊎ (c + 32 ≡ letter)

-- The letters in their order, each in either case, and no others.
pub data Spells : (cs letters : List ℕ) → Type 0 where
  no_letters : Spells [] []
  one_more :
      {c letter : ℕ} {cs letters : List ℕ}
      → EitherCase letter c
      → Spells cs letters
      → Spells (c ∷ cs) (letter ∷ letters)

-- The letters of a word in lower case.
abbrev AllLower : List ℕ → Type 0
AllLower [] = Unit
AllLower (c ∷ cs) = ((b'a' ≤ c) × (c ≤ b'z')) × AllLower cs

same_letter_iff :
    (letter c : ℕ)
    → b'a' ≤ letter
    → letter ≤ b'z'
    → ((lower c == letter) ≡ true) ↔ EitherCase letter c
same_letter_iff letter c h k = ground arith

and_inv : (a b : Bool) → (a && b) ≡ true → (a ≡ true) × (b ≡ true)
and_inv true b h = (refl, h)
and_inv false b h = cc

same→spells :
    (cs letters : List ℕ)
    → AllLower letters
    → same_codes (map lower cs) letters ≡ true
    → Spells cs letters
same→spells [] [] low h = no_letters
same→spells (c ∷ cs) (l ∷ ls) low h =
    let (first, rest) = and_inv (lower c == l) _ h in
    one_more ((same_letter_iff l c low.0.0 low.0.1).0 first) (same→spells cs ls low.1 rest)
same→spells [] (l ∷ ls) low h = cc
same→spells (c ∷ cs) [] low h = cc

spells→same :
    {cs letters : List ℕ}
    → AllLower letters
    → Spells cs letters
    → same_codes (map lower cs) letters ≡ true
spells→same low no_letters = refl
spells→same low (one_more {c = c} {letter = l} first rest) =
    rw ((same_letter_iff l c low.0.0 low.0.1).1 first) (spells→same low.1 rest)

true_letters : AllLower (codes "true")
true_letters = (
  (omega arith, omega arith),
  ((omega arith, omega arith), ((omega arith, omega arith), ((omega arith, omega arith), tt))),
)

pub is_true_iff : (text : String) → (is_true text ≡ true) ↔ Spells (codes text) (codes "true")
unfolding is_true
is_true_iff text = (same→spells (codes text) (codes "true") true_letters, spells→same true_letters)
