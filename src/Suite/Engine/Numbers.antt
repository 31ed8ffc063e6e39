-- ===== src/Suite/Engine/Numbers.antt =====
-- `parseInt` of JavaScript as test-suites/helpers/scenario-engine.ts calls it on the
-- indexes of the users: white space of ASCII, a sign, the prefix of hexadecimal numbers, and then the
-- digits up to the first other character; `none` is `NaN`.
use kza_lending.Base.{
  ℕ, ◌+◌, ◌-◌, ◌*◌, ◌≡◌, refl, Bool, true, false, ◌&&◌, ◌||◌, Option, none, some, List, [], ◌∷◌,
  String, ltb, leb, ◌==◌, if◌then◌else◌,
}
use kza_lending.Base.Int.{ℤ, pos, ◌-ℤ◌}
use kza_lending.Suite.Actions.{codes}

abbrev skip_space : List ℕ → List ℕ
skip_space [] = []
skip_space (c ∷ cs) =
    let rest = skip_space cs in if c == 32 || (leb 9 c && leb c 13) then rest else c ∷ cs

-- The value of a digit of a base up to 16.
abbrev digit : ℕ → Option ℕ
digit c =
    if leb b'0' c && leb c b'9'
    then some (c - b'0')
    else (if leb b'a' c && leb c b'f'
        then some (c - b'a' + 10)
        else (if leb b'A' c && leb c b'F' then some (c - b'A' + 10) else none))

abbrev digit_of : ℕ → ℕ → Option ℕ
digit_of base c = elim (digit c) [ none ↦ none | some d ↦ if ltb d base then some d else none ]

-- The digits read so far, and the rest.
abbrev pub digits : ℕ → Option ℕ → List ℕ → Option ℕ
digits base so_far [] = so_far
digits base so_far (c ∷ cs) = elim (digit_of base c) [
  | none ↦ so_far
  | some d ↦ digits base (some (elim so_far [ none ↦ d | some n ↦ n * base + d ])) cs
]

-- The number that follows the sign, where the flag says that a prefix is looked for.
abbrev unsigned : Bool → List ℕ → Option ℕ
unsigned prefixed [] = none
unsigned prefixed (c ∷ []) = digits 10 none (c ∷ [])
unsigned prefixed (c ∷ d ∷ cs) =
    if prefixed && (c == b'0' && (d == b'x' || d == b'X'))
    then digits 16 none cs
    else digits 10 none (c ∷ d ∷ cs)

abbrev signed : Bool → List ℕ → Option ℤ
signed prefixed [] = none
signed prefixed (c ∷ cs) =
    if c == b'-'
    then elim (unsigned prefixed cs) [ none ↦ none | some n ↦ some (pos 0 -ℤ pos n) ]
    else (if c == b'+'
        then elim (unsigned prefixed cs) [ none ↦ none | some n ↦ some (pos n) ]
        else elim (unsigned prefixed (c ∷ cs)) [ none ↦ none | some n ↦ some (pos n) ])

unfoldable pub parse_int : String → Option ℤ
unfolding ◌-ℤ◌
parse_int s = signed true (skip_space (codes s))

-- `parseInt(s, 10)`
unfoldable pub parse_decimal : String → Option ℤ
unfolding ◌-ℤ◌
parse_decimal s = signed false (skip_space (codes s))

three : parse_int "3" ≡ some (pos 3)
unfolding parse_int
three = refl

with_rest : parse_int " 12px" ≡ some (pos 12)
unfolding parse_int
with_rest = refl

no_number : parse_int "x1" ≡ none
unfolding parse_int
no_number = refl
