-- ===== src/Suite/Events.antt =====
-- `matchEvent` of test-suites/helpers/utils/helpers.ts: the search of a receipt's logs for an event with
-- given arguments. The interface of the contract is a parameter: the signatures of its events, their
-- hashes and the parser of a log.
pub mod Arguments
pub mod Matching
use text.Mathlib.Text.{◌==◌ as str_eq, starts_with}
use Prim.Native.String.{len, char_at, slice}
use Prim.Native.Char.{code}
use kza_lending.Base.{
  ℕ, suc, ◌+◌, Bool, true, false, ◌&&◌, not, Option, none, some, List, [], ◌∷◌, String, ◌==◌, ltb,
  if◌then◌else◌,
}
use kza_lending.Base.Int.{ℤ, eqb_ℤ}
use kza_lending.Base.Result.{
  Result, ok, err, no_events, unknown_event, wrong_length, unexpected_args, event_not_found,
  undefined_read, invalid_number, ◌>>=◌,
}
use kza_lending.Calc.Config.{get_elem?}
use kza_lending.Suite.Chain.{Log, Receipt, present}

-- A value that is not an array: a number, a text (an address, or bytes) or a flag.
pub data Single : Type 0 where
  number : ℤ → Single
  written : String → Single
  flag : Bool → Single

-- An argument of an event: one value or an array of them.
pub data Argument : Type 0 where
  single : Single → Argument
  array : List Single → Argument

pub record ContractInterface : Type 0 where
  pub events : List String
  -- `keccak256` of the bytes of a signature
  pub signature_hash : String → String
  -- the arguments of `parseLog`
  pub parse_log : Log → List Argument
  -- `BigNumber.from` of a value, `none` where it throws
  pub number_from : Argument → Option ℤ
  -- the result of `==` on values of two kinds, which JavaScript converts
  pub coerced_equal : Single → Argument → Bool

-- `contractEvent.startsWith(name) && contractEvent.charAt(name.length) == '('`
abbrev pub is_named : String → String → Bool
is_named name event = starts_with event name && (code (char_at event (len name)) == b'(')

-- The hash of the first event of that name.
unfoldable pub find_sig_hash : ContractInterface → String → List String → Option String
find_sig_hash contract name [] = none
find_sig_hash contract name (event ∷ events) =
    let rest = find_sig_hash contract name events in
    if is_named name event then some (contract.signature_hash event) else rest

abbrev pub same_flag : Bool → Bool → Bool
same_flag true b = b
same_flag false b = not b

-- The test of one value: a number by `eq`, any other by `!=`.
unfoldable pub matches_single : ContractInterface → Single → Argument → Result Bool
matches_single contract (number actual) expected = elim (contract.number_from expected) [
  | none ↦ err invalid_number
  | some e ↦ ok (eqb_ℤ actual e)
]
matches_single contract (written actual) (single (written e)) = ok (str_eq actual e)
matches_single contract (written actual) (single (number e)) =
    ok (contract.coerced_equal (written actual) (single (number e)))
matches_single contract (written actual) (single (flag e)) =
    ok (contract.coerced_equal (written actual) (single (flag e)))
matches_single contract (written actual) (array es) =
    ok (contract.coerced_equal (written actual) (array es))
matches_single contract (flag actual) (single (flag e)) = ok (same_flag actual e)
matches_single contract (flag actual) (single (number e)) =
    ok (contract.coerced_equal (flag actual) (single (number e)))
matches_single contract (flag actual) (single (written e)) =
    ok (contract.coerced_equal (flag actual) (single (written e)))
matches_single contract (flag actual) (array es) =
    ok (contract.coerced_equal (flag actual) (array es))

-- `expected[j]`: an element, a character of a text, or `undefined`.
abbrev pub element_at : Argument → ℕ → Option Single
element_at (array es) j = get_elem? es j
element_at (single (written s)) j =
    if ltb j (len s) then some (written (slice s j (j + 1))) else none
element_at (single (number n)) j = none
element_at (single (flag b)) j = none

-- A value against what may be `undefined`: `BigNumber.from(undefined)` throws, and no value equals it.
unfoldable pub matches_element : ContractInterface → Single → Option Single → Result Bool
unfolding matches_single
matches_element contract actual (some e) = matches_single contract actual (single e)
matches_element contract (number actual) none = err undefined_read
matches_element contract (written actual) none = ok false
matches_element contract (flag actual) none = ok false

-- The loop over the elements of an array, from index `j` on: only those of the event are looked at.
unfoldable pub matches_array : ContractInterface → List Single → Argument → ℕ → Result Bool
unfolding matches_element
matches_array contract [] expected j = ok true
matches_array contract (actual ∷ params) expected j = do
  same ← matches_element contract actual (element_at expected j)
  let rest = matches_array contract params expected (suc j)
  if same then rest else ok false

-- An empty array that is expected stands for no bytes.
abbrev pub as_bytes : Argument → Argument
as_bytes (single e) = single e
as_bytes (array []) = single (written "0x")
as_bytes (array (e ∷ es)) = array (e ∷ es)

unfoldable pub matches_argument : ContractInterface → Argument → Argument → Result Bool
unfolding matches_single matches_array
matches_argument contract (single actual) expected =
    matches_single contract actual (as_bytes expected)
matches_argument contract (array params) expected =
    matches_array contract params (as_bytes expected) 0

-- The loop over the arguments; the lists are of one length.
unfoldable pub matches_arguments : ContractInterface → List Argument → List Argument → Result Bool
unfolding matches_argument
matches_arguments contract [] expected = ok true
matches_arguments contract (a ∷ actual) [] = ok true
matches_arguments contract (a ∷ actual) (e ∷ expected) = do
  same ← matches_argument contract a e
  let rest = matches_arguments contract actual expected
  if same then rest else ok false

-- What the loop over the logs finds of one: it is another event, or another contract's; it is the event
-- with other arguments; or it is the one that is looked for.
pub data Verdict : Type 0 where
  other mismatch hit : Verdict

abbrev pub length {ℓ} : {A : Type ℓ} → List A → ℕ
length [] = 0
length (x ∷ xs) = suc (length xs)

-- `topics[0] == sigHash`, and the emitter is the expected one, if any.
unfoldable pub is_candidate : String → Option String → Log → Bool
is_candidate sig_hash emitter_address log =
    elim log.topics [ [] ↦ false | topic ∷ topics ↦ str_eq topic sig_hash ]
    && elim (present emitter_address) [ none ↦ true | some address ↦ str_eq log.address address ]

unfoldable pub judge_arguments :
    ContractInterface → Option (List Argument) → List Argument → Result Verdict
unfolding matches_arguments
judge_arguments contract none actual = ok hit
judge_arguments contract (some expected) actual =
    if length expected == length actual
    then (do same ← matches_arguments contract actual expected; ok (if same then hit else mismatch))
    else err wrong_length

unfoldable pub judge :
    ContractInterface → String → Option String → Option (List Argument) → Log → Result Verdict
unfolding is_candidate judge_arguments
judge contract sig_hash emitter_address expected_args log =
    if is_candidate sig_hash emitter_address log
    then judge_arguments contract expected_args (contract.parse_log log)
    else ok other

-- The loop over the logs, with `invalidParamsButExists`.
unfoldable pub search :
    ContractInterface
    → String
    → Option String
    → Option (List Argument)
    → Bool
    → List Log
    → Result (Unit {0})
unfolding judge
search contract sig_hash emitter_address expected_args invalid_params [] =
    if invalid_params then err unexpected_args else err event_not_found
search contract sig_hash emitter_address expected_args invalid_params (log ∷ logs) = do
  verdict ← judge contract sig_hash emitter_address expected_args log
  elim verdict [
    | hit ↦ ok tt
    | mismatch ↦ search contract sig_hash emitter_address expected_args true logs
    | other ↦ search contract sig_hash emitter_address expected_args invalid_params logs
  ]

-- The search, or the exception where the contract has no event of that name.
unfoldable pub search_named :
    ContractInterface
    → Option String
    → Option String
    → Option (List Argument)
    → List Log
    → Result (Unit {0})
unfolding search
search_named contract none emitter_address expected_args logs = err unknown_event
search_named contract (some sig_hash) emitter_address expected_args logs =
    search contract sig_hash emitter_address expected_args false logs

unfoldable pub match_event :
    Receipt
    → String
    → ContractInterface
    → Option String
    → Option (List Argument)
    → Result (Unit {0})
unfolding find_sig_hash search_named
match_event receipt name contract emitter_address expected_args = do
  logs ← elim receipt.logs [ none ↦ err no_events | some logs ↦ ok logs ]
  let sig_hash = present (find_sig_hash contract name contract.events)
  search_named contract sig_hash emitter_address expected_args logs
