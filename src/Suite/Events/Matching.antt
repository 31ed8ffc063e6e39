-- ===== src/Suite/Events/Matching.antt =====
-- What `matchEvent` of test-suites/helpers/utils/helpers.ts decides of a list of logs.
use text.Mathlib.Text.{◌==◌ as str_eq}
use text.Mathlib.TextEquality.{eq_iff}
use kza_lending.Base.{
  ◌≡◌, refl, sym, ◌∙◌, ◌⊎◌, inl, inr, ◌↔◌, Bool, true, false, ◌&&◌, Option, none, some, List, [],
  ◌∷◌, String, ◌==◌, Bool-cases, if◌then◌else◌,
}
use kza_lending.Base.Result.{Result, ok, err, unexpected_args, event_not_found, >>=-eq-ok}
use kza_lending.Calc.Consistent.{some_inj}
use kza_lending.Suite.Chain.{Log, Receipt, present}
use kza_lending.Suite.Events.{
  ContractInterface, Argument, Verdict, other, mismatch, hit, is_candidate, judge_arguments, judge,
  search, match_event, find_sig_hash, search_named, matches_arguments, length,
}
use kza_lending.Suite.Events.Arguments.{SameArguments, all_reflect}

-- Some log of a list has a property.
pub data AnyLog (P : Log → Type 0) : List Log → Type 0 where
  here : {log : Log} {logs : List Log} → P log → AnyLog P (log ∷ logs)
  later : {log : Log} {logs : List Log} → AnyLog P logs → AnyLog P (log ∷ logs)

AnyLog-inv :
    {P : Log → Type 0} {log : Log} {logs : List Log} → AnyLog P (log ∷ logs) → P log ⊎ AnyLog P logs
AnyLog-inv (here p) = inl p
AnyLog-inv (later p) = inr p

not_AnyLog : {P : Log → Type 0} → ¬ AnyLog P []
not_AnyLog p = elim p [ ]

and_iff : (a b : Bool) → ((a && b) ≡ true) ↔ ((a ≡ true) × (b ≡ true))
and_iff true b = (λ h. (refl, h), λ (x, y). y)
and_iff false b = (λ h. cc, λ (x, y). cc)

-- The expected arguments, if any are expected, are the actual ones.
abbrev pub Matches : ContractInterface → Option (List Argument) → List Argument → Type 0
Matches contract expected_args actual =
    (expected : List Argument)
    → expected_args ≡ some expected
    → SameArguments contract actual expected

matched :
    (contract : ContractInterface) (expected actual : List Argument) (verdict : Verdict)
    (same : Bool)
    → (same ≡ true) ↔ SameArguments contract actual expected
    → Result.ok (if same then hit else mismatch) ≡ ok verdict
    → ((verdict ≡ hit) × Matches contract (some expected) actual)
      ⊎ ((verdict ≡ mismatch) × (¬ Matches contract (some expected) actual))
matched contract expected actual verdict true (to, from) h =
    inl (cc, λ e given. rw (sym (some_inj given)) (to refl))
matched contract expected actual verdict false (to, from) h =
    inr (cc, λ m. let wrong = from (m expected refl) in cc)

ok_inj : {a b : Verdict} → Result.ok a ≡ ok b → a ≡ b
ok_inj h = cc

arguments_mean :
    (contract : ContractInterface) (expected_args : Option (List Argument)) (actual : List Argument)
    (verdict : Verdict)
    → judge_arguments contract expected_args actual ≡ ok verdict
    → ((verdict ≡ hit) × Matches contract expected_args actual)
      ⊎ ((verdict ≡ mismatch) × (¬ Matches contract expected_args actual))
unfolding judge_arguments
arguments_mean contract none actual verdict h = inl (cc, λ e none_expected. absurd cc)
arguments_mean contract (some expected) actual verdict h =
    elim (Bool-cases (length expected == length actual)) [
      | inr differ ↦ let k = rw differ at h in absurd cc
      | inl alike ↦
          let (same, given, is) =
            >>=-eq-ok (matches_arguments contract actual expected) _ (rw alike at h) in
          matched contract expected actual verdict same
            ((all_reflect contract actual expected alike) same given) is
    ]

topic_iff :
    (sig_hash : String) (topics : List String)
    → ((elim topics [ [] ↦ false | topic ∷ rest ↦ str_eq topic sig_hash ]) ≡ true)
      ↔ ((rest : List String) × (topics ≡ sig_hash ∷ rest))
topic_iff sig_hash [] = (λ h. cc, λ (rest, h). cc)
topic_iff sig_hash (topic ∷ topics) = (
  λ h. let same = (eq_iff topic sig_hash).0 h in (topics, rw same refl),
  λ (rest, h). let same : topic ≡ sig_hash = cc in (eq_iff topic sig_hash).1 same,
)

emitter_iff :
    (given : Option String) (address : String)
    → ((elim given [ none ↦ true | some expected ↦ str_eq address expected ]) ≡ true)
      ↔ ((expected : String) → given ≡ some expected → address ≡ expected)
emitter_iff none address = (λ h expected given. cc, λ h. refl)
emitter_iff (some e) address = (
  λ h expected given. (eq_iff address e).0 h ∙ some_inj given,
  λ h. (eq_iff address e).1 (h e refl),
)

module _ (contract : ContractInterface) (sig_hash : String) (emitter_address : Option String)
    (expected_args : Option (List Argument)) where
  -- A log is the event: its first topic is the hash, and the expected emitter, if any, emitted it.
  pub record IsEvent (log : Log) : Type 0 where
    pub first_topic : (rest : List String) × (log.topics ≡ sig_hash ∷ rest)
    pub emitted :
        (address : String) → present emitter_address ≡ some address → log.address ≡ address

  abbrev pub IsWanted : Log → Type 0
  IsWanted log = IsEvent log × Matches contract expected_args (contract.parse_log log)

  candidate_iff : (log : Log) → (is_candidate sig_hash emitter_address log ≡ true) ↔ IsEvent log
  unfolding is_candidate
  candidate_iff log =
      let topic = topic_iff sig_hash log.topics in
      let emitter = emitter_iff (present emitter_address) log.address in
      let both = and_iff _ _ in
      (
        λ h. record { first_topic = topic.0 (both.0 h).0; emitted = emitter.0 (both.0 h).1 },
        λ e. both.1 (topic.1 e.first_topic, emitter.1 e.emitted),
      )

  -- What a verdict says of a log.
  abbrev Means : Verdict → Log → Type 0
  Means other log = ¬ IsEvent log
  Means mismatch log = IsEvent log × (¬ Matches contract expected_args (contract.parse_log log))
  Means hit log = IsWanted log

  candidate-Means :
      (log : Log) (verdict : Verdict)
      → IsEvent log
      → judge_arguments contract expected_args (contract.parse_log log) ≡ ok verdict
      → Means verdict log
  candidate-Means log verdict event h =
      elim (arguments_mean contract expected_args (contract.parse_log log) verdict h) [
        | inl (is, matching) ↦ rw is (event, matching)
        | inr (is, other_args) ↦ rw is (event, other_args)
      ]

  judge-Means :
      (log : Log) (verdict : Verdict)
      → judge contract sig_hash emitter_address expected_args log ≡ ok verdict
      → Means verdict log
  unfolding judge
  judge-Means log verdict h = elim (Bool-cases (is_candidate sig_hash emitter_address log)) [
    | inl is ↦ candidate-Means log verdict ((candidate_iff log).0 is) (rw is at h)
    | inr is_not ↦
        let none_judged : other ≡ verdict = ok_inj (rw is_not at h) in
        rw (sym none_judged) (λ e. let is = (candidate_iff log).1 e in cc)
  ]

  -- No exception is thrown where a log is judged.
  abbrev pub AllJudged : List Log → Type 0
  AllJudged [] = Unit
  AllJudged (log ∷ logs) =
      ((verdict : Verdict) × (judge contract sig_hash emitter_address expected_args log
          ≡ ok verdict))
      × AllJudged logs

  -- The event is among the logs, with the expected arguments; or it is there (or has been before, with
  -- other arguments), and nowhere with the expected ones; or it is not there.
  data Decides (mismatched : Bool) (result : Result (Unit {0})) (logs : List Log) : Type 0 where
    found : result ≡ ok tt → AnyLog IsWanted logs → Decides mismatched result logs
    unexpected :
        result ≡ err unexpected_args
        → (mismatched ≡ true) ⊎ AnyLog IsEvent logs
        → ¬ AnyLog IsWanted logs
        → Decides mismatched result logs
    absent :
        result ≡ err event_not_found
        → mismatched ≡ false
        → ¬ AnyLog IsEvent logs
        → Decides mismatched result logs

  abbrev search_logs : Bool → List Log → Result (Unit {0})
  search_logs = search contract sig_hash emitter_address expected_args

  not_later :
      {P : Log → Type 0} {log : Log} {logs : List Log}
      → ¬ P log
      → ¬ AnyLog P logs
      → ¬ AnyLog P (log ∷ logs)
  not_later p q s = elim (AnyLog-inv s) [ inl x ↦ p x | inr x ↦ q x ]

  after_mismatch :
      {mismatched : Bool} {result : Result (Unit {0})} {log : Log} {logs : List Log}
      → IsEvent log
      → ¬ Matches contract expected_args (contract.parse_log log)
      → Decides true result logs
      → Decides mismatched result (log ∷ logs)
  after_mismatch event other_args (found h x) = found h (later x)
  after_mismatch event other_args (unexpected h x none_wanted) =
      unexpected h (inr (here event)) (not_later (λ w. other_args w.1) none_wanted)
  after_mismatch event other_args (absent h wrong none_there) = absurd cc

  after_other :
      {mismatched : Bool} {result : Result (Unit {0})} {log : Log} {logs : List Log}
      → ¬ IsEvent log
      → Decides mismatched result logs
      → Decides mismatched result (log ∷ logs)
  after_other no_event (found h x) = found h (later x)
  after_other no_event (unexpected h x none_wanted) =
      unexpected h (elim x [ inl y ↦ inl y | inr y ↦ inr (later y) ])
        (not_later (λ w. no_event w.0) none_wanted)
  after_other no_event (absent h clean none_there) = absent h clean (not_later no_event none_there)

  search-Decides :
      (mismatched : Bool) (logs : List Log)
      → AllJudged logs
      → Decides mismatched (search_logs mismatched logs) logs
  unfolding search
  search-Decides true [] judged = unexpected refl (inl refl) not_AnyLog
  search-Decides false [] judged = absent refl refl not_AnyLog
  search-Decides mismatched (log ∷ logs) ((hit, h), rest) =
      found (rw h refl) (here (judge-Means log hit h))
  search-Decides mismatched (log ∷ logs) ((mismatch, h), rest) =
      let (event, other_args) = judge-Means log mismatch h in
      rw h (after_mismatch event other_args (search-Decides true logs rest))
  search-Decides mismatched (log ∷ logs) ((other, h), rest) =
      rw h (after_other (judge-Means log other h) (search-Decides mismatched logs rest))

  -- On a receipt with logs that are judged without an exception, by the hash of the named event: the search
  -- passes, and some log is the event, of the expected emitter if any, with the expected arguments if any;
  -- or it throws that the arguments were not the expected ones, and some log is the event and none is with
  -- the arguments; or it throws that the event was not found, and no log is the event.
  pub match_event_decides :
      (receipt : Receipt) (name : String) {logs : List Log}
      → receipt.logs ≡ some logs
      → present (find_sig_hash contract name contract.events) ≡ some sig_hash
      → AllJudged logs
      → ((match_event receipt name contract emitter_address expected_args ≡ ok tt)
          × AnyLog IsWanted logs)
        ⊎ (((match_event receipt name contract emitter_address expected_args ≡ err unexpected_args)
              × AnyLog IsEvent logs
              × (¬ AnyLog IsWanted logs))
            ⊎ ((match_event receipt name contract emitter_address expected_args
                  ≡ err event_not_found)
                × (¬ AnyLog IsEvent logs)))
  unfolding match_event search_named
  match_event_decides receipt name {logs} given named judged =
      rw (given, search_named, named)
        (elim (search-Decides false logs judged) [
          | found h x ↦ inl (h, x)
          | unexpected h (inl wrong) none_wanted ↦ absurd cc
          | unexpected h (inr x) none_wanted ↦ inr (inl (h, x, none_wanted))
          | absent h clean none_there ↦ inr (inr (h, none_there))
        ])
