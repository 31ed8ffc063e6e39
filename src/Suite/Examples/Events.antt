-- ===== src/Suite/Examples/Events.antt =====
-- Events of the harness at concrete receipts.
use text.Mathlib.Text.{◌==◌ as str_eq}
use kza_lending.Base.{◌≡◌, ◌⊎◌, refl, some, false, String, List, [], ◌∷◌, if◌then◌else◌, arith}
use kza_lending.Base.Int.{pos, ◌+ℤ◌, ◌-ℤ◌}
use kza_lending.Base.Result.{ok, err, unexpected_args, event_not_found}
use kza_lending.Suite.Chain.{Log, Receipt, present}
use kza_lending.Suite.Events.{
  ContractInterface, Argument, single, number, written, hit, mismatch, judge, is_candidate,
  judge_arguments, matches_arguments, matches_argument, matches_single, find_sig_hash, match_event,
}
use kza_lending.Suite.Events.Matching.{AnyLog, IsEvent, IsWanted, match_event_decides}
use kza_lending.Suite.TokenEvents.{Token, added_events, removed_events, transfer_events}
use kza_lending.Suite.TokenEvents.Amounts.{
  balance_change, events_keep_balance, transfer_events_keep_balance,
}
use kza_lending.Suite.Examples.{receipt}

-- A contract with two events, whose logs hold a sender, a receiver and an amount.
abbrev erc20 : ContractInterface
erc20 = record {
  events = "Approval(address,address,uint256)" ∷ "Transfer(address,address,uint256)" ∷ [];
  signature_hash = λ event. event;
  parse_log = λ log.
      single (written "alice")
      ∷ single (written "bob")
      ∷ single (number (if str_eq log.bytes "5" then pos 5 else pos 7))
      ∷ [];
  number_from = λ value. some (pos 5);
  coerced_equal = λ actual expected. false;
}

abbrev transfer_log : String → Log
transfer_log bytes = record {
  address = "dai";
  topics = "Transfer(address,address,uint256)" ∷ [];
  bytes = bytes;
}

abbrev two_logs : Receipt
two_logs = record receipt { logs = some (transfer_log "7" ∷ transfer_log "5" ∷ []) }

abbrev wanted : List Argument
wanted = single (written "alice") ∷ single (written "bob") ∷ single (number (pos 5)) ∷ []

seven :
    judge erc20 "Transfer(address,address,uint256)" (some "dai") (some wanted) (transfer_log "7")
    ≡ ok mismatch
unfolding judge is_candidate judge_arguments matches_arguments matches_argument matches_single
seven = refl

five :
    judge erc20 "Transfer(address,address,uint256)" (some "dai") (some wanted) (transfer_log "5")
    ≡ ok hit
unfolding judge is_candidate judge_arguments matches_arguments matches_argument matches_single
five = refl

named :
    present (find_sig_hash erc20 "Transfer" erc20.events) ≡ some "Transfer(address,address,uint256)"
unfolding find_sig_hash
named = refl

match_event_decides_example :
    ((match_event two_logs "Transfer" erc20 (some "dai") (some wanted) ≡ ok tt)
      × AnyLog
          (IsWanted erc20 "Transfer(address,address,uint256)" (some "dai") (some wanted))
          (transfer_log "7" ∷ transfer_log "5" ∷ []))
    ⊎ (((match_event two_logs "Transfer" erc20 (some "dai") (some wanted) ≡ err unexpected_args)
          × AnyLog
              (IsEvent erc20 "Transfer(address,address,uint256)" (some "dai") (some wanted))
              (transfer_log "7" ∷ transfer_log "5" ∷ [])
          × (¬ AnyLog
              (IsWanted erc20 "Transfer(address,address,uint256)" (some "dai") (some wanted))
              (transfer_log "7" ∷ transfer_log "5" ∷ [])))
        ⊎ ((match_event two_logs "Transfer" erc20 (some "dai") (some wanted) ≡ err event_not_found)
            × (¬ AnyLog
                (IsEvent erc20 "Transfer(address,address,uint256)" (some "dai") (some wanted))
                (transfer_log "7" ∷ transfer_log "5" ∷ []))))
match_event_decides_example =
    match_event_decides erc20 "Transfer(address,address,uint256)" (some "dai") (some wanted)
      two_logs "Transfer" refl named ((mismatch, seven), ((hit, five), tt))

abbrev token : Token
token = record { contract = erc20; address = "adai" }

events_keep_balance_example :
    (balance_change "alice" (added_events token "bob" "alice" (pos 10) (pos 3) (pos 1))
      ≡ pos 10 +ℤ pos 3)
    × (balance_change "alice" (removed_events token "alice" "bob" (pos 10) (pos 3) (pos 1))
        ≡ pos 3 -ℤ pos 10)
events_keep_balance_example = events_keep_balance token "alice" "bob" (pos 10) (pos 3) (pos 1) refl

transfer_events_keep_balance_example :
    (balance_change "alice"
        (transfer_events token "alice" "alice" "bob" (pos 10) (pos 9) (pos 3) (pos 0) (pos 1))
      ≡ pos 3 -ℤ pos 10)
    × (balance_change "bob"
          (transfer_events token "alice" "alice" "bob" (pos 10) (pos 9) (pos 3) (pos 0) (pos 1))
        ≡ pos 0 +ℤ pos 10)
transfer_events_keep_balance_example =
    transfer_events_keep_balance token "alice" "alice" "bob" (pos 10) (pos 9) (pos 1) (pos 3)
      (pos 0) (omega arith) (omega arith) refl refl refl refl
