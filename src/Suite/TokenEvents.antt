-- ===== src/Suite/TokenEvents.antt =====
-- The events that the tokens have to emit, test-suites/helpers/utils/tokenization-events.ts: the increase
-- of a balance by its index, and the arguments with which each function calls `matchEvent`, in order.
pub mod Calls
pub mod Debts
pub mod Amounts
use text.Mathlib.Text.{◌==◌ as str_eq}
use kza_lending.Base.{Bool, ◌&&◌, not, some, List, [], ◌∷◌, ◌++◌, String, if◌then◌else◌}
use kza_lending.Base.Int.{ℤ, pos, ◌+ℤ◌, ◌-ℤ◌, ltb_ℤ}
use kza_lending.Base.Result.{Result, ok, ◌>>◌}
use kza_lending.WadRay.{ray_mul}
use kza_lending.Suite.Chain.{Receipt}
use kza_lending.Suite.Events.{ContractInterface, Argument, single, number, written, match_event}

-- A call of `matchEvent`: the event, its contract's interface, the emitter and the arguments.
pub record ExpectedEvent : Type 0 where
  pub name : String
  pub contract : ContractInterface
  pub emitter : String
  pub args : List Argument

abbrev pub zero_address : String
zero_address = "0x0000000000000000000000000000000000000000"

-- The calls of `matchEvent`, one after the other.
unfoldable pub match_events : Receipt → List ExpectedEvent → Result (Unit {0})
unfolding match_event
match_events receipt [] = ok tt
match_events receipt (e ∷ events) =
    match_event receipt e.name e.contract (some e.emitter) (some e.args)
    >> match_events receipt events

unfoldable pub get_balance_increase : ℤ → ℤ → ℤ → ℤ
get_balance_increase scaled_balance index_before_action index_after_action =
    ray_mul scaled_balance index_after_action -ℤ ray_mul scaled_balance index_before_action

-- A token: its interface and its address.
pub record Token : Type 0 where
  pub contract : ContractInterface
  pub address : String

abbrev account : String → Argument
account a = single (written a)

abbrev amount_of : ℤ → Argument
amount_of n = single (number n)

unfoldable pub transfer_event : Token → (from to : String) → ℤ → ExpectedEvent
transfer_event token from to value = record {
  name = "Transfer";
  contract = token.contract;
  emitter = token.address;
  args = account from ∷ account to ∷ amount_of value ∷ [];
}

-- `Mint` and `Burn` of an aToken or a variable debt token.
unfoldable pub scaled_event : String → Token → (caller target : String) → ℤ → ℤ → ℤ → ExpectedEvent
scaled_event name token caller target value balance_increase index = record {
  name = name;
  contract = token.contract;
  emitter = token.address;
  args =
      account caller
      ∷ account target
      ∷ amount_of value
      ∷ amount_of balance_increase
      ∷ amount_of index
      ∷ [];
}

-- A balance that grows by an amount: `supply` and `variableBorrow`.
unfoldable pub added_events :
    Token → (caller on_behalf_of : String) → ℤ → ℤ → ℤ → List ExpectedEvent
unfolding transfer_event scaled_event
added_events token caller on_behalf_of amount balance_increase index =
    transfer_event token zero_address on_behalf_of (amount +ℤ balance_increase)
    ∷ scaled_event "Mint" token caller on_behalf_of (amount +ℤ balance_increase) balance_increase
        index
    ∷ []

-- A balance that falls by an amount: `withdraw` and `repayVariableBorrow`. Where it has grown by more
-- since the last action, tokens are minted still.
unfoldable pub removed_events : Token → (owner target : String) → ℤ → ℤ → ℤ → List ExpectedEvent
unfolding transfer_event scaled_event
removed_events token owner target amount balance_increase index =
    if ltb_ℤ amount balance_increase
    then transfer_event token zero_address owner (balance_increase -ℤ amount)
      ∷ scaled_event "Mint" token owner owner (balance_increase -ℤ amount) balance_increase index
      ∷ []
    else transfer_event token owner zero_address (amount -ℤ balance_increase)
      ∷ scaled_event "Burn" token owner target (amount -ℤ balance_increase) balance_increase index
      ∷ []

-- The interest of one side of a transfer.
unfoldable pub interest_events : Token → (caller owner : String) → ℤ → ℤ → List ExpectedEvent
unfolding transfer_event scaled_event
interest_events token caller owner balance_increase index =
    transfer_event token zero_address owner balance_increase
    ∷ scaled_event "Mint" token caller owner balance_increase balance_increase index
    ∷ []

-- `transfer`, where the caller is the owner, and `transferFrom`.
unfoldable pub transfer_events :
    Token → (caller from to : String) → ℤ → ℤ → ℤ → ℤ → ℤ → List ExpectedEvent
unfolding transfer_event interest_events
transfer_events token caller from to amount added_scaled from_increase to_increase index =
    transfer_event token from to amount
    ∷ record {
      name = "BalanceTransfer";
      contract = token.contract;
      emitter = token.address;
      args = account from ∷ account to ∷ amount_of added_scaled ∷ amount_of index ∷ [];
    }
    ∷ ((if ltb_ℤ (pos 0) from_increase
          then interest_events token caller from from_increase index
          else [])
        ++ (if not (str_eq from to) && ltb_ℤ (pos 0) to_increase
            then interest_events token caller to to_increase index
            else []))

-- What the events of a stable debt token tell beside the amount.
pub record StableDetails : Type 0 where
  pub new_principal : ℤ
  pub balance_increase : ℤ
  pub user_rate : ℤ
  pub average_rate : ℤ
  pub total_supply : ℤ

unfoldable pub stable_mint_event :
    Token → (caller on_behalf_of : String) → ℤ → StableDetails → ExpectedEvent
stable_mint_event token caller on_behalf_of value d = record {
  name = "Mint";
  contract = token.contract;
  emitter = token.address;
  args =
      account caller
      ∷ account on_behalf_of
      ∷ amount_of value
      ∷ amount_of d.new_principal
      ∷ amount_of d.balance_increase
      ∷ amount_of d.user_rate
      ∷ amount_of d.average_rate
      ∷ amount_of d.total_supply
      ∷ [];
}

unfoldable pub stable_added_events :
    Token → (caller on_behalf_of : String) → ℤ → StableDetails → List ExpectedEvent
unfolding transfer_event stable_mint_event
stable_added_events token caller on_behalf_of amount d =
    transfer_event token zero_address on_behalf_of (amount +ℤ d.balance_increase)
    ∷ stable_mint_event token caller on_behalf_of (amount +ℤ d.balance_increase) d
    ∷ []

unfoldable pub stable_removed_events :
    Token → (on_behalf_of : String) → ℤ → StableDetails → List ExpectedEvent
unfolding transfer_event stable_mint_event
stable_removed_events token on_behalf_of amount d =
    if ltb_ℤ amount d.balance_increase
    then transfer_event token zero_address on_behalf_of (d.balance_increase -ℤ amount)
      ∷ stable_mint_event token on_behalf_of on_behalf_of (d.balance_increase -ℤ amount) d
      ∷ []
    else transfer_event token on_behalf_of zero_address (amount -ℤ d.balance_increase)
      ∷ record {
        name = "Burn";
        contract = token.contract;
        emitter = token.address;
        args =
            account on_behalf_of
            ∷ amount_of (amount -ℤ d.balance_increase)
            ∷ amount_of d.new_principal
            ∷ amount_of d.balance_increase
            ∷ amount_of d.average_rate
            ∷ amount_of d.total_supply
            ∷ [];
      }
      ∷ []
