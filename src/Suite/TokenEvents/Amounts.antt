-- ===== src/Suite/TokenEvents/Amounts.antt =====
-- The amounts in the events of test-suites/helpers/utils/tokenization-events.ts, against the balances.
use text.Mathlib.Text.{◌==◌ as str_eq}
use text.Mathlib.TextPositions.{eq_refl}
use kza_lending.Base.{◌≡◌, inl, inr, false, List, [], ◌∷◌, String, Bool-cases, arith, if◌then◌else◌}
use kza_lending.Base.Int.{ℤ, pos, ◌+ℤ◌, ◌-ℤ◌, ◌≤ℤ◌, ltb_ℤ, int_laws, eq_of_parts}
use kza_lending.Suite.Events.{Argument, single, number, written}
use kza_lending.Suite.TokenEvents.{
  Token, ExpectedEvent, zero_address, transfer_event, scaled_event, added_events, removed_events,
  interest_events, transfer_events,
}

-- What a `Transfer` with these arguments adds to the balance of an account.
abbrev moved : String → List Argument → ℤ
moved owner (single (written from) ∷ single (written to) ∷ single (number value) ∷ []) =
    (if str_eq to owner then value else pos 0) -ℤ (if str_eq from owner then value else pos 0)
moved owner _ = pos 0

-- What all `Transfer` events of a list add to it: the balance that an observer of the events keeps.
unfoldable pub balance_change : String → List ExpectedEvent → ℤ
balance_change owner [] = pos 0
balance_change owner (e ∷ events) =
    (if str_eq e.name "Transfer" then moved owner e.args else pos 0) +ℤ balance_change owner events

module _ (token : Token) (owner other : String) (amount balance_increase index : ℤ) where
  -- The events that are expected of a supply or a variable borrow add the amount and the increase of the
  -- balance to it; those of a withdrawal or a variable repayment add the increase and take the amount off,
  -- whether tokens are minted or burned. The owner is not the zero address.
  pub events_keep_balance :
      str_eq zero_address owner ≡ false
      → (balance_change owner (added_events token other owner amount balance_increase index)
          ≡ amount +ℤ balance_increase)
        × (balance_change owner (removed_events token owner other amount balance_increase index)
            ≡ balance_increase -ℤ amount)
  unfolding balance_change added_events removed_events transfer_event scaled_event
  events_keep_balance not_zero = (
    rw (not_zero, eq_refl) (eq_of_parts _ _ (omega int_laws)),
    elim (Bool-cases (ltb_ℤ amount balance_increase)) [
      | inl minted ↦ rw (minted, not_zero, eq_refl) (eq_of_parts _ _ (omega int_laws))
      | inr burned ↦ rw (burned, not_zero, eq_refl) (eq_of_parts _ _ (omega int_laws))
    ],
  )

no_increase : (a : ℤ) → pos 0 ≤ℤ a → ltb_ℤ (pos 0) a ≡ false → a ≡ pos 0
no_increase a low h = ground arith

module _ (token : Token) (caller from to : String) (amount added index : ℤ) where
  -- The events that are expected of a transfer between two accounts, neither of them the zero address, whose
  -- balances have not fallen by their indexes, take the amount off the one balance and add it to the other,
  -- and add to each its own increase.
  pub transfer_events_keep_balance :
      (from_increase to_increase : ℤ)
      → pos 0 ≤ℤ from_increase
      → pos 0 ≤ℤ to_increase
      → str_eq from to ≡ false
      → str_eq to from ≡ false
      → str_eq zero_address from ≡ false
      → str_eq zero_address to ≡ false
      → (balance_change from
            (transfer_events token caller from to amount added from_increase to_increase index)
          ≡ from_increase -ℤ amount)
        × (balance_change to
              (transfer_events token caller from to amount added from_increase to_increase index)
            ≡ to_increase +ℤ amount)
  unfolding balance_change transfer_events interest_events transfer_event scaled_event
  transfer_events_keep_balance fi ti low high apart apart' not_from not_to =
      elim (Bool-cases (ltb_ℤ (pos 0) fi)) [
        | inl p ↦ elim (Bool-cases (ltb_ℤ (pos 0) ti)) [
          | inl q ↦
              rw (p, q, apart, apart', not_from, not_to, eq_refl from, eq_refl to)
                (eq_of_parts _ _ (omega int_laws), eq_of_parts _ _ (omega int_laws))
          | inr q ↦
              rw
                (
                  p,
                  q,
                  no_increase ti high q,
                  apart,
                  apart',
                  not_from,
                  not_to,
                  eq_refl from,
                  eq_refl to,
                )
                (eq_of_parts _ _ (omega int_laws), eq_of_parts _ _ (omega int_laws))
        ]
        | inr p ↦ elim (Bool-cases (ltb_ℤ (pos 0) ti)) [
          | inl q ↦
              rw
                (
                  p,
                  q,
                  no_increase fi low p,
                  apart,
                  apart',
                  not_from,
                  not_to,
                  eq_refl from,
                  eq_refl to,
                )
                (eq_of_parts _ _ (omega int_laws), eq_of_parts _ _ (omega int_laws))
          | inr q ↦
              rw
                (
                  p,
                  q,
                  no_increase fi low p,
                  no_increase ti high q,
                  apart,
                  apart',
                  eq_refl from,
                  eq_refl to,
                )
                (eq_of_parts _ _ (omega int_laws), eq_of_parts _ _ (omega int_laws))
        ]
      ]
