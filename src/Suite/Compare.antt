-- ===== src/Suite/Compare.antt =====
-- The comparison of what the chain holds with what the calculations expect: `almostEqualOrEqual` and
-- `expectEqual` of test-suites/helpers/actions.ts. The values of one key have one type in both objects,
-- as their interfaces say, so a key stands with its two values; in the expected object it may be
-- `undefined`.
pub mod Passing
use text.Mathlib.Text.{◌==◌ as str_eq}
use kza_lending.Base.{Bool, true, false, ◌||◌, Option, List, [], ◌∷◌, String, if◌then◌else◌}
use kza_lending.Base.Int.{ℤ, pos, ◌+ℤ◌, eqb_ℤ}
use kza_lending.Base.Result.{Result, ok, assert, ◌>>=◌, ◌>>◌, need}
use kza_lending.Calc.Data.{ReserveData, ExpectedReserve}
use kza_lending.Calc.UserData.{UserReserveData, ExpectedUser}

-- The actual value and the expected one.
pub data Property : Type 0 where
  number : ℤ → Option ℤ → Property
  written : String → Option String → Property
  flag : Bool → Option Bool → Property

-- The accessory data.
unfoldable pub is_skipped : String → Bool
is_skipped key =
    str_eq key "lastUpdateTimestamp"
    || (str_eq key "marketStableRate"
        || (str_eq key "symbol"
            || (str_eq key "aTokenAddress"
                || (str_eq key "decimals" || str_eq key "totalStableDebtLastUpdated"))))

unfoldable pub almost_equal : ℤ → ℤ → Bool
almost_equal actual expected =
    eqb_ℤ actual expected
    || (eqb_ℤ (actual +ℤ pos 1) expected
        || (eqb_ℤ actual (expected +ℤ pos 1)
            || (eqb_ℤ (actual +ℤ pos 2) expected
                || (eqb_ℤ actual (expected +ℤ pos 2)
                    || (eqb_ℤ (actual +ℤ pos 3) expected || eqb_ℤ actual (expected +ℤ pos 3))))))

abbrev pub same_flag : Bool → Bool → Bool
same_flag true expected = expected
same_flag false true = false
same_flag false false = true

-- `expect(expected[key] != undefined)` asserts nothing; the comparison then throws on `undefined`.
unfoldable pub compare_values : Property → Result (Unit {0})
unfolding almost_equal
compare_values (number actual expected) = do e ← need expected; assert (almost_equal actual e)
compare_values (written actual expected) = do e ← need expected; assert (str_eq actual e)
compare_values (flag actual expected) = do e ← need expected; assert (same_flag actual e)

unfoldable pub almost_equal_or_equal : List (String × Property) → Result (Unit {0})
unfolding is_skipped compare_values
almost_equal_or_equal [] = ok tt
almost_equal_or_equal ((key, values) ∷ properties) =
    (if is_skipped key then ok tt else compare_values values) >> almost_equal_or_equal properties

-- The keys of the object that `getReserveData` returns, in its order.
abbrev pub reserve_properties : ReserveData → ExpectedReserve → List (String × Property)
reserve_properties a e =
    ("reserveFactor", number a.reserve_factor e.reserve_factor)
    ∷ ("unbacked", number a.unbacked e.unbacked)
    ∷ ("accruedToTreasuryScaled", number a.accrued_to_treasury_scaled e.accrued_to_treasury_scaled)
    ∷ ("availableLiquidity", number a.available_liquidity e.available_liquidity)
    ∷ ("totalLiquidity", number a.total_liquidity e.total_liquidity)
    ∷ ("borrowUsageRatio", number a.borrow_usage_ratio e.borrow_usage_ratio)
    ∷ ("supplyUsageRatio", number a.supply_usage_ratio e.supply_usage_ratio)
    ∷ ("totalStableDebt", number a.total_stable_debt e.total_stable_debt)
    ∷ ("totalVariableDebt", number a.total_variable_debt e.total_variable_debt)
    ∷ ("liquidityRate", number a.liquidity_rate e.liquidity_rate)
    ∷ ("variableBorrowRate", number a.variable_borrow_rate e.variable_borrow_rate)
    ∷ ("stableBorrowRate", number a.stable_borrow_rate e.stable_borrow_rate)
    ∷ ("averageStableBorrowRate", number a.average_stable_borrow_rate e.average_stable_borrow_rate)
    ∷ ("liquidityIndex", number a.liquidity_index e.liquidity_index)
    ∷ ("variableBorrowIndex", number a.variable_borrow_index e.variable_borrow_index)
    ∷ ("lastUpdateTimestamp", number a.last_update_timestamp e.last_update_timestamp)
    ∷ (
      "totalStableDebtLastUpdated",
      number a.total_stable_debt_last_updated e.total_stable_debt_last_updated,
    )
    ∷ ("principalStableDebt", number a.principal_stable_debt e.principal_stable_debt)
    ∷ ("scaledVariableDebt", number a.scaled_variable_debt e.scaled_variable_debt)
    ∷ ("address", written a.address e.address)
    ∷ ("aTokenAddress", written a.a_token_address e.a_token_address)
    ∷ ("symbol", written a.symbol e.symbol)
    ∷ ("decimals", number a.decimals e.decimals)
    ∷ ("marketStableRate", number a.market_stable_rate e.market_stable_rate)
    ∷ []

-- The keys of the object that `getUserData` returns.
abbrev pub user_properties : UserReserveData → ExpectedUser → List (String × Property)
user_properties a e =
    ("scaledATokenBalance", number a.scaled_a_token_balance e.scaled_a_token_balance)
    ∷ ("currentATokenBalance", number a.current_a_token_balance e.current_a_token_balance)
    ∷ ("currentStableDebt", number a.current_stable_debt e.current_stable_debt)
    ∷ ("currentVariableDebt", number a.current_variable_debt e.current_variable_debt)
    ∷ ("principalStableDebt", number a.principal_stable_debt e.principal_stable_debt)
    ∷ ("scaledVariableDebt", number a.scaled_variable_debt e.scaled_variable_debt)
    ∷ ("stableBorrowRate", number a.stable_borrow_rate e.stable_borrow_rate)
    ∷ ("liquidityRate", number a.liquidity_rate e.liquidity_rate)
    ∷ ("usageAsCollateralEnabled", flag a.usage_as_collateral_enabled e.usage_as_collateral_enabled)
    ∷ ("stableRateLastUpdated", number a.stable_rate_last_updated e.stable_rate_last_updated)
    ∷ ("walletBalance", number a.wallet_balance e.wallet_balance)
    ∷ []

-- `expectEqual`, where the configuration may skip the check.
unfoldable pub expect_equal : Bool → List (String × Property) → Result (Unit {0})
expect_equal skip_integrity_check properties =
    if skip_integrity_check then ok tt else almost_equal_or_equal properties
