-- ===== src/Calc.antt =====
-- The expected state of a reserve and of a user after each action of the protocol:
-- test-suites/helpers/utils/calculations.ts.
pub mod Data
pub mod UserData
pub mod Config
pub mod Interest
pub mod Rates
pub mod State
pub mod Supply
pub mod Bridge
pub mod Borrow
pub mod Repay
pub mod Swap
pub mod Sound
pub mod Indexes
pub mod Consistent
pub mod Balances
pub mod Averages
pub mod Treasury
pub mod Returns
pub mod Clearing
pub mod Users
pub mod Conservation
pub mod Examples
