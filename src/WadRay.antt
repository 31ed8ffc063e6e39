-- ===== src/WadRay.antt =====
-- Fixed-point arithmetic of the reference calculations: test-suites/helpers/utils/wadraymath.ts over
-- the constants of helpers/constants.ts. A `BigNumber` is a signed integer of any size, whose `div`
-- rounds towards zero. A division by a constant cannot throw and is written without a test.
mod Defs
mod Natural
mod Rounding
mod Examples
unfoldable pub use Defs.*
unfoldable pub use Natural.*
pub use Rounding.*
