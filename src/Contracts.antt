-- ===== src/Contracts.antt =====
-- The contracts that the reference calculations predict, over words of 256 bits: the arithmetic
-- libraries of contracts/protocol/libraries/math and the interest rate strategy.
pub mod Words
pub mod FixedPoint
pub mod Interest
pub mod Predicts
pub mod RateStrategy
mod Examples
