-- ===== src/Suite.antt =====
-- The harness of the scenario tests, which drives the contracts and compares what they hold with the
-- calculations: test-suites/helpers.
pub mod Compare
pub mod Chain
pub mod Reading
pub mod Actions
pub mod Engine
pub mod Events
pub mod TokenEvents
mod Examples
