-- ===== src/Field.antt =====
-- disastermind/tier2/field: the agent that gives teams their orders.
pub mod Model
pub mod Teams
pub mod Giving
pub mod Orders
pub mod Agent
pub mod Beacons
pub mod Hints
pub mod Choices
pub mod Batches
pub mod Totals
mod Tests
