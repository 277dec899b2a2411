-- ===== src/Resource.antt =====
-- disastermind/tier2/resource: which asset goes to which cell.
pub mod Real
pub mod Demand
pub mod Pairs
pub mod Optimizer
pub mod Steps
pub mod Greedy
pub mod Inputs
pub mod Allocation
pub mod Fallback
mod Tests
