-- ===== src/Reconcile.antt =====
-- disastermind/models: observations, the reconciliation policy, and the canonical state and the
-- history that are derived from them.
pub mod Policy
pub mod Observation
pub mod Ranking
pub mod Select
pub mod Fold
pub mod History
pub mod Timeline
pub mod Ledger
pub mod Numbered
pub mod Withdrawn
pub mod Audited
mod Tests
