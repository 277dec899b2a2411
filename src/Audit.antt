-- ===== src/Audit.antt =====
-- disastermind/audit/decision_log.py: the hash-chained decision log.
pub mod Log
pub mod Chain
pub mod Tamper
pub mod Lines
pub mod Recovery
pub mod Writes
mod Tests
