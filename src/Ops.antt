-- ===== src/Ops.antt =====
-- disastermind/ops: guards around calls of external services.
pub mod Breaker
pub mod States
pub mod Retry
pub mod Attempts
pub mod Trips
mod Tests
