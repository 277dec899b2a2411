-- ===== src/Commander.antt =====
-- disastermind/tier1/commander: the autonomy matrix, and the agent that applies it.
pub mod Autonomy
pub mod Matrix
pub mod State
pub mod Agent
pub mod Pending
pub mod Events
pub mod Authority
pub mod Emit
pub mod HumanOnly
pub mod Sweep
pub mod Responses
mod Tests
