-- ===== src/Runtime.antt =====
-- disastermind/orchestration and disastermind/core/bus.py: activation, the coordination loop, the bus.
pub mod Triggers
pub mod Loop
pub mod Cycles
pub mod Activation
pub mod Bus
pub mod History
pub mod Incidents
pub mod Isolation
mod Tests
