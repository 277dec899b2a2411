-- ===== src/Dispatch.antt =====
-- disastermind/tier3/dispatch: the delivery of dispatch orders.
pub mod Channel
pub mod Router
pub mod Targets
pub mod Handle
pub mod Receipts
pub mod Delivery
pub mod Execution
pub mod Acks
pub mod Construction
mod Tests
