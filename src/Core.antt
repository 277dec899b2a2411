-- ===== src/Core.antt =====
-- disastermind/core
pub mod Value
pub mod Text
pub mod TextOrder
pub mod LowerCase
pub mod Convert
pub mod Split
pub mod Dict
pub mod Contracts
