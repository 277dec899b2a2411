-- ===== src/Federation.antt =====
-- disastermind/federation: the aid that districts ask of each other.
pub mod Model
pub mod Messages
pub mod RoundTrips
pub mod Coordinator
pub mod Answering
pub mod Nearest
pub mod Requests
pub mod Answers
mod Tests
