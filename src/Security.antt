-- ===== src/Security.antt =====
-- disastermind/security: the rate limits, tokens and roles of the dashboard, and the middleware of
-- disastermind/api/server.py that asks for them.
pub mod RateLimit
pub mod Granted
pub mod Waiting
pub mod Auth
pub mod Gate
pub mod Admission
pub mod Permissions
mod Entry
mod Tests
