-- ===== src/Http.antt =====
-- The lock API over HTTP: the messages, the handlers over a store, the API of spec.md over the lock
-- table, and that the handlers answer as the API says.
pub mod Messages
pub mod Handlers
pub mod Api
pub mod Refines
pub mod Runs
pub mod Refusals
pub mod Holding
