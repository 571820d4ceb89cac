-- ===== src/Validate.antt =====
-- benchmark/validate.go: the client, the validation, and what it says of a service.
pub mod Client
pub mod Checks
pub mod Reads
pub mod RoundTrip
pub mod Service
pub mod Passes
pub mod Verdicts
