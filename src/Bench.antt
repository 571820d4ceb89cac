-- ===== src/Bench.antt =====
-- The load of the benchmark: benchmark/scenarios.go and benchmark/stats.go.
pub mod Keys
pub mod Stats
pub mod Worker
pub mod Race
pub mod Cut
pub mod Scenario
pub mod ListHeavy
