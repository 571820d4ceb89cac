-- ===== src/Tests.antt =====
-- Runs of the model on small inputs, and the theorems at inputs that meet their hypotheses.
mod Data
mod Stores
mod Api
mod Validation
mod Benchmark
mod Containers
mod Concurrency
mod Running
mod Reports
