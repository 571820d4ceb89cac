-- ===== src/Docker.antt =====
-- The containers of the benchmark: benchmark/docker.go.
pub mod Health
pub mod Containers
