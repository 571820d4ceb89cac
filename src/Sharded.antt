-- ===== src/Sharded.antt =====
-- solutions/go-sharded/main.go: the definitions, and that they implement the lock table.
mod Defs
pub mod Shards
pub mod Bodies
pub mod Refines
unfoldable pub use Defs.*
