-- ===== src/Lock.antt =====
-- `type Lock struct` of solutions/go-inmemory/main.go and solutions/go-sharded/main.go, and lists
-- of locks as a reader of a listing sees them.
pub mod Listing
use distributed_locking.Base.{ℕ, String}

-- `time.Time` in UTC: nanoseconds since the epoch. `time.Now()` is an argument of what calls it.
abbrev pub Time : Type 0
Time = ℕ

pub record Lock : Type 0 where
  pub key : String
  pub lockee : String
  pub since : Time
