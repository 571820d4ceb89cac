-- ===== src/InMemory.antt =====
-- solutions/go-inmemory/main.go: one map of locks behind one mutex. Each method holds `s.mu` from
-- its first line to its return, so it is one step on the map.
pub mod Refines
use distributed_locking.Base.{
  ℕ, Bool, true, false, not, String, Option, none, some, List, [], ◌==◌, if◌then◌else◌,
}
use distributed_locking.Map.{Map, RangeOrder, lookup, insert, remove, values}
use distributed_locking.Lock.{Lock, Time}
use distributed_locking.Status

pub record Store : Type 0 where
  pub locks : Map Lock

unfoldable pub new_store : Store
new_store = record { locks = [] }

-- the last three lines of `acquire`
store_lock : Store → String → String → Time → Store × Lock × Bool
store_lock s key lockee now =
    let l : Lock = record { key = key; lockee = lockee; since = now } in
    (record { locks = insert key l s.locks }, l, true)

unfoldable pub acquire : Store → String → String → Bool → Time → Store × Lock × Bool
unfolding store_lock
acquire s key lockee force now = elim (lookup key s.locks) [
  | some existing ↦
      if existing.lockee == lockee
      then (s, existing, true)
      else if not force
      then (s, existing, false)
      else store_lock s key lockee now
  | none ↦ store_lock s key lockee now
]

unfoldable pub release : Store → String → String → Store × ℕ × String
release s key lockee = elim (lookup key s.locks) [
  | none ↦ (s, Status.not_found, "not found")
  | some existing ↦
      if not (existing.lockee == lockee)
      then (s, Status.forbidden, "lockee mismatch")
      else (record { locks = remove key s.locks }, Status.ok, "")
]

-- `append` of each value, in the order of the `range`
unfoldable pub list : RangeOrder Lock → Store → List Lock
list o s = o.arrange (values s.locks)
