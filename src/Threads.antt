-- ===== src/Threads.antt =====
-- The goroutines of both servers inside `acquire`, `release` and `list` of solutions/go-sharded/main.go
-- and solutions/go-inmemory/main.go, one access to shared memory at a time. Each map has a mutex of its own,
-- and a key lives in the map `home key`: 64 maps in go-sharded, where `home` is the masked hash, and one
-- in go-inmemory.
pub mod System
pub mod Exclusion
pub mod Loops
pub mod Steady
pub mod Serial
pub mod History
pub mod Responses
pub mod Gathered
pub mod Listings
pub mod Work
pub mod Ready
pub mod Progress
use distributed_locking.Base.{
  ℕ, zero, suc, ◌+◌, ◌-◌, ◌≤◌, ◌<◌, ◌≡◌, String, Bool, true, false, not, Option, none, some, List,
  [], ◌∷◌, ◌++◌, map, ◌==◌, if◌then◌else◌,
}
use distributed_locking.Base.Sums.{update}
use distributed_locking.Map.{Map, RangeOrder, lookup, insert, remove, values}
use distributed_locking.Lock.{Lock, Time}
use distributed_locking.Status

-- How many maps there are, and in how many parts the loop of `list` over a map reads it. A part is any
-- number of entries, none included: with as many parts as a map has entries, every other access may
-- come between any two of them.
pub record Layout : Type 0 where
  pub count : ℕ
  pub parts : ℕ

-- a call of `acquire` or `release`, and what any call returns
pub data Write : Type 0 where
  acquire : String → String → Bool → Write
  release : String → String → Write

abbrev pub key_of : Write → String
key_of (acquire key lockee force) = key
key_of (release key lockee) = key

pub data Answer : Type 0 where
  locked : Lock → Bool → Answer
  released : ℕ → String → Answer
  listed : List Lock → Answer

-- `sync.RWMutex`: `Lock` waits until nobody holds it, `RLock` until nobody holds it for writing.
pub record Mutex : Type 0 where
  pub writer : Bool
  pub readers : ℕ

pub record Memory : Type 0 where
  pub maps : ℕ → Map Lock
  pub mu : ℕ → Mutex

-- Where a goroutine stands, with the local variables that are live there.
pub data Pc : Type 0 where
  waiting : Write → Pc  -- before `mu.Lock()`
  inside : Write → Pc  -- before `existing, ok := locks[key]`
  found : Write → Option Lock → Pc  -- with `existing`
  leaving : ℕ → Answer → Pc  -- before the deferred `mu.Unlock()` of that map
  scanning : ℕ → List Lock → Pc  -- before `mu.RLock()` of the next map
  reading : ℕ → List Lock → Pc  -- before the loop over the map
  -- in the loop, with what was read of the map, the keys to come, and the parts to come but the last
  ranging : ℕ → List Lock → List Lock → List String → ℕ → Pc
  gathered : ℕ → List Lock → Pc  -- before `mu.RUnlock()`
  returned : Answer → Pc

-- From `existing` to the return: the map as it is left, and the answer.
unfoldable pub conclude : Write → Option Lock → Time → Map Lock → Map Lock × Answer
conclude (acquire key lockee force) existing now m =
    let l : Lock = record { key = key; lockee = lockee; since = now } in
    elim existing [
      | some held ↦
          if held.lockee == lockee
          then (m, locked held true)
          else if not force
          then (m, locked held false)
          else (insert key l m, locked l true)
      | none ↦ (insert key l m, locked l true)
    ]
conclude (release key lockee) existing now m = elim existing [
  | none ↦ (m, released Status.not_found "not found")
  | some held ↦
      if not (held.lockee == lockee)
      then (m, released Status.forbidden "lockee mismatch")
      else (remove key m, released Status.ok "")
]

abbrev pub with_mu : Memory → ℕ → Mutex → Memory
with_mu m k mutex = record m { mu = update m.mu k mutex }

abbrev pub with_map : Memory → ℕ → Map Lock → Memory
with_map m k entries = record m { maps = update m.maps k entries }

-- What a loop reads at keys that it has yet to visit: the entries that are still there, as they are
-- now. The order of the visits is chosen when the loop begins.
unfoldable pub still : Map Lock → List String → List Lock
still m [] = []
still m (key ∷ keys) =
    let rest = still m keys in elim (lookup key m) [ none ↦ rest | some l ↦ l ∷ rest ]

abbrev pub keys_of : List Lock → List String
keys_of ls = map (λ l. l.key) ls

-- One access of one goroutine. The time and the order of a loop over a map are left open.
pub data Advance (layout : Layout) (home : String → ℕ) (m : Memory)
    : Pc → Memory → Pc → Type 0 where
  lock :
      {w : Write}
      → (m.mu (home (key_of w))).writer ≡ false
      → (m.mu (home (key_of w))).readers ≡ 0
      → Advance layout home m
          (waiting w)
          (with_mu m (home (key_of w)) (record { writer = true; readers = 0 }))
          (inside w)
  look :
      {w : Write}
      → Advance layout home m (inside w) m (found w (lookup (key_of w) (m.maps (home (key_of w)))))
  put :
      {w : Write} {existing : Option Lock} (now : Time)
      → Advance layout home m
          (found w existing)
          (with_map m (home (key_of w)) (conclude w existing now (m.maps (home (key_of w)))).0)
          (leaving (home (key_of w)) (conclude w existing now (m.maps (home (key_of w)))).1)
  unlock :
      {k : ℕ} {a : Answer}
      → Advance layout home m
          (leaving k a)
          (with_mu m k (record { writer = false; readers = (m.mu k).readers }))
          (returned a)
  rlock :
      {k : ℕ} {ls : List Lock}
      → k < layout.count
      → (m.mu k).writer ≡ false
      → Advance layout home m
          (scanning k ls)
          (with_mu m k (record { writer = false; readers = (m.mu k).readers + 1 }))
          (reading k ls)
  range :
      {k : ℕ} {ls : List Lock} (o : RangeOrder Lock)
      → Advance layout home m
          (reading k ls)
          m
          (ranging k ls [] (keys_of (o.arrange (values (m.maps k)))) layout.parts)
  read :
      {k c : ℕ} {ls got : List Lock} (now later : List String)
      → Advance layout home m
          (ranging k ls got (now ++ later) (suc c))
          m
          (ranging k ls (got ++ still (m.maps k) now) later c)
  read_last :
      {k : ℕ} {ls got : List Lock} {keys : List String}
      → Advance layout home m
          (ranging k ls got keys 0)
          m
          (gathered k (ls ++ (got ++ still (m.maps k) keys)))
  runlock :
      {k : ℕ} {ls : List Lock}
      → Advance layout home m
          (gathered k ls)
          (with_mu m k (record { writer = (m.mu k).writer; readers = (m.mu k).readers - 1 }))
          (scanning (suc k) ls)
  all_read :
      {k : ℕ} {ls : List Lock}
      → layout.count ≤ k
      → Advance layout home m (scanning k ls) m (returned (listed ls))
