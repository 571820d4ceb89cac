-- ===== src/Sharded/Defs.antt =====
-- solutions/go-sharded/main.go: 64 maps, each behind a mutex of its own; a key lives in the map that
-- its hash selects. The hash is that of go.dw1.io/rapidhash and is a parameter.
use Prim.Native.Nat.{bit_and}
use distributed_locking.Base.{
  ℕ, zero, suc, ◌-◌, ◌+◌, Bool, true, false, not, String, Option, none, some, List, [], ◌∷◌, ◌++◌,
  ◌==◌, get_elem?, set, if◌then◌else◌,
}
use distributed_locking.Map.{Map, lookup, insert, remove, values}
use distributed_locking.Lock.{Lock, Time}
use distributed_locking.Status
use distributed_locking.Store.{Orders}

abbrev pub shard_count : ℕ
shard_count = 64

pub record LockShard : Type 0 where
  pub shard_key : ℕ  -- uint64
  pub locks : Map Lock

pub record Store : Type 0 where
  pub shards : List LockShard

-- the loop of `newStore`: `n` shards, the first with key `i`
unfoldable pub new_shards : ℕ → ℕ → List LockShard
new_shards zero i = []
new_shards (suc n) i = record { shard_key = i; locks = [] } ∷ new_shards n (i + 1)

unfoldable pub new_store : Store
unfolding new_shards
new_store = record { shards = new_shards 64 0 }

-- the methods' bodies, once the shard is found and its mutex held
store_lock : LockShard → String → String → Time → LockShard × Lock × Bool
store_lock shard_info key lockee now =
    let l : Lock = record { key = key; lockee = lockee; since = now } in
    (record shard_info { locks = insert key l shard_info.locks }, l, true)

unfoldable pub acquire_in : LockShard → String → String → Bool → Time → LockShard × Lock × Bool
unfolding store_lock
acquire_in shard_info key lockee force now = elim (lookup key shard_info.locks) [
  | some existing ↦
      if existing.lockee == lockee
      then (shard_info, existing, true)
      else if not force
      then (shard_info, existing, false)
      else store_lock shard_info key lockee now
  | none ↦ store_lock shard_info key lockee now
]

unfoldable pub release_in : LockShard → String → String → LockShard × ℕ × String
release_in shard_info key lockee = elim (lookup key shard_info.locks) [
  | none ↦ (shard_info, Status.not_found, "not found")
  | some existing ↦
      if not (existing.lockee == lockee)
      then (shard_info, Status.forbidden, "lockee mismatch")
      else (record shard_info { locks = remove key shard_info.locks }, Status.ok, "")
]

-- the loop of `list`, from the shard with index `i` on
unfoldable pub list_shards : Orders → ℕ → List LockShard → List Lock
list_shards o i [] = []
list_shards o i (shard ∷ shards) =
    (o i).arrange (values shard.locks) ++ list_shards o (i + 1) shards

unfoldable pub list : Orders → Store → List Lock
unfolding list_shards
list o s = list_shards o 0 s.shards

module _ (hash : String → ℕ) where
  -- `hash & (SHARD_COUNT - 1)`
  unfoldable pub shard_of : String → ℕ
  shard_of key = bit_and (hash key) (shard_count - 1)

  -- `s.shards[shard]`, and the shard as the body leaves it; an index out of range panics
  unfoldable pub acquire : Store → String → String → Bool → Time → Option (Store × Lock × Bool)
  unfolding shard_of
  acquire s key lockee force now = elim (get_elem? s.shards (shard_of key)) [
    | none ↦ none
    | some shard_info ↦
        let (after, l, acquired) = acquire_in shard_info key lockee force now in
        some (record { shards = set s.shards (shard_of key) after }, l, acquired)
  ]

  unfoldable pub release : Store → String → String → Option (Store × ℕ × String)
  unfolding shard_of
  release s key lockee = elim (get_elem? s.shards (shard_of key)) [
    | none ↦ none
    | some shard_info ↦
        let (after, status, msg) = release_in shard_info key lockee in
        some (record { shards = set s.shards (shard_of key) after }, status, msg)
  ]
