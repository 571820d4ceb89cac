-- ===== src/Sharded/Bodies.antt =====
-- What the methods of go-sharded do inside one shard, and the shards of a new store.
use distributed_locking.Base.{
  ℕ, ◌+◌, zero, suc, [], ◌≡◌, refl, ap, Bool, String, Option, none, some, ◌==◌, arith, length,
  get_elem?, eq_iff, if◌then◌else◌,
}
use distributed_locking.Map.{lookup}
use distributed_locking.Map.Laws.{lookup-insert, lookup-remove, insert-IsMap, remove-IsMap}
use distributed_locking.Lock.{Lock, Time}
use distributed_locking.Lock.Listing.{insert-IsKeyed, remove-IsKeyed}
use distributed_locking.Spec
use distributed_locking.Sharded.Defs.{LockShard, new_shards, acquire_in, release_in}
use distributed_locking.Sharded.Shards.{look, IsShard, insert-IsHomed, remove-IsHomed}

-- the entry of a key `j` after a body that may put `new` at `key`
abbrev pub after_body : Bool → String → Option Lock → String → Option Lock → Option Lock
after_body writes key new j old = if writes then (if key == j then new else old) else old

module _ (home : String → ℕ) (i : ℕ) (shard : LockShard) (v : IsShard home i shard) where
  open v use {is_map, is_keyed, is_homed}

  pub acquire_in-IsShard :
      (key lockee : String) (force : Bool) (now : Time)
      → home key ≡ i
      → IsShard home i (acquire_in shard key lockee force now).0
  unfolding acquire_in
  acquire_in-IsShard key lockee force now e =
      let new : Lock = record { key = key; lockee = lockee; since = now } in
      ground (
        arith,
        insert-IsMap key new shard.locks is_map,
        insert-IsKeyed key new shard.locks refl is_keyed,
        insert-IsHomed home i key new shard.locks e is_homed,
      )

  pub release_in-IsShard : (key lockee : String) → IsShard home i (release_in shard key lockee).0
  unfolding release_in
  release_in-IsShard key lockee = ground (
    arith,
    remove-IsMap key shard.locks is_map,
    remove-IsKeyed key shard.locks is_keyed,
    remove-IsHomed home i key shard.locks is_homed,
  )

  pub lookup-acquire_in :
      (key lockee : String) (force : Bool) (now : Time) (j : String)
      → lookup j (acquire_in shard key lockee force now).0.locks
        ≡ after_body
            (Spec.taken (lookup key shard.locks) lockee force)
            key
            (some (Spec.fresh key lockee now))
            j
            (lookup j shard.locks)
  unfolding acquire_in
  lookup-acquire_in key lockee force now j =
      ground (arith, eq_iff key j, lookup-insert key j (Spec.fresh key lockee now) shard.locks)

  pub lookup-release_in :
      (key lockee j : String)
      → lookup j (release_in shard key lockee).0.locks
        ≡ after_body
            (Spec.is_held_by lockee (lookup key shard.locks))
            key
            none
            j
            (lookup j shard.locks)
  unfolding release_in
  lookup-release_in key lockee j =
      ground (arith, eq_iff key j, lookup-remove key j shard.locks is_map)

-- the answers of the bodies, from the entry that they find
module _ (shard : LockShard) (key lockee : String) where
  pub acquire_in-lock :
      (force : Bool) (now : Time)
      → (acquire_in shard key lockee force now).1
        ≡ (Spec.acquire (look (some shard)) key lockee force now).1
  unfolding acquire_in
  acquire_in-lock force now = ground arith

  pub acquire_in-flag :
      (force : Bool) (now : Time)
      → (acquire_in shard key lockee force now).2
        ≡ (Spec.acquire (look (some shard)) key lockee force now).2
  unfolding acquire_in
  acquire_in-flag force now = ground arith

  pub release_in-status :
      (release_in shard key lockee).1 ≡ (Spec.release (look (some shard)) key lockee).1
  unfolding release_in
  release_in-status = ground arith

  pub release_in-message :
      (release_in shard key lockee).2 ≡ (Spec.release (look (some shard)) key lockee).2
  unfolding release_in
  release_in-message = ground arith

-- the shards of a new store are empty
pub length-new_shards : (n i : ℕ) → length (new_shards n i) ≡ n
unfolding new_shards
length-new_shards zero i = refl
length-new_shards (suc n) i = ap suc (length-new_shards n (i + 1))

pub locks-new_shards :
    (n i j : ℕ) (shard : LockShard) → get_elem? (new_shards n i) j ≡ some shard → shard.locks ≡ []
unfolding new_shards
locks-new_shards zero i j shard e = cc
locks-new_shards (suc n) i zero shard e = ground arith
locks-new_shards (suc n) i (suc j) shard e = locks-new_shards n (i + 1) j shard e

pub IsShard-of_empty :
    (home : String → ℕ) (i : ℕ) (shard : LockShard) → shard.locks ≡ [] → IsShard home i shard
IsShard-of_empty home i shard e = record {
  is_map = rw e tt;
  is_keyed = rw e tt;
  is_homed = rw e tt;
}

pub look-new_shards : (n i j : ℕ) (key : String) → look (get_elem? (new_shards n i) j) key ≡ none
unfolding new_shards lookup
look-new_shards zero i j key = refl
look-new_shards (suc n) i zero key = refl
look-new_shards (suc n) i (suc j) key = look-new_shards n (i + 1) j key
