-- ===== src/Tests/Stores.antt =====
-- The methods of the two stores.
use distributed_locking.Base.{ℕ, ◌≡◌, refl, String, Bool, true, false, some, []}
use distributed_locking.Map.{lookup, insert, remove, values}
use distributed_locking.Lock.{Lock}
use distributed_locking.Lock.Listing.{find, Distinct}
use distributed_locking.Status
use distributed_locking.Spec
use distributed_locking.Store.{in_order}
use distributed_locking.InMemory
use distributed_locking.InMemory.Refines
use distributed_locking.InMemory.Refines.{IsValid, view}
use distributed_locking.Sharded
use distributed_locking.Sharded.Refines as ShardRefines
use distributed_locking.Tests.Data.{hash, lock_a, holds_a}

unfold_stores : Unit {0}
unfolding lookup insert remove values InMemory.acquire InMemory.release InMemory.list
    Sharded.acquire Sharded.acquire_in Sharded.release Sharded.release_in Sharded.list
    Sharded.new_store Sharded.shard_of
unfold_stores = tt

-- Re-acquiring keeps the time stamp; force replaces it.
acquire_branches :
    (InMemory.acquire holds_a "a" "ann" false 9 ≡ (holds_a, lock_a, true))
    × (InMemory.acquire holds_a "a" "bob" false 9 ≡ (holds_a, lock_a, false))
    × ((InMemory.acquire holds_a "a" "bob" true 9).1
        ≡ record { key = "a"; lockee = "bob"; since = 9 })
unfolding unfold_stores
acquire_branches = (refl, refl, refl)

release_branches :
    (InMemory.release holds_a "b" "ann" ≡ (holds_a, Status.not_found, "not found"))
    × (InMemory.release holds_a "a" "bob" ≡ (holds_a, Status.forbidden, "lockee mismatch"))
    × (InMemory.release holds_a "a" "ann" ≡ (record { locks = [] }, Status.ok, ""))
unfolding unfold_stores
release_branches = (refl, refl, refl)

-- "a" is 1 byte long, so its lock is put into shard 1 of the new store.
shard_of_a : Sharded.shard_of hash "a" ≡ 1
unfolding unfold_stores
shard_of_a = refl

holds_a-IsValid : IsValid holds_a
unfolding unfold_stores
holds_a-IsValid = record { is_map = (refl, tt); is_keyed = (refl, tt) }

new_shards-IsValid : ShardRefines.IsValid hash Sharded.new_store
new_shards-IsValid = ShardRefines.new_store-IsValid hash

acquire-eq_lem_example :
    let (t, l, b) = InMemory.acquire holds_a "a" "bob" true 9 in
    (view t, l, b) ≡ Spec.acquire (view holds_a) "a" "bob" true 9
acquire-eq_lem_example = Refines.acquire-eq_lem holds_a "a" "bob" true 9

release-eq_lem_example :
    let (t, status, msg) = InMemory.release holds_a "a" "ann" in
    (view t, status, msg) ≡ Spec.release (view holds_a) "a" "ann"
release-eq_lem_example = Refines.release-eq_lem holds_a "a" "ann" holds_a-IsValid

listing-exact_example :
    Distinct (InMemory.list (in_order 0) holds_a)
    × ((key : String) → find key (InMemory.list (in_order 0) holds_a) ≡ view holds_a key)
listing-exact_example = Refines.listing-exact (in_order 0) holds_a holds_a-IsValid

acquire-Refines_example :
    (t : Sharded.Store) × (l : Lock) × (b : Bool) × (Sharded.acquire hash Sharded.new_store "a"
        "ann" false 1
      ≡ some (t, l, b))
    × ShardRefines.IsValid hash t
    × ((ShardRefines.view hash t, l, b)
        ≡ Spec.acquire (ShardRefines.view hash Sharded.new_store) "a" "ann" false 1)
acquire-Refines_example =
    ShardRefines.acquire-Refines hash Sharded.new_store "a" "ann" false 1 new_shards-IsValid

release-Refines_example :
    (t : Sharded.Store) × (status : ℕ) × (msg : String) × (Sharded.release hash Sharded.new_store
        "a" "ann"
      ≡ some (t, status, msg))
    × ShardRefines.IsValid hash t
    × ((ShardRefines.view hash t, status, msg)
        ≡ Spec.release (ShardRefines.view hash Sharded.new_store) "a" "ann")
release-Refines_example =
    ShardRefines.release-Refines hash Sharded.new_store "a" "ann" new_shards-IsValid

shards_listing-exact_example :
    Distinct (Sharded.list in_order Sharded.new_store)
    × ((key : String)
        → find key (Sharded.list in_order Sharded.new_store)
          ≡ ShardRefines.view hash Sharded.new_store key)
shards_listing-exact_example =
    ShardRefines.shards_listing-exact hash in_order Sharded.new_store new_shards-IsValid
