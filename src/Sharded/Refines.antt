-- ===== src/Sharded/Refines.antt =====
-- The store of go-sharded is a lock table, whatever the hash function.
use mathlib.Core.Path.{fun_ext}
use distributed_locking.Base.{
  ℕ, ◌+◌, ◌<◌, ◌≡◌, refl, ap, ◌∙◌, Bool, String, Option, none, some, arith, length, get_elem?, set,
  get_elem?-lt, get_elem?-set_self, get_elem?-set_ne, length-set, eq_iff, ℕ_discrete,
}
use distributed_locking.Base.Bits.{bit_and-63}
use distributed_locking.Map.{lookup}
use distributed_locking.Lock.{Lock, Time}
use distributed_locking.Lock.Listing.{find, Distinct}
use distributed_locking.Spec
use distributed_locking.Store.{Orders, LockStore, LockStoreLaws}
use distributed_locking.Spec.Laws.{table_path₂}
use distributed_locking.Sharded.Defs.{
  LockShard, Store, new_store, acquire_in, release_in, list, shard_of, acquire, release,
}
use distributed_locking.Sharded.Bodies.{
  after_body, acquire_in-IsShard, release_in-IsShard, lookup-acquire_in, lookup-release_in,
  acquire_in-lock, acquire_in-flag, release_in-status, release_in-message, length-new_shards,
  locks-new_shards, IsShard-of_empty, look-new_shards,
}
use distributed_locking.Sharded.Shards.{
  look, IsShard, AreShards, set-AreShards, find-list_shards, list_shards-Distinct,
}

module _ (hash : String → ℕ) where
  shard_of-lt : (key : String) → shard_of hash key < 64
  unfolding shard_of
  shard_of-lt key = omega (arith, bit_and-63 (hash key))

  pub record IsValid (s : Store) : Type 0 where
    pub count : length s.shards ≡ 64
    pub are_shards : AreShards (shard_of hash) 0 s.shards

  abbrev pub view : Store → Spec.Table
  view s key = look (get_elem? s.shards (shard_of hash key)) key

  -- A method finds the shard of its key, and leaves the store valid if its body leaves the shard so.
  module _ (s : Store) (v : IsValid s) (key : String) where
    own_shard : (shard : LockShard) × (get_elem? s.shards (shard_of hash key) ≡ some shard)
    own_shard = get_elem?-lt s.shards (shard_of hash key) (omega (arith, shard_of-lt key, v.count))

    own-IsShard :
        (shard : LockShard)
        → get_elem? s.shards (shard_of hash key) ≡ some shard
        → IsShard (shard_of hash) (shard_of hash key) shard
    own-IsShard shard e =
        let index : 0 + shard_of hash key ≡ shard_of hash key = omega arith in
        rw index at (v.are_shards (shard_of hash key) shard e)

    set-IsValid :
        (after : LockShard)
        → IsShard (shard_of hash) (shard_of hash key) after
        → IsValid (record { shards = set s.shards (shard_of hash key) after })
    set-IsValid after w = record {
      count = length-set s.shards _ after ∙ v.count;
      are_shards =
          set-AreShards (shard_of hash) (shard_of hash key) s.shards after v.are_shards
            (omega (arith, shard_of-lt key, v.count)) w;
    }

    view-set :
        (shard after : LockShard) (writes : Bool) (new : Option Lock)
        → get_elem? s.shards (shard_of hash key) ≡ some shard
        → ((j : String) → lookup j after.locks ≡ after_body writes key new j (lookup j shard.locks))
        → (j : String)
        → view (record { shards = set s.shards (shard_of hash key) after }) j
          ≡ after_body writes key new j (view s j)
    view-set shard after writes new e body j =
        elim (ℕ_discrete (shard_of hash key) (shard_of hash j)) [
          | yes same ↦
              let written =
                get_elem?-set_self s.shards (shard_of hash key) after
                  (omega (arith, shard_of-lt key, v.count)) in
              ground (arith, rw same at e, rw same at written, body j)
          | no other ↦ ground (
            arith,
            eq_iff key j,
            ap (shard_of hash) {x = key} {y = j},
            get_elem?-set_ne s.shards _ _ after other,
          )
        ]

  -- Of a valid store, `acquire` finds its shard (no index is out of range), leaves a valid store, and
  -- changes the table and answers as the specification says.
  pub acquire-Refines :
      (s : Store) (key lockee : String) (force : Bool) (now : Time)
      → IsValid s
      → (t : Store) × (l : Lock) × (b : Bool) × (acquire hash s key lockee force now
          ≡ some (t, l, b))
        × IsValid t
        × ((view t, l, b) ≡ Spec.acquire (view s) key lockee force now)
  unfolding acquire
  acquire-Refines s key lockee force now v =
      let (shard, e) = own_shard s v key in
      let w = own-IsShard s v key shard e in
      let entry : view s key ≡ lookup key shard.locks = rw e in
      let (after, l, b) = acquire_in shard key lockee force now in
      (
        record { shards = set s.shards (shard_of hash key) after },
        l,
        b,
        rw (e, acquire),
        set-IsValid s v key after
            (acquire_in-IsShard (shard_of hash) _ shard w key lockee force now refl),
        table_path₂
            (λ j.
              view-set s v key shard after (Spec.taken (lookup key shard.locks) lockee force)
                (some (Spec.fresh key lockee now)) e
                (lookup-acquire_in (shard_of hash) _ shard w key lockee force now) j
              ∙ ground (arith, entry))
            (acquire_in-lock shard key lockee force now ∙ rw e)
            (acquire_in-flag shard key lockee force now ∙ rw e),
      )

  -- Of a valid store, `release` finds its shard, leaves a valid store, and changes the table and
  -- answers as the specification says.
  pub release-Refines :
      (s : Store) (key lockee : String)
      → IsValid s
      → (t : Store) × (status : ℕ) × (msg : String) × (release hash s key lockee
          ≡ some (t, status, msg))
        × IsValid t
        × ((view t, status, msg) ≡ Spec.release (view s) key lockee)
  unfolding release
  release-Refines s key lockee v =
      let (shard, e) = own_shard s v key in
      let w = own-IsShard s v key shard e in
      let entry : view s key ≡ lookup key shard.locks = rw e in
      let (after, status, msg) = release_in shard key lockee in
      (
        record { shards = set s.shards (shard_of hash key) after },
        status,
        msg,
        rw (e, release),
        set-IsValid s v key after (release_in-IsShard (shard_of hash) _ shard w key lockee),
        table_path₂
            (λ j.
              view-set s v key shard after (Spec.is_held_by lockee (lookup key shard.locks)) none e
                (lookup-release_in (shard_of hash) _ shard w key lockee) j
              ∙ ground (arith, entry))
            (release_in-status shard key lockee ∙ rw e)
            (release_in-message shard key lockee ∙ rw e),
      )

  pub list-view :
      (o : Orders) (s : Store) (key : String) → IsValid s → find key (list o s) ≡ view s key
  unfolding list
  list-view o s key v =
      find-list_shards (shard_of hash) o 0 (shard_of hash key) s.shards key v.are_shards
        (omega arith)

  pub list-IsDistinct : (o : Orders) (s : Store) → IsValid s → Distinct (list o s)
  unfolding list
  list-IsDistinct o s v = list_shards-Distinct (shard_of hash) o 0 s.shards v.are_shards

  -- Of a valid store, `list` lists each held key once, with the lock that its shard holds, and nothing
  -- else, in whatever order each shard is read.
  pub shards_listing-exact :
      (o : Orders) (s : Store)
      → IsValid s
      → Distinct (list o s) × ((key : String) → find key (list o s) ≡ view s key)
  shards_listing-exact o s v = (list-IsDistinct o s v, λ key. list-view o s key v)

  pub new_store-IsValid : IsValid new_store
  unfolding new_store
  new_store-IsValid = record {
    count = length-new_shards 64 0;
    are_shards = λ j shard e. IsShard-of_empty _ _ shard (locks-new_shards 64 0 j shard e);
  }

  -- the methods behind the interface
  abbrev pub sharded : LockStore
  sharded = record {
    State = Store;
    new_store = new_store;
    acquire = acquire hash;
    release = release hash;
    list = list;
  }

  -- The store of go-sharded implements the lock table of the specification.
  unfoldable pub sharded_laws : LockStoreLaws sharded
  unfolding new_store
  sharded_laws = record {
    IsValid = IsValid;
    view = view;
    new_store-IsValid = new_store-IsValid;
    view-new_store = fun_ext (λ key. look-new_shards 64 0 (shard_of hash key) key);
    acquire_lem = acquire-Refines;
    release_lem = release-Refines;
    list-Distinct = list-IsDistinct;
    find-list = list-view;
  }
