-- ===== src/InMemory/Refines.antt =====
-- The store of go-inmemory is a lock table.
use distributed_locking.Base.{◌≡◌, refl, String, Bool, some, arith, eq_iff}
use distributed_locking.Map.{IsMap, RangeOrder, lookup}
use distributed_locking.Map.Laws.{lookup-insert, lookup-remove, insert-IsMap, remove-IsMap}
use distributed_locking.Lock.{Lock, Time}
use distributed_locking.Lock.Listing.{
  find, Distinct, find-arrange, IsKeyed, insert-IsKeyed, remove-IsKeyed,
}
use distributed_locking.Spec
use distributed_locking.Spec.Laws.{table_path₂}
use distributed_locking.Store.{LockStore, LockStoreLaws}
use distributed_locking.InMemory.{Store, new_store, store_lock, acquire, release, list}

pub record IsValid (s : Store) : Type 0 where
  pub is_map : IsMap s.locks
  pub is_keyed : IsKeyed s.locks

abbrev pub view : Store → Spec.Table
view s key = lookup key s.locks

store_lock-IsValid :
    (s : Store) (key lockee : String) (now : Time)
    → IsValid s
    → IsValid (store_lock s key lockee now).0
unfolding store_lock
store_lock-IsValid s key lockee now v = record {
  is_map = insert-IsMap _ _ s.locks v.is_map;
  is_keyed = insert-IsKeyed _ _ s.locks refl v.is_keyed;
}

-- `acquire` keeps a valid store valid, whichever branch it takes.
pub acquire-IsValid :
    (s : Store) (key lockee : String) (force : Bool) (now : Time)
    → IsValid s
    → IsValid (acquire s key lockee force now).0
unfolding acquire
acquire-IsValid s key lockee force now v = ground (
  arith,
  insert-IsMap key (record { key = key; lockee = lockee; since = now }) s.locks v.is_map,
  insert-IsKeyed key (record { key = key; lockee = lockee; since = now }) s.locks refl v.is_keyed,
)

-- `release` keeps a valid store valid, whichever branch it takes.
pub release-IsValid :
    (s : Store) (key lockee : String) → IsValid s → IsValid (release s key lockee).0
unfolding release
release-IsValid s key lockee v =
    ground (arith, remove-IsMap key s.locks v.is_map, remove-IsKeyed key s.locks v.is_keyed)

-- `acquire` reads and writes the table as the specification says, and answers its lock and flag.
pub acquire-eq_lem :
    (s : Store) (key lockee : String) (force : Bool) (now : Time)
    → let (t, l, b) = acquire s key lockee force now in
      (view t, l, b) ≡ Spec.acquire (view s) key lockee force now
unfolding acquire
acquire-eq_lem s key lockee force now =
    table_path₂ (λ j. ground (arith, eq_iff key j, lookup-insert key j new s.locks)) (ground arith)
      (ground arith)
  where
    new : Lock
    new = record { key = key; lockee = lockee; since = now }

-- Of a valid store, `release` reads and writes the table as the specification says, and answers its
-- status and its message.
pub release-eq_lem :
    (s : Store) (key lockee : String)
    → IsValid s
    → let (t, status, msg) = release s key lockee in
      (view t, status, msg) ≡ Spec.release (view s) key lockee
unfolding release
release-eq_lem s key lockee v =
    table_path₂ (λ j. ground (arith, eq_iff key j, lookup-remove key j s.locks v.is_map))
      (ground arith) (ground arith)

pub list-Distinct : (o : RangeOrder Lock) (s : Store) → IsValid s → Distinct (list o s)
unfolding list
list-Distinct o s v = (find-arrange o s.locks v.is_map v.is_keyed).0

pub find-list :
    (o : RangeOrder Lock) (s : Store) (key : String) → IsValid s → find key (list o s) ≡ view s key
unfolding list
find-list o s key v = (find-arrange o s.locks v.is_map v.is_keyed).1 key

-- Of a valid store, `list` lists each held key once, with the lock that the store holds there, and
-- nothing else, in whatever order the map is read.
pub listing-exact :
    (o : RangeOrder Lock) (s : Store)
    → IsValid s
    → Distinct (list o s) × ((key : String) → find key (list o s) ≡ view s key)
listing-exact o s v = (list-Distinct o s v, λ key. find-list o s key v)

pub new_store-IsValid : IsValid new_store
unfolding new_store
new_store-IsValid = record { is_map = tt; is_keyed = tt }

-- the methods behind the interface; this store never panics
abbrev pub in_memory : LockStore
in_memory = record {
  State = Store;
  new_store = new_store;
  acquire = λ s key lockee force now. some (acquire s key lockee force now);
  release = λ s key lockee. some (release s key lockee);
  list = λ o. list (o 0);
}

-- The store of go-inmemory implements the lock table of the specification.
unfoldable pub in_memory_laws : LockStoreLaws in_memory
unfolding new_store lookup
in_memory_laws = record {
  IsValid = IsValid;
  view = view;
  new_store-IsValid = new_store-IsValid;
  view-new_store = refl;
  acquire_lem = λ s key lockee force now v. (
    _,
    _,
    _,
    refl,
    acquire-IsValid s key lockee force now v,
    acquire-eq_lem s key lockee force now,
  );
  release_lem = λ s key lockee v.
      (_, _, _, refl, release-IsValid s key lockee v, release-eq_lem s key lockee v);
  list-Distinct = λ o. list-Distinct (o 0);
  find-list = λ o. find-list (o 0);
}
