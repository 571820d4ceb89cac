-- ===== src/Store.antt =====
-- The interface between the HTTP handlers and the two stores: the methods of `*store`, and the laws
-- that make a store a lock table. `none` is a run-time panic.
use mathlib.Core.List.Perm
use distributed_locking.Base.{ℕ, ◌≡◌, String, Bool, Option, some, List}
use distributed_locking.Map.{RangeOrder}
use distributed_locking.Lock.{Lock, Time}
use distributed_locking.Lock.Listing.{find, Distinct}
use distributed_locking.Spec

-- the order that each `range` over a map takes, numbered by the map
abbrev pub Orders : Type 0
Orders = ℕ → RangeOrder Lock

-- every map in the order of its entries
abbrev pub in_order : Orders
in_order i = record { arrange = λ l. l; arrange-perm = λ l. Perm.refl l }

pub record LockStore : Type 1 where
  pub State : Type 0
  pub new_store : State
  pub acquire : State → String → String → Bool → Time → Option (State × Lock × Bool)
  pub release : State → String → String → Option (State × ℕ × String)
  pub list : Orders → State → List Lock

module _ (store : LockStore) where
  open store use {State, new_store, acquire, release, list}

  pub record LockStoreLaws : Type 1 where
    pub IsValid : State → Type 0
    pub view : State → Spec.Table
    pub new_store-IsValid : IsValid new_store
    pub view-new_store : view new_store ≡ Spec.empty
    pub acquire_lem :
        (s : State) (key lockee : String) (force : Bool) (now : Time)
        → IsValid s
        → (t : State) × (l : Lock) × (b : Bool) × (acquire s key lockee force now ≡ some (t, l, b))
          × IsValid t
          × ((view t, l, b) ≡ Spec.acquire (view s) key lockee force now)
    pub release_lem :
        (s : State) (key lockee : String)
        → IsValid s
        → (t : State) × (status : ℕ) × (msg : String) × (release s key lockee
            ≡ some (t, status, msg))
          × IsValid t
          × ((view t, status, msg) ≡ Spec.release (view s) key lockee)
    pub list-Distinct : (o : Orders) (s : State) → IsValid s → Distinct (list o s)
    pub find-list :
        (o : Orders) (s : State) (key : String) → IsValid s → find key (list o s) ≡ view s key
