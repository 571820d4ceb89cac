-- ===== src/Bench/Keys.antt =====
-- The keys that a worker locks: `makeKeys` and the two ways in `buildWorker` of
-- benchmark/scenarios.go.
pub mod Disjoint
use Prim.Native.String.{◌++◌ as str_append}
use distributed_locking.Base.{
  ℕ, zero, suc, ◌+◌, ◌*◌, ◌/◌, String, Bool, List, [], ◌∷◌, ltb, if◌then◌else◌,
}
use distributed_locking.Format.{decimal}

-- `fmt.Sprintf("key-%d", n)`
unfoldable pub key_name : ℕ → String
key_name n = str_append "key-" (decimal n)

-- the loop that fills `keys`: `count` names, the first of number `n`
unfoldable pub fill_keys : ℕ → ℕ → List String
unfolding key_name
fill_keys zero n = []
fill_keys (suc count) n = key_name n ∷ fill_keys count (n + 1)

-- The keys for each worker. A division by zero panics; each caller has a worker.
unfoldable pub per_worker : ℕ → ℕ → ℕ
per_worker pool_size total_workers =
    let share = pool_size / total_workers in if ltb share 1 then 1 else share

unfoldable pub make_keys : ℕ → ℕ → ℕ → List String
unfolding per_worker fill_keys
make_keys worker_id pool_size total_workers =
    let share = per_worker pool_size total_workers in fill_keys share (worker_id * share)

-- the fields of `scenarioCfg` that `buildWorker` reads
pub record ScenarioCfg : Type 0 where
  pub id : String
  pub concurrency : ℕ
  pub key_pool_size : ℕ
  pub partition_keys : Bool

-- the keys of the worker that `buildWorker(id)` makes
unfoldable pub worker_keys : ScenarioCfg → ℕ → List String
unfolding per_worker fill_keys
worker_keys cfg id =
    if cfg.partition_keys
    then (let share = per_worker cfg.key_pool_size cfg.concurrency in fill_keys share (id * share))
    else fill_keys cfg.key_pool_size 0
