-- ===== src/Bench/Race/Partition.antt =====
-- The workers of a scenario with partitioned keys share none.
use distributed_locking.Base.{ℕ, ◌≡◌, ap, ◌∙◌, String, true, false, none, ◌==◌, arith}
use distributed_locking.Spec
use distributed_locking.Http.Api.{is_missing}
use distributed_locking.Format.Injective.{prefixed-present}
use distributed_locking.Bench.Keys.{ScenarioCfg, key_name}
use distributed_locking.Bench.Keys.Disjoint.{
  worker_keys-apart, length-worker_keys, worker_keys-names,
}
use distributed_locking.Bench.Race.{build_worker}
use distributed_locking.Bench.Race.Owned.{IsPartition, HasKey}

pub key_name-present : (n : ℕ) → (key_name n == "") ≡ false
unfolding key_name
key_name-present n = prefixed-present "key-" n (omega arith)

worker-present :
    (cfg : ScenarioCfg) (a : ℕ) (k : String)
    → (m : ℕ) × (k ≡ key_name m)
    → is_missing k (build_worker cfg a).lockee ≡ false
unfolding build_worker
worker-present cfg a k (m, named) =
    rw (named, key_name-present m) (prefixed-present "worker-" a (omega arith))

pub build_worker-IsPartition :
    (cfg : ScenarioCfg) → cfg.partition_keys ≡ true → IsPartition (build_worker cfg)
unfolding build_worker
build_worker-IsPartition cfg parts = record {
  has_key = λ a. length-worker_keys cfg a parts;
  apart = λ a b i j k l. worker_keys-apart cfg a b i j k l parts;
  present = λ a i k e. worker-present cfg a k (worker_keys-names cfg a i k parts e);
}

pub pool_free :
    (cfg : ScenarioCfg) (t : Spec.Table)
    → cfg.partition_keys ≡ true
    → ((i : ℕ) → t (key_name i) ≡ none)
    → (j : ℕ) (k : String) → HasKey (build_worker cfg) j k
    → t k ≡ none
unfolding build_worker
pool_free cfg t parts free j k (i, e) =
    let (m, named) = worker_keys-names cfg j i k parts e in ap t named ∙ free m
