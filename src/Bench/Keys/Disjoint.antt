-- ===== src/Bench/Keys/Disjoint.antt =====
-- Workers with partitioned keys never meet on a key, and stay within the pool.
use native.Mathlib.Nat.{mul-div-le, le-div_iff_mul-le}
use distributed_locking.Base.{
  ℕ, zero, suc, ◌+◌, ◌*◌, ◌/◌, ◌≤◌, ◌<◌, ◌≡◌, ◌≢◌, refl, sym, ap, ◌∙◌, String, true, some,
  get_elem?, length, arith,
}
use distributed_locking.Format.Injective.{prefixed-injective}
use distributed_locking.Bench.Keys.{
  key_name, fill_keys, per_worker, make_keys, ScenarioCfg, worker_keys,
}

key_name-injective : (m n : ℕ) → key_name m ≡ key_name n → m ≡ n
unfolding key_name
key_name-injective = prefixed-injective "key-"

length-fill_keys : (count n : ℕ) → length (fill_keys count n) ≡ count
unfolding fill_keys
length-fill_keys zero n = refl
length-fill_keys (suc count) n = ap suc (length-fill_keys count (n + 1))

get_elem?-fill_keys :
    (count n i : ℕ) (k : String)
    → get_elem? (fill_keys count n) i ≡ some k
    → (k ≡ key_name (n + i)) × (i < count)
unfolding fill_keys
get_elem?-fill_keys zero n i k h = absurd (cc)
get_elem?-fill_keys (suc count) n zero k h =
    let same : n + 0 ≡ n = omega arith in (rw same (ground arith), omega arith)
get_elem?-fill_keys (suc count) n (suc i) k h =
    let (e, lt) = get_elem?-fill_keys count (n + 1) i k h in
    let same : n + suc i ≡ n + 1 + i = omega arith in (rw same e, omega arith)

per_worker-pos : (pool workers : ℕ) → 0 < per_worker pool workers
unfolding per_worker
per_worker-pos pool workers = ground arith

-- two blocks of one size are apart
blocks_apart : (a b share i j : ℕ) → i < share → j < share → a * share + i ≡ b * share + j → a ≡ b
blocks_apart a b share i j hi hj e = grind arith

-- the blocks of two workers share no name
fill_keys-apart :
    (share a b i j : ℕ) (k l : String)
    → a ≢ b
    → get_elem? (fill_keys share (a * share)) i ≡ some k
    → get_elem? (fill_keys share (b * share)) j ≡ some l
    → k ≢ l
fill_keys-apart share a b i j k l other ha hb same =
    let (p, hi) = get_elem?-fill_keys share (a * share) i k ha in
    let (q, hj) = get_elem?-fill_keys share (b * share) j l hb in
    other (
      blocks_apart a b share i j hi hj
        (key_name-injective (a * share + i) (b * share + j) (sym p ∙ same ∙ q)))

worker_keys-partitioned :
    (cfg : ScenarioCfg) (a : ℕ)
    → cfg.partition_keys ≡ true
    → worker_keys cfg a
      ≡ fill_keys
          (per_worker cfg.key_pool_size cfg.concurrency)
          (a * per_worker cfg.key_pool_size cfg.concurrency)
unfolding worker_keys
worker_keys-partitioned cfg a part = rw part

-- In a scenario with partitioned keys two different workers have no key in common.
pub worker_keys-apart :
    (cfg : ScenarioCfg) (a b i j : ℕ) (k l : String)
    → cfg.partition_keys ≡ true
    → a ≢ b
    → get_elem? (worker_keys cfg a) i ≡ some k
    → get_elem? (worker_keys cfg b) j ≡ some l
    → k ≢ l
worker_keys-apart cfg a b i j k l part other ha hb =
    fill_keys-apart (per_worker cfg.key_pool_size cfg.concurrency) a b i j k l other
      (rw (worker_keys-partitioned cfg a part) at ha)
      (rw (worker_keys-partitioned cfg b part) at hb)

-- The same of the writers of the list_heavy scenario.
pub make_keys-apart :
    (pool workers a b i j : ℕ) (k l : String)
    → a ≢ b
    → get_elem? (make_keys a pool workers) i ≡ some k
    → get_elem? (make_keys b pool workers) j ≡ some l
    → k ≢ l
unfolding make_keys
make_keys-apart pool workers a b i j k l other ha hb =
    fill_keys-apart (per_worker pool workers) a b i j k l other ha hb

-- every worker has a key, and its keys are names of the form that `Sprintf` makes
pub length-worker_keys :
    (cfg : ScenarioCfg) (a : ℕ) → cfg.partition_keys ≡ true → 0 < length (worker_keys cfg a)
length-worker_keys cfg a part =
    let share = per_worker cfg.key_pool_size cfg.concurrency in
    rw (worker_keys-partitioned cfg a part) (
      omega (
        arith,
        length-fill_keys share (a * share),
        per_worker-pos cfg.key_pool_size cfg.concurrency,
      ))

pub worker_keys-names :
    (cfg : ScenarioCfg) (a i : ℕ) (k : String)
    → cfg.partition_keys ≡ true
    → get_elem? (worker_keys cfg a) i ≡ some k
    → (m : ℕ) × (k ≡ key_name m)
worker_keys-names cfg a i k part h =
    let share = per_worker cfg.key_pool_size cfg.concurrency in
    let (e, hi) =
      get_elem?-fill_keys share (a * share) i k (rw (worker_keys-partitioned cfg a part) at h) in
    (a * share + i, e)

pub length-make_keys : (id pool workers : ℕ) → 0 < length (make_keys id pool workers)
unfolding make_keys
length-make_keys id pool workers =
    let share = per_worker pool workers in
    omega (arith, length-fill_keys share (id * share), per_worker-pos pool workers)

block_fits : (q pool workers a i : ℕ) → workers * q ≤ pool → a < workers → i < q → a * q + i < pool
block_fits q pool workers a i fits ha hi = grind arith

per_worker-eq-div :
    (pool workers : ℕ) → 0 < workers → workers ≤ pool → per_worker pool workers ≡ pool / workers
unfolding per_worker
per_worker-eq-div pool workers pos few =
    let one : 1 ≤ pool / workers = (le-div_iff_mul-le pos).1 (omega arith) in ground arith

-- With partitioned keys and no more workers than keys in the pool, each key of each worker is a name
-- of the pool: `key-m` with `m` below the size of the pool.
pub worker_keys-in_pool :
    (cfg : ScenarioCfg) (a i : ℕ) (k : String)
    → cfg.partition_keys ≡ true
    → cfg.concurrency ≤ cfg.key_pool_size
    → a < cfg.concurrency
    → get_elem? (worker_keys cfg a) i ≡ some k
    → (m : ℕ) × (m < cfg.key_pool_size) × (k ≡ key_name m)
worker_keys-in_pool cfg a i k part few lt h =
    let share = per_worker cfg.key_pool_size cfg.concurrency in
    let all = worker_keys-partitioned cfg a part in
    let (e, hi) = get_elem?-fill_keys share (a * share) i k (rw all at h) in
    let even = per_worker-eq-div cfg.key_pool_size cfg.concurrency (omega arith) few in
    (a * share + i, in_pool share even hi, e)
  where
    in_pool :
        (share : ℕ)
        → share ≡ cfg.key_pool_size / cfg.concurrency
        → i < share
        → a * share + i < cfg.key_pool_size
    in_pool share e hi =
        block_fits share cfg.key_pool_size cfg.concurrency a i
          (rw e (mul-div-le cfg.key_pool_size cfg.concurrency)) lt hi

pub make_keys-names :
    (id pool workers i : ℕ) (k : String)
    → get_elem? (make_keys id pool workers) i ≡ some k
    → (m : ℕ) × (k ≡ key_name m)
unfolding make_keys
make_keys-names id pool workers i k h =
    let share = per_worker pool workers in
    let (e, hi) = get_elem?-fill_keys share (id * share) i k h in (id * share + i, e)
