-- ===== src/Tests/Benchmark.antt =====
-- The benchmark: keys and statistics on small inputs, and their theorems there.
use mathlib.Core.List.Perm
use distributed_locking.Base.{
  none, length, ℕ, zero, suc, ◌+◌, ◌≤◌, ◌<◌, ◌≡◌, refl, true, false, some, List, [], ◌∷◌, get_elem?,
  arith,
}
use distributed_locking.Format.{decimal, digits, digit}
use distributed_locking.Bench.Keys.{key_name, ScenarioCfg, worker_keys, make_keys, fill_keys}
use distributed_locking.Bench.Keys.Disjoint
use distributed_locking.Bench.Stats.{percentile_ms, max_ms, rank, is_timeout, sort}
use distributed_locking.Bench.Stats.Percentiles
use distributed_locking.Bench.Stats.Sorted.{count_le, count_ge}
use distributed_locking.InMemory
use distributed_locking.InMemory.Refines.{in_memory}
use distributed_locking.Validate.Client.{Server, no_response}
use distributed_locking.Validate.Service.{service}
use distributed_locking.Bench.Worker.{Worker, Metrics, new_metrics, Try, Phase, acquire_release}
use distributed_locking.Bench.Worker.Counts
use distributed_locking.Bench.Scenario.{Course, Report, run_scenario}
use distributed_locking.Bench.Scenario.Sound
use distributed_locking.Bench.Scenario.Clean
use distributed_locking.Bench.Cut.{Cut, End, before, sent}
use distributed_locking.Bench.Cut.Bounded
use distributed_locking.Bench.ListHeavy
use distributed_locking.Bench.ListHeavy.{writer, reader, run_list_heavy}
use distributed_locking.Bench.ListHeavy.Counted
use distributed_locking.Bench.ListHeavy.Clean as ListClean
use distributed_locking.Tests.Data.{env}

abbrev two_workers : ScenarioCfg
two_workers = record { id = "small"; concurrency = 2; key_pool_size = 5; partition_keys = true }

second_keys : worker_keys two_workers 1 ≡ "key-2" ∷ "key-3" ∷ []
unfolding worker_keys fill_keys key_name decimal digits digit
second_keys = refl

first_key : get_elem? (worker_keys two_workers 0) 1 ≡ some "key-1"
unfolding worker_keys fill_keys key_name decimal digits digit
first_key = refl

second_key : get_elem? (worker_keys two_workers 1) 0 ≡ some "key-2"
unfolding worker_keys fill_keys key_name decimal digits digit
second_key = refl

worker_keys-in_pool_example : (m : ℕ) × (m < 5) × ("key-2" ≡ key_name m)
worker_keys-in_pool_example =
    Disjoint.worker_keys-in_pool two_workers 1 0 "key-2" refl (omega arith) (omega arith) second_key

writer_key : get_elem? (make_keys 0 5 2) 1 ≡ some "key-1"
unfolding make_keys fill_keys key_name decimal digits digit
writer_key = refl

other_writer_key : get_elem? (make_keys 1 5 2) 1 ≡ some "key-3"
unfolding make_keys fill_keys key_name decimal digits digit
other_writer_key = refl

abbrev some_samples : List ℕ
some_samples = 30 ∷ 10 ∷ 40 ∷ 20 ∷ []

percentile_ms-rank_example :
    (v : ℕ) × (percentile_ms some_samples 50 ≡ some v)
    × (rank 4 50 < count_le v some_samples)
    × (4 ≤ count_ge v some_samples + rank 4 50)
percentile_ms-rank_example =
    Percentiles.percentile_ms-rank some_samples 50 (omega arith) (omega arith)

median : percentile_ms some_samples 50 ≡ some 20
unfolding percentile_ms rank sort
median = refl

tail : percentile_ms some_samples 95 ≡ some 30
unfolding percentile_ms rank sort
tail = refl

percentile_ms_mono_example : 20 ≤ 30
percentile_ms_mono_example =
    Percentiles.percentile_ms_mono some_samples 50 95 20 30 (omega arith) median tail

max_ms-eq-percentile_example : percentile_ms some_samples 100 ≡ some (max_ms some_samples)
max_ms-eq-percentile_example = Percentiles.max_ms-eq-percentile some_samples

-- a client's own timeout, which is no deadline of the context
client_timeout :
    is_timeout (record { is_deadline_exceeded = false; as_net_error = some true }) ≡ true
unfolding is_timeout
client_timeout = refl

-- requests that all take 5 ns
abbrev try : Try
try = record {
  elapsed = 5;
  error = record { is_deadline_exceeded = false; as_net_error = none };
  is_done = false;
}

abbrev one_worker : Worker
one_worker = record { keys = "key-0" ∷ []; lockee = "worker-0" }

-- a service that never answers
abbrev silent : Server
silent = record { State = Unit {0}; round_trip = λ s r. (no_response, s) }

acquire_release-IsCounted_example :
    (phase : Phase) × (s : Unit {0}) × (m : Metrics) × (acquire_release silent one_worker
        (try ∷ try ∷ [])
        tt
        new_metrics
      ≡ some (phase, s, m))
    × Counts.IsCounted m
    × (m.total ≡ 0 + 2)
acquire_release-IsCounted_example =
    Counts.acquire_release-IsCounted silent one_worker (omega arith) (try ∷ try ∷ []) tt new_metrics
      (record {
        outcomes_le = omega arith;
        latencies_le = omega arith;
        within_capacity = omega arith;
      })

-- each of the two workers locks, the second one unlocks
abbrev schedule : List (ℕ × Try)
schedule = (0, try) ∷ (1, try) ∷ (1, try) ∷ []

scenario_keys : (id : ℕ) → 0 < length (worker_keys two_workers id)
scenario_keys id = Disjoint.length-worker_keys two_workers id refl

-- the first worker is met in its release, which is handled, the second before its first request
abbrev cuts : ℕ → Cut
cuts zero = sent
cuts (suc id) = before

abbrev last : End
last = record { cuts = cuts; arrange = λ l. l; arrange-perm = λ l. Perm.refl l }

abbrev course : Course
course = record {
  warmup = 1;
  warmup_requests = schedule;
  warmup_end = last;
  requests = schedule;
  last = last;
  elapsed = 2000000;
}

run_scenario-IsSound_example :
    (report : Report silent) × (s : Unit {0}) × (run_scenario silent two_workers course tt
      ≡ some (report, s))
    × Sound.IsSound report.0
    × Sound.Covers two_workers course report
run_scenario-IsSound_example = Sound.run_scenario-IsSound silent two_workers scenario_keys course tt

abbrev ends : ListHeavy.Ends
ends = record { writers_end = last; reader_cuts = cuts }

-- a writer locks, a reader polls, the writer unlocks
abbrev list_course : ListHeavy.Course
list_course = record {
  warmup = 0;
  warmup_requests = [];
  warmup_ends = ends;
  requests = (writer 0, try) ∷ (reader, try) ∷ (writer 0, try) ∷ [];
  ends = ends;
  elapsed = 2000000;
}

run_list_heavy-IsSound_example :
    (report : Report (service in_memory env)) × (s : InMemory.Store × ℕ) × (run_list_heavy
        (service in_memory env)
        list_course
        (InMemory.new_store, 0)
      ≡ some (report, s))
    × Sound.IsSound report.0
    × Counted.CoversList list_course report
run_list_heavy-IsSound_example =
    Counted.run_list_heavy-IsSound (service in_memory env) list_course (InMemory.new_store, 0)
