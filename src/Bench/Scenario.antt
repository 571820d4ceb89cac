-- ===== src/Bench/Scenario.antt =====
-- `runScenario` and `checkLeakedLocks` of benchmark/scenarios.go: a warm-up whose counts are dropped,
-- the measurement, and the result made of its counts. A float64 quotient is kept as its two numbers,
-- a latency in nanoseconds.
pub mod Sound
pub mod Clean
use distributed_locking.Base.{
  ℕ, suc, ◌+◌, ◌*◌, ◌/◌, String, Option, none, some, List, [], ltb, if◌then◌else◌,
}
use distributed_locking.Json.{Json, null, arr, obj, Items, nil, cons, Fields, end, field, names}
use distributed_locking.Http.Messages.{Body, json}
use distributed_locking.Validate.Client.{
  Outcome, no_response, unreadable, received, Server, locks_message,
}
use distributed_locking.Bench.Stats.{percentile_ms, max_ms}
use distributed_locking.Bench.Keys.{ScenarioCfg}
use distributed_locking.Bench.Worker.{Metrics, new_metrics, Cause, Try}
use distributed_locking.Bench.Cut.{End, run_whole_phase}

pub record Ratio : Type 0 where
  pub above : ℕ
  pub below : ℕ

-- the zero value of a float64
abbrev pub zero_ratio : Ratio
zero_ratio = record { above = 0; below = 1 }

-- `ScenarioResult`; the count of leaked locks is `none` for -1
pub record ScenarioResult : Type 0 where
  pub scenario_id : String
  pub requests_total : ℕ
  pub duration_ms : ℕ
  pub rps : Ratio
  pub p50 : ℕ
  pub p95 : ℕ
  pub p99 : ℕ
  pub max : ℕ
  pub error_rate : Ratio
  pub conflict_rate : Ratio
  pub leaked_locks : Option ℕ

-- `ScenarioResult{ScenarioID: id}`
unfoldable pub no_result : String → ScenarioResult
no_result id = record {
  scenario_id = id;
  requests_total = 0;
  duration_ms = 0;
  rps = zero_ratio;
  p50 = 0;
  p95 = 0;
  p99 = 0;
  max = 0;
  error_rate = zero_ratio;
  conflict_rate = zero_ratio;
  leaked_locks = some 0;
}

count_items : Items → ℕ
count_items nil = 0
count_items (cons v rest) = suc (count_items rest)

-- the field of the payload: an array of any values, or null
count_field : Json → Option ℕ
unfolding count_items
count_field (arr items) = some (count_items items)
count_field null = some 0
count_field _ = none

count_fields : Fields → ℕ → Option ℕ
unfolding count_field names
count_fields end n = some n
count_fields (field name v rest) n =
    let this = if names name "locks" then count_field v else some n in
    elim this [ none ↦ none | some n' ↦ count_fields rest n' ]

-- how many locks a body lists
unfoldable pub count_locks : Body → Option ℕ
unfolding count_fields
count_locks (json (obj fields)) = count_fields fields 0
count_locks (json null) = some 0
count_locks _ = none

unfoldable pub read_leaked : Outcome → Option ℕ
unfolding count_locks
read_leaked no_response = none
read_leaked (unreadable code) = none
read_leaked (received w) = count_locks w.body

unfoldable pub rate : ℕ → ℕ → Ratio
rate count total = if ltb 0 total then record { above = count; below = total } else zero_ratio

unfoldable pub result_of : String → Metrics → ℕ → Option ℕ → ℕ → ℕ → ℕ → ScenarioResult
unfolding rate
result_of id m elapsed leaked p50 p95 p99 = record {
  scenario_id = id;
  requests_total = m.total;
  duration_ms = elapsed / 1000000;
  rps = rate (m.total * 1000000000) elapsed;
  p50 = p50;
  p95 = p95;
  p99 = p99;
  max = max_ms m.latencies;
  error_rate = rate m.errors m.total;
  conflict_rate = rate m.conflicts m.total;
  leaked_locks = leaked;
}

-- the result of a measurement; `none` is a panic
unfoldable pub make_result : String → Metrics → ℕ → Option ℕ → Option ScenarioResult
unfolding result_of
make_result id m elapsed leaked = elim (percentile_ms m.latencies 50) [
  | none ↦ none
  | some p50 ↦ elim (percentile_ms m.latencies 95) [
    | none ↦ none
    | some p95 ↦ elim (percentile_ms m.latencies 99) [
      | none ↦ none
      | some p99 ↦ some (result_of id m elapsed leaked p50 p95 p99)
    ]
  ]
]

-- What the clock and the order of the requests decide of a scenario's run, the end of its phases
-- included; durations in nanoseconds.
pub record Course : Type 0 where
  pub warmup : ℕ
  pub warmup_requests : List (ℕ × Try)
  pub warmup_end : End
  pub requests : List (ℕ × Try)
  pub last : End
  pub elapsed : ℕ

-- the counters are stored 0 and the channel is drained
unfoldable pub reset : Metrics → Metrics
reset m = record m { latencies = []; errors = 0; conflicts = 0; total = 0 }

module _ (server : Server) where
  open server use {State}

  unfoldable pub check_leaked_locks : State → Option ℕ × State
  unfolding read_leaked
  check_leaked_locks s = let (out, t) = server.round_trip s locks_message in (read_leaked out, t)

  -- a result, and the error of an abort
  abbrev pub Report : Type 0
  Report = ScenarioResult × Option Cause

  -- from `start := time.Now()`
  unfoldable pub measure : ScenarioCfg → Course → State → Metrics → Option (Report × State)
  unfolding run_whole_phase no_result check_leaked_locks make_result
  measure cfg course s m = elim (run_whole_phase server cfg course.requests course.last s m) [
    | none ↦ none
    | some (phases, s', m') ↦ elim m'.abort [
      | some cause ↦ some ((no_result cfg.id, some cause), s')
      | none ↦
          let (leaked, s'') = check_leaked_locks s' in
          elim (make_result cfg.id m' course.elapsed leaked) [
            | none ↦ none
            | some result ↦ some ((result, none), s'')
          ]
    ]
  ]

  unfoldable pub run_scenario : ScenarioCfg → Course → State → Option (Report × State)
  unfolding run_whole_phase no_result reset measure
  run_scenario cfg course s =
      if ltb 0 course.warmup
      then elim (run_whole_phase server cfg course.warmup_requests course.warmup_end s
          new_metrics) [
            | none ↦ none
            | some (phases, s', m) ↦ elim m.abort [
              | some cause ↦ some ((no_result cfg.id, some cause), s')
              | none ↦ measure cfg course s' (reset m)
            ]
          ]
      else measure cfg course s new_metrics
