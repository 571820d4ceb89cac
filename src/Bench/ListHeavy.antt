-- ===== src/Bench/ListHeavy.antt =====
-- `runListHeavy` of benchmark/scenarios.go: twenty writers, which lock and unlock as the workers of the
-- other scenarios do, and readers that poll GET /locks. A schedule names for each request a writer, or
-- a reader: they are all alike.
pub mod Counted
pub mod Kept
pub mod Clean
use Prim.Native.String.{◌++◌ as str_append}
use distributed_locking.Base.{
  ℕ, zero, suc, String, Bool, true, false, not, Option, none, some, List, [], ◌∷◌, nat_eq, ltb,
  if◌then◌else◌,
}
use distributed_locking.Format.{decimal}
use distributed_locking.Status
use distributed_locking.Validate.Client.{Server, locks_message}
use distributed_locking.Bench.Keys.{make_keys}
use distributed_locking.Bench.Worker.{
  Worker, Metrics, new_metrics, Cause, Try, Phase, Reply, failed, status_code, read_code, add_total,
  add_error, fail_request, send_latency, advance,
}
use distributed_locking.Bench.Race.{Phases, start, move}
use distributed_locking.Bench.Cut.{End, Cut, before, reached, cut_all}
use distributed_locking.Bench.Scenario.{
  ScenarioResult, no_result, make_result, check_leaked_locks, reset, Report,
}

abbrev writers : ℕ
writers = 20

abbrev readers : ℕ
readers = 5

abbrev key_pool : ℕ
key_pool = 1000

unfoldable pub build_writer : ℕ → Worker
build_writer id = record {
  keys = make_keys id key_pool writers;
  lockee = str_append "writer-" (decimal id);
}

-- what a reader does with the reply; the body is read and dropped
unfoldable pub after_list : Try → Reply → Metrics → Metrics
unfolding fail_request add_error send_latency
after_list t failed m = fail_request "GET /locks" t m
after_list t (status_code code) m =
    if not (nat_eq code Status.ok) then add_error m else send_latency t.elapsed m

pub data Actor : Type 0 where
  writer : ℕ → Actor
  reader : Actor

-- where the end of a phase meets each writer and each reader
pub record Ends : Type 0 where
  pub writers_end : End
  pub reader_cuts : ℕ → Cut

-- what the clock and the order of the requests decide of a run
pub record Course : Type 0 where
  pub warmup : ℕ
  pub warmup_requests : List (Actor × Try)
  pub warmup_ends : Ends
  pub requests : List (Actor × Try)
  pub ends : Ends
  pub elapsed : ℕ

module _ (server : Server) where
  open server use {State}

  -- one request of a reader
  unfoldable pub poll_locks : Try → State → Metrics → State × Metrics
  unfolding read_code add_total after_list
  poll_locks t s m =
      let (out, s') = server.round_trip s locks_message in
      (s', after_list t (read_code out) (add_total m))

  unfoldable pub run_actors :
      List (Actor × Try) → Phases → State → Metrics → Option (Phases × State × Metrics)
  unfolding advance build_writer poll_locks
  run_actors [] phases s m = some (phases, s, m)
  run_actors ((writer id, t) ∷ rest) phases s m =
      elim (advance server (build_writer id) (phases id) t s m) [
        | none ↦ none
        | some (phase, s', m') ↦ run_actors rest (move phases id phase) s' m'
      ]
  run_actors ((reader, t) ∷ rest) phases s m =
      let (s', m') = poll_locks t s m in run_actors rest phases s' m'

  -- the end of the phase meets a reader
  unfoldable pub cut_reader : Cut → State → Metrics → State × Metrics
  unfolding add_total add_error
  cut_reader before s m = (s, m)
  cut_reader cut s m =
      (reached server cut (server.round_trip s locks_message).1 s, add_error (add_total m))

  -- the readers below `n`
  unfoldable pub cut_readers : (ℕ → Cut) → ℕ → State → Metrics → State × Metrics
  unfolding cut_reader
  cut_readers cuts zero s m = (s, m)
  cut_readers cuts (suc n) s m = let (s', m') = cut_reader (cuts n) s m in cut_readers cuts n s' m'

  -- `runPhase`, up to `wg.Wait()`
  unfoldable pub run_list_phase :
      List (Actor × Try) → Ends → State → Metrics → Option (State × Metrics)
  unfolding run_actors build_writer cut_all cut_readers
  run_list_phase requests ends s m = elim (run_actors requests start s m) [
    | none ↦ none
    | some (phases, s', m') ↦
        elim (cut_all server build_writer ends.writers_end writers phases s' m') [
          | none ↦ none
          | some (phases', s'', m'') ↦ some (cut_readers ends.reader_cuts readers s'' m'')
        ]
  ]

  unfoldable pub measure_list : Course → State → Metrics → Option (Report server × State)
  unfolding run_list_phase no_result check_leaked_locks make_result
  measure_list course s m = elim (run_list_phase course.requests course.ends s m) [
    | none ↦ none
    | some (s', m') ↦ elim m'.abort [
      | some cause ↦ some ((no_result "list_heavy", some cause), s')
      | none ↦
          let (leaked, s'') = check_leaked_locks server s' in
          elim (make_result "list_heavy" m' course.elapsed leaked) [
            | none ↦ none
            | some result ↦ some ((result, none), s'')
          ]
    ]
  ]

  unfoldable pub run_list_heavy : Course → State → Option (Report server × State)
  unfolding run_list_phase no_result reset measure_list
  run_list_heavy course s =
      if ltb 0 course.warmup
      then elim (run_list_phase course.warmup_requests course.warmup_ends s new_metrics) [
        | none ↦ none
        | some (s', m) ↦ elim m.abort [
          | some cause ↦ some ((no_result "list_heavy", some cause), s')
          | none ↦ measure_list course s' (reset m)
        ]
      ]
      else measure_list course s new_metrics
