-- ===== src/Bench/Race.antt =====
-- The workers of one phase of a scenario, `runPhase` of benchmark/scenarios.go: each runs its loop, and
-- their requests reach the service in some order, the schedule.
pub mod Owned
pub mod Requests
pub mod Mine
pub mod Kept
pub mod Partition
use Prim.Native.String.{◌++◌ as str_append}
use distributed_locking.Base.{
  ℕ, String, Bool, true, false, Option, none, some, List, [], ◌∷◌, nat_eq, ltb, if◌then◌else◌,
}
use distributed_locking.Format.{decimal}
use distributed_locking.Validate.Client.{Server}
use distributed_locking.Bench.Keys.{ScenarioCfg, worker_keys}
use distributed_locking.Bench.Worker.{Worker, Metrics, Try, Phase, locking, advance}

-- `buildWorker`
unfoldable pub build_worker : ScenarioCfg → ℕ → Worker
build_worker cfg id = record {
  keys = worker_keys cfg id;
  lockee = str_append "worker-" (decimal id);
}

-- where each worker stands, by its id
abbrev pub Phases : Type 0
Phases = ℕ → Phase

-- `runPhase` starts every loop at its first round
abbrev pub start : Phases
start id = locking 0

abbrev pub move : Phases → ℕ → Phase → Phases
move phases id phase j = if nat_eq id j then phase else phases j

module _ (server : Server) (workers : ℕ → Worker) where
  open server use {State}

  -- The requests in the order in which the service handles them, each of the worker named. The ids
  -- that `runPhase` starts are those below the concurrency; a schedule may name any.
  unfoldable pub run_schedule :
      List (ℕ × Try) → Phases → State → Metrics → Option (Phases × State × Metrics)
  unfolding advance
  run_schedule [] phases s m = some (phases, s, m)
  run_schedule ((id, t) ∷ rest) phases s m = elim (advance server (workers id) (phases id) t s m) [
    | none ↦ none
    | some (phase, s', m') ↦ run_schedule rest (move phases id phase) s' m'
  ]

module _ (server : Server) where
  open server use {State}

  -- the requests of `runPhase` that end before the context is done; Bench/Cut has the others
  unfoldable pub run_phase :
      ScenarioCfg → List (ℕ × Try) → State → Metrics → Option (Phases × State × Metrics)
  unfolding run_schedule build_worker
  run_phase cfg schedule s m = run_schedule server (build_worker cfg) schedule start s m
