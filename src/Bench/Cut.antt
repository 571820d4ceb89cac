-- ===== src/Bench/Cut.antt =====
-- The end of a phase, of benchmark/scenarios.go: the context is done, and each worker's last request
-- is given up. `ctx.Err()` is set by then, so a request that is given up aborts nothing.
pub mod Orders
pub mod Counted
pub mod Ended
pub mod Bounded
use mathlib.Core.List.{Perm}
use distributed_locking.Base.{
  ℕ, false, zero, suc, ◌%◌, Option, none, some, List, [], ◌∷◌, length, get_elem?,
}
use distributed_locking.Validate.Client.{Server}
use distributed_locking.Bench.Keys.{ScenarioCfg}
use distributed_locking.Bench.Worker.{
  Worker, Metrics, Try, Phase, locking, releasing, post_lock, delete_lock, add_total, add_error,
}
use distributed_locking.Bench.Race.{Phases, move, build_worker, run_phase}

-- Where the end of the phase meets a worker: before its look at the context, in a request that does
-- not reach the service, or in one that does, and whose answer is not waited for. A worker that holds
-- a lock does not look at the context before it asks for its release.
pub data Cut : Type 0 where
  before : Cut
  unsent : Cut
  sent : Cut

-- Where it meets each worker, and the order in which the requests that are given up reach the service.
pub record End : Type 0 where
  pub cuts : ℕ → Cut
  pub arrange : List ℕ → List ℕ
  pub arrange-perm : (l : List ℕ) → Perm (arrange l) l

-- the numbers below `n`
abbrev pub below : ℕ → List ℕ
below zero = []
below (suc n) = n ∷ below n

module _ (server : Server) where
  open server use {State}

  abbrev pub reached : Cut → State → State → State
  reached sent after s = after
  reached cut after s = s

  unfoldable pub cut_off : Worker → Phase → Cut → State → Metrics → Option (Phase × State × Metrics)
  unfolding post_lock delete_lock add_total add_error
  cut_off w (locking i) before s m = some (locking i, s, m)
  cut_off w (locking i) cut s m = elim (get_elem? w.keys (i % length w.keys)) [
    | none ↦ none
    | some key ↦
        let s' = reached cut (post_lock server key w.lockee false s).1 s in
        some (locking (suc i), s', add_error (add_total m))
  ]
  cut_off w (releasing i key) cut s m =
      let s' = reached cut (delete_lock server key w.lockee s).1 s in
      some (locking (suc i), s', add_error (add_total m))

  unfoldable pub cut_each :
      (ℕ → Worker)
      → (ℕ → Cut)
      → List ℕ
      → Phases
      → State
      → Metrics
      → Option (Phases × State × Metrics)
  unfolding cut_off
  cut_each workers cuts [] phases s m = some (phases, s, m)
  cut_each workers cuts (id ∷ ids) phases s m =
      elim (cut_off (workers id) (phases id) (cuts id) s m) [
        | none ↦ none
        | some (phase, s', m') ↦ cut_each workers cuts ids (move phases id phase) s' m'
      ]

  -- the workers below `n`
  unfoldable pub cut_all :
      (ℕ → Worker) → End → ℕ → Phases → State → Metrics → Option (Phases × State × Metrics)
  unfolding cut_each
  cut_all workers last n phases s m = cut_each workers last.cuts (last.arrange (below n)) phases s m

  -- `runPhase`, up to `wg.Wait()`
  unfoldable pub run_whole_phase :
      ScenarioCfg → List (ℕ × Try) → End → State → Metrics → Option (Phases × State × Metrics)
  unfolding run_phase build_worker cut_all
  run_whole_phase cfg schedule last s m = elim (run_phase server cfg schedule s m) [
    | none ↦ none
    | some (phases, s', m') ↦ cut_all (build_worker cfg) last cfg.concurrency phases s' m'
  ]
