-- ===== src/Bench/Cut/Bounded.antt =====
-- What the end of a phase costs a scenario whose workers share no key.
use distributed_locking.Base.{ℕ, ◌+◌, ◌≤◌, ◌≡◌, ◌∙◌, true, some, List, length, arith}
use distributed_locking.Store.{LockStore, LockStoreLaws}
use distributed_locking.Validate.Service.{Environment, service}
use distributed_locking.Bench.Keys.{ScenarioCfg}
use distributed_locking.Bench.Worker.{Metrics, Try}
use distributed_locking.Bench.Race.{Phases, start, build_worker}
use distributed_locking.Bench.Race.Mine.{IsMine, start-IsMine}
use distributed_locking.Bench.Race.Kept.{run_schedule-IsMine}
use distributed_locking.Bench.Race.Partition.{build_worker-IsPartition}
use distributed_locking.Bench.Cut.{End, run_whole_phase}
use distributed_locking.Bench.Cut.Ended.{cut_all-Costs}

module _ (store : LockStore) (laws : LockStoreLaws store) (env : Environment) where
  open store use {State}
  open laws use {IsValid, view}

  -- a phase from any counters
  pub run_whole_phase-IsMine :
      (cfg : ScenarioCfg) (schedule : List (ℕ × Try)) (last : End) (s : State) (n : ℕ) (m : Metrics)
      → cfg.partition_keys ≡ true
      → IsValid s
      → IsMine (build_worker cfg) start (view s)
      → (phases : Phases) × (s' : State) × (n' : ℕ) × (m' : Metrics) × (run_whole_phase
            (service store env)
            cfg
            schedule
            last
            (s, n)
            m
          ≡ some (phases, (s', n'), m'))
        × IsValid s'
        × IsMine (build_worker cfg) start (view s')
        × (m'.conflicts ≡ m.conflicts)
        × (m'.abort ≡ m.abort)
        × (m'.errors ≤ m.errors + cfg.concurrency)
        × (m'.total + m.errors ≡ m.total + length schedule + m'.errors)
  unfolding run_whole_phase
  run_whole_phase-IsMine cfg schedule last s n m parts v own =
      let part = build_worker-IsPartition cfg parts in
      let (phases, s1, n1, m1, e, v1, own1, errs, confl, quiet, tot) =
        run_schedule-IsMine store laws env (build_worker cfg) part schedule start s n m v own in
      let (phases', s', n', m', e', v', own', (c0, c1, c2, c3, c4)) =
        cut_all-Costs store laws env (build_worker cfg) part last cfg.concurrency phases s1 n1 m1 v1
          own1 in
      (
        phases',
        s',
        n',
        m',
        rw (e, run_whole_phase) e',
        v',
        start-IsMine (build_worker cfg) phases' (view s') own',
        c3 ∙ confl,
        c4 ∙ quiet,
        omega (arith, c1, errs),
        omega (arith, c2, errs, tot),
      )
