-- ===== src/Bench/Scenario/Sound.antt =====
-- The result of a scenario, whatever the service does.
use distributed_locking.Base.{
  ℕ, ◌+◌, ◌≤◌, ◌<◌, ◌≡◌, refl, String, Option, none, some, List, [], ◌∷◌, length, ltb, arith, inl,
  inr, Bool-cases, Option-cases,
}
use distributed_locking.Validate.Client.{Server}
use distributed_locking.Bench.Stats.{percentile_ms, max_ms}
use distributed_locking.Bench.Stats.Percentiles.{
  percentile_ms-rank, percentile_ms_mono, max_ms-eq-percentile,
}
use distributed_locking.Bench.Keys.{ScenarioCfg, worker_keys}
use distributed_locking.Bench.Worker.{Worker, Metrics, new_metrics, Cause, Try}
use distributed_locking.Bench.Worker.Counts.{IsCounted, advance-IsCounted}
use distributed_locking.Bench.Race.{Phases, start, move, build_worker, run_schedule, run_phase}
use distributed_locking.Bench.Cut.{End, run_whole_phase}
use distributed_locking.Bench.Cut.Counted.{cut_all-Adds}
use distributed_locking.Bench.Scenario.{
  ScenarioResult, no_result, rate, result_of, make_result, Course, reset, check_leaked_locks,
  Report, measure, run_scenario,
}

percentile_of : (samples : List ℕ) (p : ℕ) → p ≤ 100 → (v : ℕ) × (percentile_ms samples p ≡ some v)
unfolding percentile_ms
percentile_of [] p h = (0, refl)
percentile_of (x ∷ xs) p h =
    let (v, e, _, _) = percentile_ms-rank (x ∷ xs) p (omega arith) h in (v, e)

-- The percentiles are in order, below the maximum, and the rates of errors and conflicts are parts of
-- one whole.
pub record IsSound (r : ScenarioResult) : Type 0 where
  pub p50_le : r.p50 ≤ r.p95
  pub p95_le : r.p95 ≤ r.p99
  pub p99_le : r.p99 ≤ r.max
  pub error_total : r.error_rate ≡ rate r.error_rate.above r.requests_total
  pub conflict_total : r.conflict_rate ≡ rate r.conflict_rate.above r.requests_total
  pub rates_le : r.error_rate.above + r.conflict_rate.above ≤ r.requests_total

pub rate-above : (count total : ℕ) → count ≤ total → (rate count total).above ≡ count
unfolding rate
rate-above count total h = ground arith

rate_self : (count total : ℕ) → rate count total ≡ rate (rate count total).above total
unfolding rate
rate_self count total = ground arith

pub make_result-IsSound :
    (id : String) (m : Metrics) (elapsed : ℕ) (leaked : Option ℕ)
    → IsCounted m
    → (r : ScenarioResult) × (make_result id m elapsed leaked ≡ some r)
      × IsSound r
      × (r.requests_total ≡ m.total)
unfolding make_result result_of
make_result-IsSound id m elapsed leaked c =
    let samples = m.latencies in
    let (p50, e50) = percentile_of samples 50 (omega arith) in
    let (p95, e95) = percentile_of samples 95 (omega arith) in
    let (p99, e99) = percentile_of samples 99 (omega arith) in
    (
      result_of id m elapsed leaked p50 p95 p99,
      rw (e50, make_result, e95, e99) refl,
      record {
        p50_le = percentile_ms_mono samples 50 95 p50 p95 (omega arith) e50 e95;
        p95_le = percentile_ms_mono samples 95 99 p95 p99 (omega arith) e95 e99;
        p99_le =
            percentile_ms_mono samples 99 100 p99 (max_ms samples) (omega arith) e99
              (max_ms-eq-percentile samples);
        error_total = rate_self m.errors m.total;
        conflict_total = rate_self m.conflicts m.total;
        rates_le = omega (
          arith,
          c.outcomes_le,
          rate-above m.errors m.total (omega (arith, c.outcomes_le)),
          rate-above m.conflicts m.total (omega (arith, c.outcomes_le)),
        );
      },
      refl,
    )

pub make_result-rates :
    (id : String) (m : Metrics) (elapsed : ℕ) (leaked : Option ℕ)
    → (r : ScenarioResult) × (make_result id m elapsed leaked ≡ some r)
      × (r.requests_total ≡ m.total)
      × (r.error_rate ≡ rate m.errors m.total)
      × (r.conflict_rate ≡ rate m.conflicts m.total)
unfolding make_result result_of
make_result-rates id m elapsed leaked =
    let (p50, e50) = percentile_of m.latencies 50 (omega arith) in
    let (p95, e95) = percentile_of m.latencies 95 (omega arith) in
    let (p99, e99) = percentile_of m.latencies 99 (omega arith) in
    (
      result_of id m elapsed leaked p50 p95 p99,
      rw (e50, make_result, e95, e99) refl,
      refl,
      refl,
      refl,
    )

pub no_result-IsSound : (id : String) → IsSound (no_result id)
unfolding no_result rate
no_result-IsSound id = record {
  p50_le = omega arith;
  p95_le = omega arith;
  p99_le = omega arith;
  error_total = refl;
  conflict_total = refl;
  rates_le = omega arith;
}

pub new_metrics-IsCounted : IsCounted new_metrics
new_metrics-IsCounted = record {
  outcomes_le = omega arith;
  latencies_le = omega arith;
  within_capacity = omega arith;
}

pub reset-IsCounted : (m : Metrics) → IsCounted (reset m)
unfolding reset
reset-IsCounted m = record {
  outcomes_le = omega arith;
  latencies_le = omega arith;
  within_capacity = omega arith;
}

-- what a report says: nothing of an aborted scenario, else a count of all measured requests and of
-- those given up at the end, one for each worker at most
abbrev pub Covers : ScenarioCfg → Course → ScenarioResult × Option Cause → Type 0
Covers cfg course (r, none) =
    (length course.requests ≤ r.requests_total)
    × (r.requests_total ≤ length course.requests + cfg.concurrency)
Covers cfg course (r, some cause) = r ≡ no_result cfg.id

module _ (server : Server) where
  open server use {State}

  run_schedule-IsCounted :
      (workers : ℕ → Worker) (schedule : List (ℕ × Try)) (phases : Phases) (s : State) (m : Metrics)
      → ((id : ℕ) → 0 < length (workers id).keys)
      → IsCounted m
      → (phases' : Phases) × (s' : State) × (m' : Metrics) × (run_schedule server workers schedule
            phases s m
          ≡ some (phases', s', m'))
        × IsCounted m'
        × (m'.total ≡ m.total + length schedule)
  unfolding run_schedule
  run_schedule-IsCounted workers [] phases s m has c = (phases, s, m, refl, c, omega arith)
  run_schedule-IsCounted workers ((j, t) ∷ rest) phases s m has c =
      let (p, s1, m1, e, c1, n1) =
        advance-IsCounted server (workers j) (has j) (phases j) t s m c in
      let (phases', s', m', e', c', n') =
        run_schedule-IsCounted workers rest (move phases j p) s1 m1 has c1 in
      (phases', s', m', rw (e, run_schedule) e', c', omega (arith, n1, n'))

  module _ (cfg : ScenarioCfg) (has_key : (id : ℕ) → 0 < length (worker_keys cfg id)) where
    run_whole_phase-IsCounted :
        (schedule : List (ℕ × Try)) (last : End) (s : State) (m : Metrics)
        → IsCounted m
        → (phases : Phases) × (s' : State) × (m' : Metrics) × (run_whole_phase server cfg schedule
              last s m
            ≡ some (phases, s', m'))
          × IsCounted m'
          × (m.total + length schedule ≤ m'.total)
          × (m'.total ≤ m.total + length schedule + cfg.concurrency)
    unfolding run_whole_phase run_phase build_worker
    run_whole_phase-IsCounted schedule last s m c =
        let (phases, s1, m1, e, c1, n1) =
          run_schedule-IsCounted (build_worker cfg) schedule start s m has_key c in
        let (phases', s', m', e', (c', l, u)) =
          cut_all-Adds server (build_worker cfg) has_key last cfg.concurrency phases s1 m1 c1 in
        (
          phases',
          s',
          m',
          rw (e, run_whole_phase) e',
          c',
          omega (arith, n1, l),
          omega (arith, n1, u),
        )

    measure-IsSound :
        (course : Course) (s : State) (m : Metrics)
        → IsCounted m
        → m.total ≡ 0
        → (report : Report server) × (t : State) × (measure server cfg course s m
            ≡ some (report, t))
          × IsSound report.0
          × Covers cfg course report
    unfolding measure
    measure-IsSound course s m c none_yet =
        let (phases, s', m', e, c', l, u) =
          run_whole_phase-IsCounted course.requests course.last s m c in
        elim (Option-cases m'.abort) [
          | inl quiet ↦
              let (leaked, t) = check_leaked_locks server s' in
              let (r, made, sound, all) = make_result-IsSound cfg.id m' course.elapsed leaked c' in
              (
                (r, none),
                t,
                rw (e, measure, quiet, made) refl,
                sound,
                (omega (arith, all, l, none_yet), omega (arith, all, u, none_yet)),
              )
          | inr (cause, aborted) ↦ (
            (no_result cfg.id, some cause),
            s',
            rw (e, measure, aborted) refl,
            no_result-IsSound cfg.id,
            refl,
          )
        ]

    reset_total : (m : Metrics) → (reset m).total ≡ 0
    unfolding reset
    reset_total m = refl

    -- Where every worker has a key, a scenario ends with a report, whatever the service answers and
    -- however the requests interleave: its percentiles are in order, errors and conflicts are no more
    -- than the requests, and it is either the empty result of an aborted scenario or counts each
    -- request of the measurement, and at most one more for each worker that the end of the phase gives
    -- up, and none of the warm-up.
    pub run_scenario-IsSound :
        (course : Course) (s : State)
        → (report : Report server) × (t : State) × (run_scenario server cfg course s
            ≡ some (report, t))
          × IsSound report.0
          × Covers cfg course report
    unfolding run_scenario
    run_scenario-IsSound course s = elim (Bool-cases (ltb 0 course.warmup)) [
      | inr cold ↦
          let (report, t, e, sound, all) =
            measure-IsSound course s new_metrics new_metrics-IsCounted refl in
          (report, t, rw cold e, sound, all)
      | inl warm ↦
          let (phases, s', m, e, c, l, u) =
            run_whole_phase-IsCounted course.warmup_requests course.warmup_end s new_metrics
              new_metrics-IsCounted in
          elim (Option-cases m.abort) [
            | inl quiet ↦
                let (report, t, e', sound, all) =
                  measure-IsSound course s' (reset m) (reset-IsCounted m) (reset_total m) in
                (report, t, rw (warm, e, run_scenario, quiet) e', sound, all)
            | inr (cause, aborted) ↦ (
              (no_result cfg.id, some cause),
              s',
              rw (warm, e, run_scenario, aborted) refl,
              no_result-IsSound cfg.id,
              refl,
            )
          ]
    ]
