-- ===== src/Bench/Scenario/Clean.antt =====
-- A scenario with partitioned keys, warm-up and measurement, against a lawful lock store.
use distributed_locking.Base.{ℕ, ◌+◌, ◌≤◌, ◌≡◌, refl, ◌∙◌, none, length, arith}
use distributed_locking.Bench.Keys.{ScenarioCfg}
use distributed_locking.Bench.Worker.{Metrics, new_metrics}
use distributed_locking.Bench.Scenario.{ScenarioResult, rate, Course, reset}
use distributed_locking.Bench.Scenario.Sound.{rate-above}

-- no conflict, no error but one at most for each worker, and every measured request and every error
-- counted
pub record IsClean (cfg : ScenarioCfg) (course : Course) (r : ScenarioResult) : Type 0 where
  pub few_errors : r.error_rate.above ≤ cfg.concurrency
  pub no_conflict : r.conflict_rate.above ≡ 0
  pub all_counted : r.requests_total ≡ length course.requests + r.error_rate.above

-- counters from which a phase starts
pub record IsFresh (m : Metrics) : Type 0 where
  pub errors : m.errors ≡ 0
  pub conflicts : m.conflicts ≡ 0
  pub total : m.total ≡ 0
  pub abort : m.abort ≡ none

pub new_metrics-IsFresh : IsFresh new_metrics
new_metrics-IsFresh = record { errors = refl; conflicts = refl; total = refl; abort = refl }

pub reset-IsFresh : (m : Metrics) → m.abort ≡ none → IsFresh (reset m)
unfolding reset
reset-IsFresh m quiet = record { errors = refl; conflicts = refl; total = refl; abort = quiet }

pub rate-zero : (count total : ℕ) → count ≡ 0 → (rate count total).above ≡ 0
rate-zero count total h = rate-above count total (omega (arith, h)) ∙ h
