-- ===== src/Bench/ListHeavy/Clean.antt =====
-- The scenario list_heavy, warm-up and measurement, against a lawful lock store.
use distributed_locking.Base.{◌+◌, ◌≤◌, ◌≡◌, length}
use distributed_locking.Store.{LockStore, LockStoreLaws}
use distributed_locking.Validate.Service.{Environment}
use distributed_locking.Bench.Scenario.{ScenarioResult}
use distributed_locking.Bench.ListHeavy.{Course}

module _ (store : LockStore) (laws : LockStoreLaws store) (env : Environment) where
  open store use {State}
  open laws use {IsValid, view}

  -- no conflict, no error but one at most for each writer and reader, and every measured request and
  -- every error counted
  pub record IsClean (course : Course) (r : ScenarioResult) : Type 0 where
    pub few_errors : r.error_rate.above ≤ 25
    pub no_conflict : r.conflict_rate.above ≡ 0
    pub all_counted : r.requests_total ≡ length course.requests + r.error_rate.above
