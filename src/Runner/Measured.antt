-- ===== src/Runner/Measured.antt =====
-- Which scenarios the runner measures, in which order, and what becomes of their results.
use mathlib.Core.List.{append_assoc, append-nil}
use distributed_locking.Base.{
  ℕ, ◌<◌, ◌≡◌, refl, sym, ap, String, true, false, Option, none, some, List, [], ◌∷◌, ◌++◌, map,
  length, inl, inr, if◌then◌else◌, arith, Option-cases, Bool-cases,
}
use distributed_locking.Effects.{Log, World, wait, run_scenario, run_list_heavy, validate_spec}
use distributed_locking.Bench.Keys.{ScenarioCfg}
use distributed_locking.Bench.Scenario.{ScenarioResult}
use distributed_locking.Runner.{run_scenarios, measure_service, default_scenarios, pause}

-- a validation that was passed, and a scenario that was run, with its result, `none` if it was aborted
pub data Milestone : Type 0 where
  passed : String → Milestone
  measured : String → Option ScenarioResult → Milestone

-- the milestones in a log, the first one first
unfoldable pub milestones : World → Log → List Milestone
milestones w [] = []
milestones w (run_scenario base_url cfg warmup duration ∷ log) =
    milestones w log
    ++ (measured cfg.id (w.scenario (run_scenario base_url cfg warmup duration ∷ log)) ∷ [])
milestones w (run_list_heavy base_url warmup duration ∷ log) =
    milestones w log
    ++ (measured "list_heavy" (w.scenario (run_list_heavy base_url warmup duration ∷ log)) ∷ [])
milestones w (validate_spec base_url ∷ log) =
    if w.is_valid (validate_spec base_url ∷ log)
    then milestones w log ++ (passed base_url ∷ [])
    else milestones w log
milestones w (e ∷ log) = milestones w log

-- The scenarios with these results: the first of them in order, and one more that was aborted, if
-- there is one.
unfoldable pub up_to_abort : List String → List ScenarioResult → List Milestone
up_to_abort [] results = []
up_to_abort (id ∷ ids) [] = measured id none ∷ []
up_to_abort (id ∷ ids) (sc ∷ results) = measured id (some sc) ∷ up_to_abort ids results

up_to_abort-aborted :
    (ids more : List String) (results : List ScenarioResult)
    → length results < length ids
    → up_to_abort (ids ++ more) results ≡ up_to_abort ids results
unfolding up_to_abort
up_to_abort-aborted [] more results h = absurd (omega arith)
up_to_abort-aborted (id ∷ ids) more [] h = refl
up_to_abort-aborted (id ∷ ids) more (sc ∷ results) h =
    ap (λ l. measured id (some sc) ∷ l) (up_to_abort-aborted ids more results (omega arith))

up_to_abort-all :
    (ids more : List String) (results last : List ScenarioResult)
    → length results ≡ length ids
    → up_to_abort (ids ++ more) (results ++ last) ≡ up_to_abort ids results ++ up_to_abort more last
unfolding up_to_abort
up_to_abort-all [] more [] last h = refl
up_to_abort-all [] more (sc ∷ results) last h = absurd (omega arith)
up_to_abort-all (id ∷ ids) more [] last h = absurd (omega arith)
up_to_abort-all (id ∷ ids) more (sc ∷ results) last h =
    ap (λ l. measured id (some sc) ∷ l) (up_to_abort-all ids more results last (omega arith))

abbrev pub scenario_ids : List String
scenario_ids =
    "sequential" ∷ "low_concurrency" ∷ "high_concurrency" ∷ "contention" ∷ "list_heavy" ∷ []

module _ (w : World) (base_url : String) (warmup duration : ℕ) where
  abbrev ids_of : List ScenarioCfg → List String
  ids_of cfgs = map (λ cfg. cfg.id) cfgs

  run_scenarios-measured :
      (cfgs : List ScenarioCfg) (log : Log)
      → let ((results, aborted), log') = run_scenarios w base_url warmup duration cfgs log in
        (milestones w log' ≡ milestones w log ++ up_to_abort (ids_of cfgs) results)
        × (aborted ≡ true → length results < length (ids_of cfgs))
        × (aborted ≡ false → length results ≡ length (ids_of cfgs))
  unfolding run_scenarios milestones up_to_abort
  run_scenarios-measured [] log = (sym (append-nil _), λ e. cc, λ e. refl)
  run_scenarios-measured (cfg ∷ cfgs) log =
      let ran = run_scenario base_url cfg warmup duration ∷ log in
      let (m, l0, l1) = run_scenarios-measured cfgs (wait pause ∷ ran) in
      elim (Option-cases (w.scenario ran)) [
        | inl failed ↦ (ground (arith, failed), ground (arith, failed), ground (arith, failed))
        | inr (sc, ok) ↦ (
          ground (
            arith,
            ok,
            m,
            append_assoc (milestones w log) (measured cfg.id (some sc) ∷ []) (
                up_to_abort (ids_of cfgs)
                  (run_scenarios w base_url warmup duration cfgs (wait pause ∷ ran)).0.0),
          ),
          ground (arith, ok, l0),
          ground (arith, ok, l1),
        )
      ]

  pub measure_service-measured :
      (log : Log)
      → let (results, log') = measure_service w base_url warmup duration log in
        milestones w log' ≡ milestones w log ++ up_to_abort scenario_ids results
  unfolding measure_service milestones up_to_abort
  measure_service-measured log =
      let ran = run_scenarios w base_url warmup duration default_scenarios log in
      let (m, l0, l1) = run_scenarios-measured default_scenarios log in
      let ids = ids_of default_scenarios in
      let heavy = run_list_heavy base_url warmup duration ∷ ran.1 in
      elim (Bool-cases ran.0.1) [
        | inl aborted ↦
            ground
              (arith, aborted, m, up_to_abort-aborted ids ("list_heavy" ∷ []) ran.0.0 (l0 aborted))
        | inr finished ↦
            let all = up_to_abort-all ids ("list_heavy" ∷ []) ran.0.0 in
            elim (Option-cases (w.scenario heavy)) [
              | inl failed ↦ ground (
                arith,
                finished,
                failed,
                m,
                append-nil ran.0.0,
                all [] (l1 finished),
                append_assoc (milestones w log) (up_to_abort ids ran.0.0)
                    (measured "list_heavy" none ∷ []),
              )
              | inr (sc, ok) ↦ ground (
                arith,
                finished,
                ok,
                m,
                all (sc ∷ []) (l1 finished),
                append_assoc (milestones w log) (up_to_abort ids ran.0.0)
                    (measured "list_heavy" (some sc) ∷ []),
              )
            ]
      ]
