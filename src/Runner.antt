-- ===== src/Runner.antt =====
-- benchmark/runner.go: how a solution is found, built, run, validated and measured, as a log of effects.
pub mod Cleanup
pub mod Measured
pub mod Order
pub mod Quiet
pub mod Main
use Prim.Native.String.{◌++◌}
use distributed_locking.Base.{
  ℕ, zero, String, Bool, true, false, not, ◌&&◌, Option, none, some, List, [], ◌∷◌, ◌⊎◌, inl, inr,
  ◌++◌ as append, ◌==◌, if◌then◌else◌,
}
use distributed_locking.Format.Integers.{ℤ, pos, print_int}
use distributed_locking.Effects.{
  Manifest, unreadable, unparsable, parsed, read_manifest, wait, wait_healthy, validate_spec,
  run_scenario, run_list_heavy, Log, World,
}
use distributed_locking.Bench.Keys.{ScenarioCfg}
use distributed_locking.Bench.Scenario.{ScenarioResult}
use distributed_locking.Docker.Containers.{
  RunError, BuildError, build, run_container, run_container_on_network, stop, image_tag,
  container_name,
}

-- what `discoverSolutions` asks of the file system; `stat` says whether a path is a directory
pub record Files : Type 0 where
  pub stat : String → Option Bool
  pub read_dir : String → Option (List (String × Bool))
  pub join : String → String → String  -- `filepath.Join`

module _ (files : Files) where
  abbrev pub is_there : String → Bool
  is_there path = elim (files.stat path) [ none ↦ false | some is_dir ↦ true ]

  unfoldable pub has_manifest : String → Bool
  has_manifest dir = is_there (files.join dir "solution.json")

  unfoldable pub candidates : String → List (String × Bool) → List String
  unfolding has_manifest
  candidates root [] = []
  candidates root ((name, is_dir) ∷ entries) =
      let rest = candidates root entries in
      if not is_dir
      then rest
      else if has_manifest (files.join root name)
      then files.join root name ∷ rest
      else rest

  -- `none` is an error
  unfoldable pub discover_solutions : String → Option (List String)
  unfolding candidates
  discover_solutions root = elim (files.stat root) [
    | none ↦ none
    | some is_dir ↦
        if is_dir && has_manifest root then some (root ∷ []) else elim (files.read_dir root) [
          | none ↦ none
          | some entries ↦ some (candidates root entries)
        ]
  ]

pub data Failure : Type 0 where
  manifest_unreadable : Failure
  manifest_unparsable : Failure
  build_failed : BuildError → Failure
  run_failed : RunError → Failure
  not_healthy : Failure
  invalid : Failure

-- `SolutionResult`
pub record SolutionResult : Type 0 where
  pub name : String
  pub scenarios : List ScenarioResult

abbrev pub default_timeout_ms : ℤ
default_timeout_ms = pos 10000

unfoldable pub timeout_of : Manifest → ℤ
timeout_of manifest = elim manifest.startup_timeout_ms [ pos zero ↦ default_timeout_ms | ms ↦ ms ]

abbrev pub pause : ℕ
pause = 2000000000

-- `defaultScenarios`
abbrev scenario_cfg : String → ℕ → ℕ → Bool → ScenarioCfg
scenario_cfg id concurrency key_pool_size partition_keys = record {
  id = id;
  concurrency = concurrency;
  key_pool_size = key_pool_size;
  partition_keys = partition_keys;
}

abbrev pub default_scenarios : List ScenarioCfg
default_scenarios =
    scenario_cfg "sequential" 1 1000 true
    ∷ scenario_cfg "low_concurrency" 10 1000 true
    ∷ scenario_cfg "high_concurrency" 100 10000 true
    ∷ scenario_cfg "contention" 50 5 false
    ∷ []

module _ (w : World) where
  -- up to the deferred clean-up: the manifest, the container and the address of the service
  unfoldable pub start_service :
      String → String → Log → (Failure ⊎ (Manifest × String × String)) × Log
  start_service dir network log =
      let seen = read_manifest dir ∷ log in
      elim (w.manifest seen) [
        | unreadable ↦ (inl manifest_unreadable, seen)
        | unparsable ↦ (inl manifest_unparsable, seen)
        | parsed manifest ↦
            let tag = image_tag w manifest.name in
            let name = container_name w manifest.name in
            let (failed, made) = build w dir tag seen in
            elim failed [
              | some e ↦ (inl (build_failed e), made)
              | none ↦
                  if not (network == "")
                  then (let (run, log') =
                        run_container_on_network w tag manifest.port network name made in
                      (
                        elim run [
                          | inl e ↦ inl (run_failed e)
                          | inr id ↦ inr (
                            manifest,
                            id,
                            "http://" ++ (name ++ (":" ++ print_int manifest.port)),
                          )
                        ],
                        log',
                      ))
                  else (let (run, log') = run_container w tag manifest.port made in
                      (
                        elim run [
                          | inl e ↦ inl (run_failed e)
                          | inr (id, host_port) ↦
                              inr (manifest, id, "http://127.0.0.1:" ++ print_int host_port)
                        ],
                        log',
                      ))
            ]
      ]

  -- the wait for the service and its validation
  unfoldable pub check_service : Manifest → String → Log → Option Failure × Log
  unfolding timeout_of
  check_service manifest base_url log =
      let asked = wait_healthy base_url (timeout_of manifest) ∷ log in
      let checked = validate_spec base_url ∷ asked in
      if not (w.is_healthy asked)
      then (some not_healthy, asked)
      else if not (w.is_valid checked)
      then (some invalid, checked)
      else (none, checked)

  unfoldable pub validate_solution : String → String → Log → Option Failure × Log
  unfolding start_service check_service stop
  validate_solution dir network log =
      let (started, log1) = start_service dir network log in
      elim started [
        | inl failure ↦ (some failure, log1)
        | inr (manifest, id, base_url) ↦
            let (failed, log2) = check_service manifest base_url log1 in
            (failed, (stop w id log2).1)
      ]

  -- the loop over the scenarios: their results, and whether one was aborted
  unfoldable pub run_scenarios :
      String → ℕ → ℕ → List ScenarioCfg → Log → (List ScenarioResult × Bool) × Log
  run_scenarios base_url warmup duration [] log = (([], false), log)
  run_scenarios base_url warmup duration (cfg ∷ cfgs) log =
      let ran = run_scenario base_url cfg warmup duration ∷ log in
      let ((results, aborted), log') =
        run_scenarios base_url warmup duration cfgs (wait pause ∷ ran) in
      elim (w.scenario ran) [ none ↦ (([], true), ran) | some sc ↦ ((sc ∷ results, aborted), log') ]

  unfoldable pub measure_service : String → ℕ → ℕ → Log → List ScenarioResult × Log
  unfolding run_scenarios
  measure_service base_url warmup duration log =
      let ((results, aborted), log1) =
        run_scenarios base_url warmup duration default_scenarios log in
      let ran = run_list_heavy base_url warmup duration ∷ log1 in
      if aborted then (results, log1) else elim (w.scenario ran) [
        | none ↦ (results, ran)
        | some sc ↦ (append results (sc ∷ []), ran)
      ]

  unfoldable pub benchmark_solution :
      String → ℕ → ℕ → String → Log → (Failure ⊎ SolutionResult) × Log
  unfolding start_service check_service measure_service stop
  benchmark_solution dir warmup duration network log =
      let (started, log1) = start_service dir network log in
      elim started [
        | inl failure ↦ (inl failure, log1)
        | inr (manifest, id, base_url) ↦
            let (failed, log2) = check_service manifest base_url log1 in
            elim failed [
              | some failure ↦ (inl failure, (stop w id log2).1)
              | none ↦
                  let (results, log3) = measure_service base_url warmup duration log2 in
                  (inr (record { name = manifest.name; scenarios = results }), (stop w id log3).1)
            ]
      ]
