-- ===== src/Runner/Main.antt =====
-- benchmark/main.go: the solutions of the arguments, the network of a run in Docker, and the exits.
pub mod Judged
pub mod Closing
use distributed_locking.Base.{
  ℕ, zero, suc, String, Bool, true, false, not, Option, none, some, List, [], ◌∷◌, ◌++◌, ◌⊎◌, inl,
  inr, ◌==◌, ltb, if◌then◌else◌,
}
use distributed_locking.Effects.{Effect, Log, World, create_network, connect_self, remove_network}
use distributed_locking.Runner.{
  Files, discover_solutions, Failure, SolutionResult, validate_solution, benchmark_solution,
}

-- how `main` ends; all but the last are `os.Exit(1)`, which runs no deferred call
pub data Exit : Type 0 where
  usage : Exit
  discovery_failed : Exit
  no_solutions : Exit
  no_client : Exit
  no_network : Exit
  not_connected : Exit
  some_failed : Exit
  done : Exit

-- the flags, the arguments, and what the machine answers once
pub record Command : Type 0 where
  pub args : List String
  pub validate_only : Bool
  pub warmup : ℕ
  pub duration : ℕ
  pub has_client : Bool
  pub in_docker : Bool
  pub hostname : String

-- the loop over the arguments; `none` is the first error
unfoldable pub discover_all : Files → List String → Option (List String)
discover_all files [] = some []
discover_all files (arg ∷ args) =
    let rest = discover_all files args in
    elim (discover_solutions files arg) [
      | none ↦ none
      | some dirs ↦ elim rest [ none ↦ none | some more ↦ some (dirs ++ more) ]
    ]

module _ (w : World) where
  -- `ConnectSelfToNetwork`
  unfoldable pub connect : String → String → Log → Bool × Log
  connect hostname id log =
      let asked = connect_self id ∷ log in
      if hostname == "" then (false, log) else (w.is_connected asked, asked)

  -- the network of the containers, by its id and name, with the name "" outside Docker
  unfoldable pub set_up : Command → Log → (Exit ⊎ (Option String × String)) × Log
  unfolding connect
  set_up command log =
      let asked = create_network ∷ log in
      if not command.in_docker then (inr (none, ""), log) else elim (w.network asked) [
        | none ↦ (inl no_network, asked)
        | some (id, name) ↦
            let (is_connected, log') = connect command.hostname id asked in
            ((if is_connected then inr (some id, name) else inl not_connected), log')
      ]

  -- the deferred `RemoveNetwork`
  unfoldable pub clean_up : Option String → Log → Log
  clean_up none log = log
  clean_up (some id) log = remove_network id ∷ log

  -- how many solutions fail their validation
  unfoldable pub validate_all : List String → String → Log → ℕ × Log
  validate_all [] network log = (0, log)
  validate_all (dir ∷ dirs) network log =
      let (failure, between) = validate_solution w dir network log in
      let (failed, log') = validate_all dirs network between in
      (elim failure [ none ↦ failed | some f ↦ suc failed ], log')

  -- the results of the solutions that do not fail
  unfoldable pub benchmark_all : List String → ℕ → ℕ → String → Log → List SolutionResult × Log
  benchmark_all [] warmup duration network log = ([], log)
  benchmark_all (dir ∷ dirs) warmup duration network log =
      let (r, between) = benchmark_solution w dir warmup duration network log in
      let (results, log') = benchmark_all dirs warmup duration network between in
      (elim r [ inl failure ↦ results | inr result ↦ result ∷ results ], log')

  -- with the solutions found and the network up
  unfoldable pub run_all :
      Command → List String → Option String → String → Log → (Exit × List SolutionResult) × Log
  unfolding validate_all benchmark_all clean_up
  run_all command dirs network_id network log =
      let (failed, validated) = validate_all dirs network log in
      let (results, measured) = benchmark_all dirs command.warmup command.duration network log in
      if not command.validate_only
      then ((done, results), clean_up network_id measured)
      else if ltb 0 failed
      then ((some_failed, []), validated)
      else ((done, []), clean_up network_id validated)

  -- from `if len(solutionDirs) == 0` on
  unfoldable pub run_found : Command → List String → Log → (Exit × List SolutionResult) × Log
  unfolding set_up run_all
  run_found command [] log = ((no_solutions, []), log)
  run_found command (dir ∷ dirs) log =
      let (network, between) = set_up command log in
      if not command.has_client then ((no_client, []), log) else elim network [
        | inl exit ↦ ((exit, []), between)
        | inr (id, name) ↦ run_all command (dir ∷ dirs) id name between
      ]

  -- with the arguments as they are left by the flags
  unfoldable pub run_with : Files → Command → List String → Log → (Exit × List SolutionResult) × Log
  unfolding discover_all run_found
  run_with files command [] log = ((usage, []), log)
  run_with files command args log = elim (discover_all files args) [
    | none ↦ ((discovery_failed, []), log)
    | some dirs ↦ run_found command dirs log
  ]

  unfoldable pub run_main : Files → Command → Log → (Exit × List SolutionResult) × Log
  unfolding run_with
  run_main files command log = run_with files command command.args log
