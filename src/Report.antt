-- ===== src/Report.antt =====
-- benchmark/reporter.go: `WriteMarkdown`, as the text that it writes. The verbs %.0f, %.1f and %.2f of
-- the numbers are a parameter.
pub mod Cells
use Prim.Native.String.{◌++◌}
use distributed_locking.Base.{ℕ, String, Option, none, some, List, [], ◌∷◌, map}
use distributed_locking.Map.{Map, lookup, insert}
use distributed_locking.Format.{decimal}
use distributed_locking.Bench.Scenario.{Ratio, ScenarioResult}
use distributed_locking.Runner.{SolutionResult}

-- `Report`
pub record Report : Type 0 where
  pub timestamp : String
  pub solutions : List SolutionResult

-- how the fields of a result are printed: a rate without decimals, a latency in milliseconds with one,
-- a percentage with two, and the count of leaked locks, which may be -1
pub record Verbs : Type 0 where
  pub rate : Ratio → String
  pub ms : ℕ → String
  pub percent : Ratio → String
  pub leaked : Option ℕ → String

-- `index[sol.Name]`, from what it holds so far
unfoldable pub index_scenarios : List ScenarioResult → Map ScenarioResult → Map ScenarioResult
index_scenarios [] m = m
index_scenarios (sc ∷ scenarios) m = index_scenarios scenarios (insert sc.scenario_id sc m)

unfoldable pub index_solutions :
    List SolutionResult → Map (Map ScenarioResult) → Map (Map ScenarioResult)
unfolding index_scenarios
index_solutions [] m = m
index_solutions (sol ∷ solutions) m =
    index_solutions solutions (insert sol.name (index_scenarios sol.scenarios []) m)

-- `index[sol.Name][id]`; a missing inner map has no entry
unfoldable pub cell : Map (Map ScenarioResult) → String → String → Option ScenarioResult
cell index name id = elim (lookup name index) [ none ↦ none | some m ↦ lookup id m ]

-- the names of the rows: the scenarios of the first solution
unfoldable pub scenario_ids : List SolutionResult → List String
scenario_ids [] = []
scenario_ids (first ∷ solutions) = map (λ sc. sc.scenario_id) first.scenarios

-- the rows of the results, each with the results of the solutions in order
unfoldable pub rows : Report → List (String × List (Option ScenarioResult))
unfolding index_solutions cell scenario_ids
rows report =
    let index = index_solutions report.solutions [] in
    map (λ id. (id, map (λ sol. cell index sol.name id) report.solutions))
      (scenario_ids report.solutions)

abbrev pub concat : List String → String
concat [] = ""
concat (s ∷ rest) = s ++ concat rest

module _ (verbs : Verbs) where
  unfoldable write_cell : Option ScenarioResult → String
  write_cell none = " — |"
  write_cell (some sc) = " " ++ (verbs.rate sc.rps ++ (" RPS / " ++ (verbs.ms sc.p99 ++ " ms |")))

  unfoldable write_row : String × List (Option ScenarioResult) → String
  unfolding write_cell
  write_row (id, cells) = "| " ++ (id ++ (" |" ++ (concat (map write_cell cells) ++ "\n")))

  -- the rows of the results table
  unfoldable pub write_rows : Report → String
  unfolding rows write_row
  write_rows report = concat (map write_row (rows report))

  write_metrics : ScenarioResult → String
  write_metrics sc = concat (
      "| "
      ∷ sc.scenario_id
      ∷ " | "
      ∷ decimal sc.requests_total
      ∷ " | "
      ∷ verbs.rate sc.rps
      ∷ " | "
      ∷ verbs.ms sc.p50
      ∷ " | "
      ∷ verbs.ms sc.p95
      ∷ " | "
      ∷ verbs.ms sc.p99
      ∷ " | "
      ∷ verbs.ms sc.max
      ∷ " | "
      ∷ verbs.percent sc.error_rate
      ∷ "% | "
      ∷ verbs.percent sc.conflict_rate
      ∷ "% | "
      ∷ verbs.leaked sc.leaked_locks
      ∷ " |\n"
      ∷ [])

  write_solution : SolutionResult → String
  unfolding write_metrics
  write_solution sol = concat (
      "### "
      ∷ sol.name
      ∷ "\n\n"
      ∷ "| Scenario | Requests | RPS | P50 ms | P95 ms | P99 ms | Max ms | Error% | Conflict% | Leaked |\n"
      ∷ "|---|---|---|---|---|---|---|---|---|---|\n"
      ∷ concat (map write_metrics sol.scenarios)
      ∷ "\n"
      ∷ [])

  write_solutions : Report → String
  unfolding write_rows write_solution
  write_solutions report = concat (
      "## Results (RPS / P99 ms)\n\n"
      ∷ "| Scenario |"
      ∷ concat (map (λ sol. " " ++ (sol.name ++ " |")) report.solutions)
      ∷ "\n"
      ∷ "|---|"
      ∷ concat (map (λ sol. "---|") report.solutions)
      ∷ "\n"
      ∷ write_rows report
      ∷ "\n## Detailed Metrics\n\n"
      ∷ concat (map write_solution report.solutions)
      ∷ [])

  -- the text of the file
  unfoldable pub markdown : Report → String
  unfolding write_solutions
  markdown report =
      "# Benchmark Report\n\n**Timestamp:** "
      ++ (report.timestamp
          ++ ("\n\n" ++ elim report.solutions [
            | [] ↦ "No solutions benchmarked.\n"
            | sol ∷ solutions ↦ write_solutions report
          ]))
