-- ===== src/Tests/Reports.antt =====
-- The report of two solutions.
use distributed_locking.Base.{◌≡◌, refl, none, some, [], ◌∷◌, map}
use distributed_locking.Map.{lookup, insert}
use distributed_locking.Bench.Scenario.{no_result}
use distributed_locking.Runner.{SolutionResult}
use distributed_locking.Report.{
  Report, Verbs, index_scenarios, index_solutions, cell, scenario_ids, rows, markdown, concat,
  write_rows,
}
use distributed_locking.Report.Cells
use distributed_locking.Report.Cells.{own_row}

abbrev go_lock : SolutionResult
go_lock = record { name = "go"; scenarios = no_result "sequential" ∷ no_result "contention" ∷ [] }

-- aborted in its first scenario
abbrev slow_lock : SolutionResult
slow_lock = record { name = "slow"; scenarios = [] }

abbrev report : Report
report = record { timestamp = "now"; solutions = go_lock ∷ slow_lock ∷ [] }

two_solutions :
    rows report
    ≡ ("sequential", some (no_result "sequential") ∷ none ∷ [])
      ∷ ("contention", some (no_result "contention") ∷ none ∷ [])
      ∷ []
unfolding rows cell index_solutions index_scenarios scenario_ids lookup insert no_result
two_solutions = refl

-- a solution under the name of another takes its place in the columns of both
same_name :
    rows (record { timestamp = "now"; solutions = go_lock ∷ record slow_lock { name = "go" } ∷ [] })
    ≡ ("sequential", none ∷ none ∷ []) ∷ ("contention", none ∷ none ∷ []) ∷ []
unfolding rows cell index_solutions index_scenarios scenario_ids lookup insert no_result
same_name = refl

abbrev verbs : Verbs
verbs = record { rate = λ r. "0"; ms = λ n. "0.0"; percent = λ r. "0.00"; leaked = λ n. "0" }

no_solutions :
    markdown verbs (record { timestamp = "now"; solutions = [] })
    ≡ "# Benchmark Report\n\n**Timestamp:** now\n\nNo solutions benchmarked.\n"
unfolding markdown
no_solutions = refl

write_rows-exact_example :
    write_rows verbs report
    ≡ concat (map (own_row verbs report.solutions) (scenario_ids report.solutions))
write_rows-exact_example = Cells.write_rows-exact verbs report ((refl, tt), (tt, tt))
