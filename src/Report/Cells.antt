-- ===== src/Report/Cells.antt =====
-- What stands in the cells of the report.
use Prim.Native.String.{◌++◌}
use mathlib.Core.Path.{fun_ext}
use mathlib.Core.Option
use distributed_locking.Base.{
  ◌≡◌, refl, ap, ◌∙◌, String, Bool, false, Option, none, some, List, [], ◌∷◌, map, ◌==◌,
  if◌then◌else◌, Bool-cases, inl, inr, eq_refl, All,
}
use distributed_locking.Map.{Map, lookup, insert}
use distributed_locking.Map.Laws.{lookup-insert}
use distributed_locking.Bench.Scenario.{ScenarioResult}
use distributed_locking.Runner.{SolutionResult}
use distributed_locking.Report.{
  Report, index_scenarios, index_solutions, cell, scenario_ids, rows, Verbs, concat, write_cell,
  write_row, write_rows,
}

-- the last member that passes a test, or else the one before the list
abbrev pub latest {ℓ} : {A : Type ℓ} → (A → Bool) → List A → Option A → Option A
latest p [] old = old
latest p (a ∷ rest) old = latest p rest (if p a then some a else old)

index_scenarios-latest :
    (id : String) (scenarios : List ScenarioResult) (m : Map ScenarioResult)
    → lookup id (index_scenarios scenarios m)
      ≡ latest (λ sc. sc.scenario_id == id) scenarios (lookup id m)
unfolding index_scenarios
index_scenarios-latest id [] m = refl
index_scenarios-latest id (sc ∷ scenarios) m =
    index_scenarios-latest id scenarios (insert sc.scenario_id sc m)
    ∙ ap (latest (λ x. x.scenario_id == id) scenarios) (lookup-insert sc.scenario_id id sc m)

index_solutions-latest :
    (name : String) (solutions : List SolutionResult) (m : Map (Map ScenarioResult))
    (old : Option SolutionResult)
    → lookup name m ≡ Option.map (λ sol. index_scenarios sol.scenarios []) old
    → lookup name (index_solutions solutions m)
      ≡ Option.map
          (λ sol. index_scenarios sol.scenarios [])
          (latest (λ sol. sol.name == name) solutions old)
unfolding index_solutions
index_solutions-latest name [] m old h = h
index_solutions-latest name (sol ∷ solutions) m old h =
    index_solutions-latest name solutions (insert sol.name (index_scenarios sol.scenarios []) m)
      (if sol.name == name then some sol else old)
      (lookup-insert sol.name name (index_scenarios sol.scenarios []) m
        ∙ elim (Bool-cases (sol.name == name)) [ inl same ↦ rw same refl | inr other ↦ rw other h ])

-- no two solutions of one name
abbrev pub AreDistinct : List SolutionResult → Type 0
AreDistinct [] = Unit
AreDistinct (sol ∷ rest) = All (λ x. (x.name == sol.name) ≡ false) rest × AreDistinct rest

latest-old :
    (name : String) (rest : List SolutionResult) (old : Option SolutionResult)
    → All (λ x. (x.name == name) ≡ false) rest
    → latest (λ x. x.name == name) rest old ≡ old
latest-old name [] old h = refl
latest-old name (x ∷ rest) old (e, h) = rw e (latest-old name rest old h)

-- then a solution is the last of its name
latest-own :
    (solutions : List SolutionResult) (old : SolutionResult → Option SolutionResult)
    → AreDistinct solutions
    → All (λ sol. latest (λ x. x.name == sol.name) solutions (old sol) ≡ some sol) solutions
latest-own [] old h = tt
latest-own (x ∷ rest) old (apart, h) = (
  rw (eq_refl x.name) (latest-old x.name rest (some x) apart),
  latest-own rest (λ sol. if x.name == sol.name then some x else old sol) h,
)

map-same {ℓ κ} :
    {A : Type ℓ} {B : Type κ} (f g : A → B) (l : List A)
    → All (λ a. f a ≡ g a) l
    → map f l ≡ map g l
map-same f g [] h = refl
map-same f g (a ∷ l) (e, h) = λ i. e i ∷ map-same f g l h i

All-map {ℓ κ μ} :
    {A : Type ℓ} {P : A → Type κ} {Q : A → Type μ} (l : List A)
    → ((a : A) → P a → Q a)
    → All P l
    → All Q l
All-map [] f h = tt
All-map (a ∷ l) f (p, h) = (f a p, All-map l f h)

-- the result of a scenario in one solution
abbrev pub own_result : String → SolutionResult → Option ScenarioResult
own_result id sol = latest (λ sc. sc.scenario_id == id) sol.scenarios none

cell-own :
    (solutions : List SolutionResult) (sol : SolutionResult) (id : String)
    → latest (λ x. x.name == sol.name) solutions none ≡ some sol
    → cell (index_solutions solutions []) sol.name id ≡ own_result id sol
unfolding cell lookup
cell-own solutions sol id e =
    ap (λ x. elim x [ none ↦ none | some m ↦ lookup id m ])
      (index_solutions-latest sol.name solutions [] none refl
        ∙ ap (Option.map (λ x. index_scenarios x.scenarios [])) e)
    ∙ index_scenarios-latest id sol.scenarios []

-- where no two solutions have one name
rows-exact :
    (report : Report)
    → AreDistinct report.solutions
    → rows report
      ≡ map (λ id. (id, map (own_result id) report.solutions)) (scenario_ids report.solutions)
unfolding rows
rows-exact report h =
    let solutions = report.solutions in
    ap (λ row. map row (scenario_ids solutions))
      (fun_ext (λ id. λ i. (
        id,
        map-same (λ sol. cell (index_solutions solutions []) sol.name id) (own_result id) solutions
            (All-map solutions (λ sol. cell-own solutions sol id)
              (latest-own solutions (λ x. none) h))
            i,
      )))

map-compose {ℓ κ μ} :
    {A : Type ℓ} {B : Type κ} {C : Type μ} (g : B → C) (f : A → B) (l : List A)
    → map g (map f l) ≡ map (λ a. g (f a)) l
map-compose g f [] = refl
map-compose g f (a ∷ l) = λ i. g (f a) ∷ map-compose g f l i

module _ (verbs : Verbs) where
  -- a cell of the table: the rate and the 99th percentile of a solution's own result, or a dash
  abbrev pub own_cell : String → SolutionResult → String
  own_cell id sol = elim (own_result id sol) [
    | none ↦ " — |"
    | some sc ↦ " " ++ (verbs.rate sc.rps ++ (" RPS / " ++ (verbs.ms sc.p99 ++ " ms |")))
  ]

  abbrev pub own_row : List SolutionResult → String → String
  own_row solutions id = "| " ++ (id ++ (" |" ++ (concat (map (own_cell id) solutions) ++ "\n")))

  write_cell-cases :
      (r : Option ScenarioResult)
      → write_cell verbs r ≡ elim r [
        | none ↦ " — |"
        | some sc ↦ " " ++ (verbs.rate sc.rps ++ (" RPS / " ++ (verbs.ms sc.p99 ++ " ms |")))
      ]
  unfolding write_cell
  write_cell-cases none = refl
  write_cell-cases (some sc) = refl

  write_row-own :
      (solutions : List SolutionResult) (id : String)
      → write_row verbs (id, map (own_result id) solutions) ≡ own_row solutions id
  unfolding write_row
  write_row-own solutions id =
      ap (λ cells. "| " ++ (id ++ (" |" ++ (concat cells ++ "\n"))))
        (map-compose (write_cell verbs) (own_result id) solutions
          ∙ ap (λ f. map f solutions) (fun_ext (λ sol. write_cell-cases (own_result id sol))))

  -- Where no two solutions have one name, the results table of the report is written with a row for
  -- each scenario of the first solution, in order, and in it a cell for each solution, in order: the
  -- rate and the 99th percentile of that solution's own result of the scenario, the last one if it has
  -- several, and a dash where it has none.
  pub write_rows-exact :
      (report : Report)
      → AreDistinct report.solutions
      → write_rows verbs report
        ≡ concat (map (own_row report.solutions) (scenario_ids report.solutions))
  unfolding write_rows
  write_rows-exact report h = ap concat (
      ap (map (write_row verbs)) (rows-exact report h)
      ∙ (map-compose (write_row verbs) (λ id. (id, map (own_result id) report.solutions))
            (scenario_ids report.solutions)
          ∙ ap (λ f. map f (scenario_ids report.solutions))
              (fun_ext (write_row-own report.solutions))))
