-- ===== src/Runner/Order.antt =====
-- `benchmarkSolution` measures a solution only after its validation, and each scenario in turn.
use mathlib.Core.List.{append_assoc, append-nil}
use distributed_locking.Base.{
  ℕ, zero, suc, ◌+◌, ◌≡◌, refl, ap, ◌∙◌, String, true, Option, none, some, List, [], ◌∷◌, ◌++◌, ◌⊎◌,
  inl, inr, arith, Option-cases,
}
use distributed_locking.Format.Integers.{ℤ}
use distributed_locking.Effects.{
  Manifest, Log, World, wait, read_manifest, inspect_container, start_container, create_container,
  Container,
}
use distributed_locking.Docker.Containers.{
  build, image_tag, container_name, run_container, run_container_on_network, await_port, stop,
  port_delay, port_rounds, port_deadline,
}
use distributed_locking.Runner.{
  Failure, SolutionResult, start_service, check_service, measure_service, benchmark_solution,
}
use distributed_locking.Runner.Cleanup.{ManifestFile-cases, Sum-cases}
use distributed_locking.Runner.Measured.{
  Milestone, milestones, passed, up_to_abort, scenario_ids, measure_service-measured,
}

module _ (w : World) where
  await_port-measured :
      (fuel : ℕ) (id : String) (deadline : ℕ) (log : Log)
      → milestones w (await_port w fuel id deadline log).1 ≡ milestones w log
  unfolding await_port milestones
  await_port-measured zero id deadline log = refl
  await_port-measured (suc fuel) id deadline log =
      let rest =
        await_port-measured fuel id deadline (wait port_delay ∷ inspect_container id ∷ log) in
      ground (arith, rest)

  run_container-measured :
      (tag : String) (port : ℤ) (log : Log)
      → milestones w (run_container w tag port log).1 ≡ milestones w log
  unfolding run_container milestones
  run_container-measured tag port log =
      let c : Container = record {
        image = tag;
        port = port;
        publish = true;
        network = none;
        name = "";
      } in
      let asked = create_container c ∷ log in
      elim (Option-cases (w.created asked)) [
        | inl refused ↦ ground (arith, refused)
        | inr (id, made) ↦
            let run = start_container id ∷ asked in
            let rest = await_port-measured port_rounds id (w.now run + port_deadline) run in
            ground (arith, made, rest)
      ]

  run_on_network-measured :
      (tag : String) (port : ℤ) (network name : String) (log : Log)
      → milestones w (run_container_on_network w tag port network name log).1 ≡ milestones w log
  unfolding run_container_on_network milestones
  run_on_network-measured tag port network name log = ground arith

  start_service-measured :
      (dir network : String) (log : Log)
      → milestones w (start_service w dir network log).1 ≡ milestones w log
  unfolding start_service milestones build
  start_service-measured dir network log =
      let seen = read_manifest dir ∷ log in
      elim (ManifestFile-cases w (w.manifest seen)) [
        | inl e ↦ ground (arith, e)
        | inr (inl e) ↦ ground (arith, e)
        | inr (inr (m, e)) ↦
            let tag = image_tag w m.name in
            let made = (build w dir tag seen).1 in
            ground (
              arith,
              e,
              run_container-measured tag m.port made,
              run_on_network-measured tag m.port network (container_name w m.name) made,
            )
      ]

  abbrev passed_if : Option Failure → String → List Milestone
  passed_if none base_url = passed base_url ∷ []
  passed_if (some f) base_url = []

  check_service-measured :
      (m : Manifest) (base_url : String) (log : Log)
      → let (f, log') = check_service w m base_url log in
        milestones w log' ≡ milestones w log ++ passed_if f base_url
  unfolding check_service milestones
  check_service-measured m base_url log = ground (arith, append-nil (milestones w log))

  stop-measured : (id : String) (log : Log) → milestones w (stop w id log).1 ≡ milestones w log
  unfolding stop milestones
  stop-measured id log = ground arith

  -- what the benchmark of a solution adds to the milestones
  abbrev pub IsOrdered : Failure ⊎ SolutionResult → Log → Log → Type 0
  IsOrdered (inl f) log log' = milestones w log' ≡ milestones w log
  IsOrdered (inr result) log log' =
      (base_url : String) × (milestones w log'
        ≡ milestones w log ++ (passed base_url ∷ up_to_abort scenario_ids result.scenarios))

  -- The benchmark of a solution that cannot be started, or does not pass its validation, runs no
  -- scenario. Otherwise the service first passes its validation; then the scenarios are run one after
  -- another in their order, up to the first that is aborted, and the result has those before it.
  pub benchmark_solution-IsOrdered :
      (dir : String) (warmup duration : ℕ) (network : String) (log : Log)
      → let (r, log') = benchmark_solution w dir warmup duration network log in IsOrdered r log log'
  unfolding benchmark_solution
  benchmark_solution-IsOrdered dir warmup duration network log =
      let m0 = start_service-measured dir network log in
      let log1 = (start_service w dir network log).1 in
      elim (Sum-cases w (start_service w dir network log).0) [
        | inl (f, e) ↦ rw (e, benchmark_solution) m0
        | inr ((m, c, base_url), e) ↦
            let log2 = (check_service w m base_url log1).1 in
            let k = check_service-measured m base_url log1 in
            elim (Option-cases (check_service w m base_url log1).0) [
              | inr (f, failed) ↦
                  rw (e, failed, benchmark_solution)
                    (stop-measured c log2 ∙ rw failed at k ∙ append-nil (milestones w log1) ∙ m0)
              | inl valid ↦
                  let log3 = (measure_service w base_url warmup duration log2).1 in
                  let results = (measure_service w base_url warmup duration log2).0 in
                  rw (e, valid, benchmark_solution)
                    (
                      base_url,
                      stop-measured c log3
                          ∙ measure_service-measured w base_url warmup duration log2
                          ∙ ap (λ l. l ++ up_to_abort scenario_ids results) (rw valid at k)
                          ∙ append_assoc (milestones w log1) (passed base_url ∷ []) _
                          ∙ ap (λ l. l ++ (passed base_url ∷ up_to_abort scenario_ids results)) m0,
                    )
            ]
      ]
