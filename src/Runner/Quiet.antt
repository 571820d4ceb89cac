-- ===== src/Runner/Quiet.antt =====
-- What building, running, validating and measuring a solution leaves alone: all of a log that only the
-- effects on the network change.
use distributed_locking.Base.{
  ℕ, zero, suc, ◌+◌, ◌≡◌, refl, String, Bool, true, false, none, some, List, [], ◌∷◌, inl, inr,
  arith, Option-cases,
}
use distributed_locking.Format.Integers.{ℤ}
use distributed_locking.Effects.{
  Manifest, Effect, Log, World, wait, wait_healthy, validate_spec, read_manifest, build_image,
  inspect_container, start_container, stop_container, remove_container, create_container, Container,
  run_scenario, run_list_heavy, create_network, connect_self, remove_network,
}
use distributed_locking.Bench.Keys.{ScenarioCfg}
use distributed_locking.Docker.Containers.{
  build, image_tag, container_name, run_container, run_container_on_network, await_port, stop,
  port_delay, port_rounds, port_deadline,
}
use distributed_locking.Runner.{
  start_service, check_service, run_scenarios, measure_service, validate_solution,
  benchmark_solution, pause, default_scenarios, timeout_of,
}
use distributed_locking.Runner.Cleanup.{ManifestFile-cases, Sum-cases}

abbrev pub is_of_network : Effect → Bool
is_of_network create_network = true
is_of_network (connect_self id) = true
is_of_network (remove_network id) = true
is_of_network e = false

module _ {ℓ} {A : Type ℓ} (w : World) (f : Log → A)
    (quiet : (e : Effect) (log : Log) → is_of_network e ≡ false → f (e ∷ log) ≡ f log) where
  await_port-quiet :
      (fuel : ℕ) (id : String) (deadline : ℕ) (log : Log)
      → f (await_port w fuel id deadline log).1 ≡ f log
  unfolding await_port
  await_port-quiet zero id deadline log = refl
  await_port-quiet (suc fuel) id deadline log =
      let seen = inspect_container id ∷ log in
      let rest = await_port-quiet fuel id deadline (wait port_delay ∷ seen) in
      let q0 = quiet (inspect_container id) log refl in
      let q1 = quiet (wait port_delay) seen refl in ground (arith, rest, q0, q1)

  run_container-quiet :
      (tag : String) (port : ℤ) (log : Log) → f (run_container w tag port log).1 ≡ f log
  unfolding run_container
  run_container-quiet tag port log =
      let c : Container = record {
        image = tag;
        port = port;
        publish = true;
        network = none;
        name = "";
      } in
      let asked = create_container c ∷ log in
      let q0 = quiet (create_container c) log refl in
      elim (Option-cases (w.created asked)) [
        | inl refused ↦ ground (arith, refused, q0)
        | inr (id, made) ↦
            let run = start_container id ∷ asked in
            let q1 = quiet (start_container id) asked refl in
            let rest = await_port-quiet port_rounds id (w.now run + port_deadline) run in
            ground (arith, made, q0, q1, rest)
      ]

  run_on_network-quiet :
      (tag : String) (port : ℤ) (network name : String) (log : Log)
      → f (run_container_on_network w tag port network name log).1 ≡ f log
  unfolding run_container_on_network
  run_on_network-quiet tag port network name log =
      let c : Container = record {
        image = tag;
        port = port;
        publish = false;
        network = some network;
        name = name;
      } in
      let cleared = remove_container name ∷ log in
      let asked = create_container c ∷ cleared in
      let q0 = quiet (remove_container name) log refl in
      let q1 = quiet (create_container c) cleared refl in
      elim (Option-cases (w.created asked)) [
        | inl refused ↦ ground (arith, refused, q0, q1)
        | inr (id, made) ↦ ground (arith, made, q0, q1, quiet (start_container id) asked refl)
      ]

  start_service-quiet :
      (dir network : String) (log : Log) → f (start_service w dir network log).1 ≡ f log
  unfolding start_service build
  start_service-quiet dir network log =
      let seen = read_manifest dir ∷ log in
      let q0 = quiet (read_manifest dir) log refl in
      elim (ManifestFile-cases w (w.manifest seen)) [
        | inl e ↦ ground (arith, e, q0)
        | inr (inl e) ↦ ground (arith, e, q0)
        | inr (inr (m, e)) ↦
            let tag = image_tag w m.name in
            let made = (build w dir tag seen).1 in
            ground (
              arith,
              e,
              q0,
              quiet (build_image dir tag) seen refl,
              run_container-quiet tag m.port made,
              run_on_network-quiet tag m.port network (container_name w m.name) made,
            )
      ]

  check_service-quiet :
      (m : Manifest) (base_url : String) (log : Log) → f (check_service w m base_url log).1 ≡ f log
  unfolding check_service
  check_service-quiet m base_url log =
      let asked = wait_healthy base_url (timeout_of m) ∷ log in
      ground (
        arith,
        quiet (wait_healthy base_url (timeout_of m)) log refl,
        quiet (validate_spec base_url) asked refl,
      )

  stop-quiet : (id : String) (log : Log) → f (stop w id log).1 ≡ f log
  unfolding stop
  stop-quiet id log = ground (
    arith,
    quiet (stop_container id) log refl,
    quiet (remove_container id) (stop_container id ∷ log) refl,
  )

  run_scenarios-quiet :
      (base_url : String) (warmup duration : ℕ) (cfgs : List ScenarioCfg) (log : Log)
      → f (run_scenarios w base_url warmup duration cfgs log).1 ≡ f log
  unfolding run_scenarios
  run_scenarios-quiet base_url warmup duration [] log = refl
  run_scenarios-quiet base_url warmup duration (cfg ∷ cfgs) log =
      let ran = run_scenario base_url cfg warmup duration ∷ log in
      ground (
        arith,
        quiet (run_scenario base_url cfg warmup duration) log refl,
        quiet (wait pause) ran refl,
        run_scenarios-quiet base_url warmup duration cfgs (wait pause ∷ ran),
      )

  measure_service-quiet :
      (base_url : String) (warmup duration : ℕ) (log : Log)
      → f (measure_service w base_url warmup duration log).1 ≡ f log
  unfolding measure_service
  measure_service-quiet base_url warmup duration log =
      let ran = (run_scenarios w base_url warmup duration default_scenarios log).1 in
      ground (
        arith,
        run_scenarios-quiet base_url warmup duration default_scenarios log,
        quiet (run_list_heavy base_url warmup duration) ran refl,
      )

  pub validate_solution-quiet :
      (dir network : String) (log : Log) → f (validate_solution w dir network log).1 ≡ f log
  unfolding validate_solution
  validate_solution-quiet dir network log =
      let log1 = (start_service w dir network log).1 in
      let s = start_service-quiet dir network log in
      elim (Sum-cases w (start_service w dir network log).0) [
        | inl (failure, e) ↦ ground (arith, e, s)
        | inr ((m, c, base_url), e) ↦
            let log2 = (check_service w m base_url log1).1 in
            ground (arith, e, s, check_service-quiet m base_url log1, stop-quiet c log2)
      ]

  pub benchmark_solution-quiet :
      (dir : String) (warmup duration : ℕ) (network : String) (log : Log)
      → f (benchmark_solution w dir warmup duration network log).1 ≡ f log
  unfolding benchmark_solution
  benchmark_solution-quiet dir warmup duration network log =
      let log1 = (start_service w dir network log).1 in
      let s = start_service-quiet dir network log in
      elim (Sum-cases w (start_service w dir network log).0) [
        | inl (failure, e) ↦ ground (arith, e, s)
        | inr ((m, c, base_url), e) ↦
            let log2 = (check_service w m base_url log1).1 in
            let log3 = (measure_service w base_url warmup duration log2).1 in
            ground (
              arith,
              e,
              s,
              check_service-quiet m base_url log1,
              measure_service-quiet base_url warmup duration log2,
              stop-quiet c log2,
              stop-quiet c log3,
            )
      ]
