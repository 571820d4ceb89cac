-- ===== src/Runner/Cleanup.antt =====
-- What the runner leaves behind: which containers it starts, and which of them it stops.
use distributed_locking.Base.{
  ℕ, ◌≡◌, refl, String, Bool, true, false, not, Option, none, some, List, [], ◌∷◌, ◌⊎◌, inl, inr,
  ◌==◌, arith, Option-cases, Bool-cases,
}
use distributed_locking.Effects.{
  Manifest, ManifestFile, Log, World, wait, unreadable, unparsable, parsed, read_manifest,
  run_scenario,
}
use distributed_locking.Bench.Keys.{ScenarioCfg}
use distributed_locking.Docker.Containers.{image_tag, container_name, build, stop}
use distributed_locking.Runner.{
  Failure, run_failed, not_healthy, invalid, start_service, check_service, validate_solution,
  run_scenarios, measure_service, benchmark_solution, default_scenarios, pause,
}
use distributed_locking.Docker.Containers.Started.{
  started, stopped, is_created, add_if, run_container-starts, run_on_network-starts,
}

-- a failure after the start of the container, and a failure behind the deferred clean-up
abbrev pub has_started : Option Failure → Bool
has_started none = true
has_started (some (run_failed e)) = is_created e
has_started (some not_healthy) = true
has_started (some invalid) = true
has_started (some f) = false

abbrev pub has_stopped : Option Failure → Bool
has_stopped none = true
has_stopped (some not_healthy) = true
has_stopped (some invalid) = true
has_stopped (some f) = false

module _ (w : World) where
  pub ManifestFile-cases :
      (f : ManifestFile) → (f ≡ unreadable) ⊎ (f ≡ unparsable) ⊎ ((m : Manifest) × (f ≡ parsed m))
  ManifestFile-cases unreadable = inl refl
  ManifestFile-cases unparsable = inr (inl refl)
  ManifestFile-cases (parsed m) = inr (inr (m, refl))

  pub Sum-cases {ℓ} : {A B : Type ℓ} (r : A ⊎ B) → ((a : A) × (r ≡ inl a)) ⊎ ((b : B) × (r ≡ inr b))
  Sum-cases (inl a) = inl (a, refl)
  Sum-cases (inr b) = inr (b, refl)

  build-starts :
      (dir tag : String) (log : Log)
      → (started (build w dir tag log).1 ≡ started log)
        × (stopped (build w dir tag log).1 ≡ stopped log)
  unfolding build started stopped
  build-starts dir tag log = (ground arith, ground arith)

  abbrev pub failure_of {ℓ} : {A : Type ℓ} → Failure ⊎ A → Option Failure
  failure_of (inl f) = some f
  failure_of (inr a) = none

  -- no failure of the start is one behind the clean-up
  abbrev is_early {ℓ} : {A : Type ℓ} → Failure ⊎ A → Bool
  is_early (inl f) = not (has_stopped (some f))
  is_early (inr a) = true

  abbrev container_or : String → Failure ⊎ (Manifest × String × String) → String
  container_or id (inl f) = id
  container_or id (inr (m, c, base_url)) = c

  abbrev Starts : Log → (Failure ⊎ (Manifest × String × String)) × Log → Type 0
  Starts log (r, log') =
      (id : String) × (started log' ≡ add_if (has_started (failure_of r)) id (started log))
      × (stopped log' ≡ stopped log)
      × (container_or id r ≡ id)
      × (is_early r ≡ true)

  start_service-Starts :
      (dir network : String) (log : Log) → Starts log (start_service w dir network log)
  unfolding start_service started stopped
  start_service-Starts dir network log =
      let seen = read_manifest dir ∷ log in
      elim (ManifestFile-cases (w.manifest seen)) [
        | inl e ↦ ("", ground (arith, e), ground (arith, e), ground (arith, e), ground (arith, e))
        | inr (inl e) ↦
            ("", ground (arith, e), ground (arith, e), ground (arith, e), ground (arith, e))
        | inr (inr (m, e)) ↦
            let tag = image_tag w m.name in
            let name = container_name w m.name in
            let made = (build w dir tag seen).1 in
            let (b0, b1) = build-starts dir tag seen in
            elim (Option-cases (build w dir tag seen).0) [
              | inr (f, failed) ↦ (
                "",
                ground (arith, e, failed, b0),
                ground (arith, e, failed, b1),
                ground (arith, e, failed),
                ground (arith, e, failed),
              )
              | inl built ↦ elim (Bool-cases (network == "")) [
                | inl local ↦
                    let (id, r0, r1, r2) = run_container-starts w tag m.port made in
                    (
                      id,
                      ground (arith, e, built, local, b0, r0),
                      ground (arith, e, built, local, b1, r1),
                      ground (arith, e, built, local, r2),
                      ground (arith, e, built, local),
                    )
                | inr named ↦
                    let (id, r0, r1, r2) = run_on_network-starts w tag m.port network name made in
                    (
                      id,
                      ground (arith, e, built, named, b0, r0),
                      ground (arith, e, built, named, b1, r1),
                      ground (arith, e, built, named, r2),
                      ground (arith, e, built, named),
                    )
              ]
            ]
      ]

  check_service-starts :
      (m : Manifest) (base_url : String) (log : Log)
      → (started (check_service w m base_url log).1 ≡ started log)
        × (stopped (check_service w m base_url log).1 ≡ stopped log)
        × (has_started (check_service w m base_url log).0 ≡ true)
        × (has_stopped (check_service w m base_url log).0 ≡ true)
  unfolding check_service started stopped
  check_service-starts m base_url log = (ground arith, ground arith, ground arith, ground arith)

  stop-starts :
      (id : String) (log : Log)
      → (started (stop w id log).1 ≡ started log) × (stopped (stop w id log).1 ≡ id ∷ stopped log)
  unfolding stop started stopped
  stop-starts id log = (ground arith, ground arith)

  run_scenarios-starts :
      (base_url : String) (warmup duration : ℕ) (cfgs : List ScenarioCfg) (log : Log)
      → let (r, log') = run_scenarios w base_url warmup duration cfgs log in
        (started log' ≡ started log) × (stopped log' ≡ stopped log)
  unfolding run_scenarios started stopped
  run_scenarios-starts base_url warmup duration [] log = (refl, refl)
  run_scenarios-starts base_url warmup duration (cfg ∷ cfgs) log =
      let (s, t) =
        run_scenarios-starts base_url warmup duration cfgs
          (wait pause ∷ run_scenario base_url cfg warmup duration ∷ log) in
      (ground (arith, s), ground (arith, t))

  measure_service-starts :
      (base_url : String) (warmup duration : ℕ) (log : Log)
      → let (r, log') = measure_service w base_url warmup duration log in
        (started log' ≡ started log) × (stopped log' ≡ stopped log)
  unfolding measure_service started stopped
  measure_service-starts base_url warmup duration log =
      let (s, t) = run_scenarios-starts base_url warmup duration default_scenarios log in
      (ground (arith, s), ground (arith, t))

  -- what a solution does to the two lists, by its failure
  abbrev pub IsTidied : Option Failure → Log → Log → Type 0
  IsTidied f log log' =
      (id : String) × (started log' ≡ add_if (has_started f) id (started log))
      × (stopped log' ≡ add_if (has_stopped f) id (stopped log))

  validate_solution-IsTidied :
      (dir network : String) (log : Log)
      → let (f, log') = validate_solution w dir network log in IsTidied f log log'
  unfolding validate_solution
  validate_solution-IsTidied dir network log =
      let (id, s0, s1, s2, s3) = start_service-Starts dir network log in
      let log1 = (start_service w dir network log).1 in
      elim (Sum-cases (start_service w dir network log).0) [
        | inl (f, e) ↦ (id, ground (arith, e, s0), ground (arith, e, s1, s3))
        | inr ((m, c, base_url), e) ↦
            let checked = check_service-starts m base_url log1 in
            let log2 = (check_service w m base_url log1).1 in
            let ended = stop-starts c log2 in
            (
              id,
              ground (arith, e, s0, checked.0, checked.2, ended.0),
              ground (arith, e, s1, s2, checked.1, checked.3, ended.1),
            )
      ]

  benchmark_solution-IsTidied :
      (dir : String) (warmup duration : ℕ) (network : String) (log : Log)
      → let (r, log') = benchmark_solution w dir warmup duration network log in
        IsTidied (failure_of r) log log'
  unfolding benchmark_solution
  benchmark_solution-IsTidied dir warmup duration network log =
      let (id, s0, s1, s2, s3) = start_service-Starts dir network log in
      let log1 = (start_service w dir network log).1 in
      elim (Sum-cases (start_service w dir network log).0) [
        | inl (f, e) ↦ (id, ground (arith, e, s0), ground (arith, e, s1, s3))
        | inr ((m, c, base_url), e) ↦
            let checked = check_service-starts m base_url log1 in
            let log2 = (check_service w m base_url log1).1 in
            elim (Option-cases (check_service w m base_url log1).0) [
              | inr (f, failed) ↦
                  let ended = stop-starts c log2 in
                  (
                    id,
                    ground (arith, e, failed, s0, checked.0, checked.2, ended.0),
                    ground (arith, e, failed, s1, s2, checked.1, checked.3, ended.1),
                  )
              | inl passed ↦
                  let measured = measure_service-starts base_url warmup duration log2 in
                  let ended = stop-starts c (measure_service w base_url warmup duration log2).1 in
                  (
                    id,
                    ground (arith, e, passed, s0, checked.0, measured.0, ended.0),
                    ground (arith, e, passed, s1, s2, checked.1, measured.1, ended.1),
                  )
            ]
      ]

  -- On every branch of `validateSolution` and `benchmarkSolution` at most one container is started. It
  -- is stopped exactly if its run returned no error: behind a failed wait, a failed validation and the
  -- measurements. A container whose start, inspection or port fails is not stopped.
  pub solutions-IsTidied :
      (dir network : String) (warmup duration : ℕ) (log : Log)
      → (let (f, log') = validate_solution w dir network log in IsTidied f log log')
        × (let (r, log') = benchmark_solution w dir warmup duration network log in
            IsTidied (failure_of r) log log')
  solutions-IsTidied dir network warmup duration log = (
    validate_solution-IsTidied dir network log,
    benchmark_solution-IsTidied dir warmup duration network log,
  )
