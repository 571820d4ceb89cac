-- ===== src/Docker/Containers/Started.antt =====
-- Which containers the runs of benchmark/docker.go start.
use distributed_locking.Base.{
  ℕ, zero, suc, ◌+◌, ◌≡◌, refl, String, Bool, true, false, none, some, List, [], ◌∷◌, ◌⊎◌, inl, inr,
  arith, Option-cases,
}
use distributed_locking.Format.Integers.{ℤ}
use distributed_locking.Effects.{
  start_container, stop_container, Log, World, wait, inspect_container, create_container, Container,
  remove_container,
}
use distributed_locking.Docker.Containers.{
  RunError, create_failed, run_container, run_container_on_network, await_port, port_delay,
  port_rounds, port_deadline,
}

-- the containers that were started, and those that were stopped, the last one first
unfoldable pub started : Log → List String
started [] = []
started (start_container id ∷ log) = id ∷ started log
started (e ∷ log) = started log

unfoldable pub stopped : Log → List String
stopped [] = []
stopped (stop_container id ∷ log) = id ∷ stopped log
stopped (e ∷ log) = stopped log

-- a run of a container that got as far as its start
abbrev pub is_created : RunError → Bool
is_created create_failed = false
is_created e = true

abbrev pub is_run {ℓ} : {A : Type ℓ} → RunError ⊎ A → Bool
is_run (inl e) = is_created e
is_run (inr a) = true

abbrev pub add_if : Bool → String → List String → List String
add_if true id ids = id ∷ ids
add_if false id ids = ids

abbrev pub returned_or : String → RunError ⊎ (String × ℤ) → String
returned_or id (inl e) = id
returned_or id (inr (c, port)) = c

abbrev pub returned_or' : String → RunError ⊎ String → String
returned_or' id (inl e) = id
returned_or' id (inr c) = c

module _ (w : World) where
  await_port-starts :
      (fuel : ℕ) (id : String) (deadline : ℕ) (log : Log)
      → let (r, log') = await_port w fuel id deadline log in
        (started log' ≡ started log)
        × (stopped log' ≡ stopped log)
        × (returned_or id r ≡ id)
        × (is_run r ≡ true)
  unfolding await_port started stopped
  await_port-starts zero id deadline log = (refl, refl, refl, refl)
  await_port-starts (suc fuel) id deadline log =
      let rest =
        await_port-starts fuel id deadline (wait port_delay ∷ inspect_container id ∷ log) in
      (
        ground (arith, rest.0),
        ground (arith, rest.1),
        ground (arith, rest.2),
        ground (arith, rest.3),
      )

  pub run_container-starts :
      (tag : String) (port : ℤ) (log : Log)
      → let (r, log') = run_container w tag port log in
        (id : String) × (started log' ≡ add_if (is_run r) id (started log))
        × (stopped log' ≡ stopped log)
        × (returned_or id r ≡ id)
  unfolding run_container started stopped
  run_container-starts tag port log =
      let c : Container = record {
        image = tag;
        port = port;
        publish = true;
        network = none;
        name = "";
      } in
      let asked = create_container c ∷ log in
      elim (Option-cases (w.created asked)) [
        | inl refused ↦
            ("", ground (arith, refused), ground (arith, refused), ground (arith, refused))
        | inr (id, made) ↦
            let run = start_container id ∷ asked in
            let rest = await_port-starts port_rounds id (w.now run + port_deadline) run in
            (
              id,
              ground (arith, made, rest.0, rest.3),
              ground (arith, made, rest.1),
              ground (arith, made, rest.2),
            )
      ]

  pub run_on_network-starts :
      (tag : String) (port : ℤ) (network name : String) (log : Log)
      → let (r, log') = run_container_on_network w tag port network name log in
        (id : String) × (started log' ≡ add_if (is_run r) id (started log))
        × (stopped log' ≡ stopped log)
        × (returned_or' id r ≡ id)
  unfolding run_container_on_network started stopped
  run_on_network-starts tag port network name log =
      let c : Container = record {
        image = tag;
        port = port;
        publish = false;
        network = some network;
        name = name;
      } in
      let asked = create_container c ∷ remove_container name ∷ log in
      elim (Option-cases (w.created asked)) [
        | inl refused ↦
            ("", ground (arith, refused), ground (arith, refused), ground (arith, refused))
        | inr (id, made) ↦ (id, ground (arith, made), ground (arith, made), ground (arith, made))
      ]
