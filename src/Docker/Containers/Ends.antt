-- ===== src/Docker/Containers/Ends.antt =====
-- `RunContainer` returns: every round of the loop that reads the port waits at least 100 ms, and the
-- deadline is 5 s away.
use distributed_locking.Base.{
  ℕ, zero, suc, ◌+◌, ◌*◌, ◌<◌, ◌≡◌, ◌≢◌, sym, ◌∙◌, ap, Option-cases, String, Bool, true, false,
  none, ◌∷◌, ◌⊎◌, inl, inr, lt→ltb, arith,
}
use distributed_locking.Format.Integers.{ℤ}
use distributed_locking.Effects.{
  World, IsClock, Log, wait, inspect_container, create_container, start_container, Container,
}
use distributed_locking.Docker.Containers.{
  RunError, out_of_fuel, await_port, run_container, port_delay, port_deadline,
}

abbrev is_out : RunError ⊎ (String × ℤ) → Bool
is_out (inl out_of_fuel) = true
is_out _ = false

module _ (w : World) (clock : IsClock w) where
  await_port-ends :
      (fuel : ℕ) (id : String) (deadline : ℕ) (log : Log)
      → deadline < w.now log + fuel * port_delay
      → is_out (await_port w (suc fuel) id deadline log).0 ≡ false
  unfolding await_port
  await_port-ends zero id deadline log h =
      let past =
        lt→ltb deadline (w.now (inspect_container id ∷ log))
          (omega (arith, h, clock.steady (inspect_container id) log)) in
      ground (arith, past)
  await_port-ends (suc fuel) id deadline log h =
      let seen = inspect_container id ∷ log in
      let rest =
        await_port-ends fuel id deadline (wait port_delay ∷ seen) (
          omega
            (arith, h, clock.steady (inspect_container id) log, clock.waited port_delay seen)) in
      ground (arith, rest)

  run_container-is_out :
      (tag : String) (container_port : ℤ) (log : Log)
      → is_out (run_container w tag container_port log).0 ≡ false
  unfolding run_container
  run_container-is_out tag container_port log =
      let c : Container = record {
        image = tag;
        port = container_port;
        publish = true;
        network = none;
        name = "";
      } in
      let asked = create_container c ∷ log in
      elim (Option-cases (w.created asked)) [
        | inl refused ↦ ground (arith, refused)
        | inr (id, made) ↦
            let run = start_container id ∷ asked in
            let ended = await_port-ends 51 id (w.now run + port_deadline) run (omega arith) in
            ground (arith, made, ended)
      ]

  -- Where the clock is monotonic and `time.After` keeps its promise, `RunContainer` returns: the rounds
  -- that it has are enough, however late Docker publishes the port.
  pub run_container-ends :
      (tag : String) (container_port : ℤ) (log : Log)
      → (run_container w tag container_port log).0 ≢ inl out_of_fuel
  run_container-ends tag container_port log e =
      let no : false ≡ true = sym (run_container-is_out tag container_port log) ∙ ap is_out e in cc
