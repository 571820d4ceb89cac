-- ===== src/Tests/Running.antt =====
-- The runner, run: a world in which Docker and the service answer as they should, and others.
use distributed_locking.Base.{
  ℕ, ◌+◌, ◌≡◌, ◌≢◌, refl, true, false, none, some, [], ◌∷◌, inl, inr, arith,
}
use distributed_locking.Format.Integers.{pos, negsuc, atoi}
use distributed_locking.Effects.{World, IsClock, Log, Effect, wait, parsed, output}
use distributed_locking.Bench.Scenario.{no_result}
use distributed_locking.Docker.Containers.{
  run_container, out_of_fuel, await_port, image_tag, replace_spaces, no_binding,
}
use distributed_locking.Docker.Containers.Ends
use distributed_locking.Runner.{Files, validate_solution, benchmark_solution}
use distributed_locking.Runner.Cleanup
use distributed_locking.Runner.Order
use distributed_locking.Runner.Main.{Command}
use distributed_locking.Runner.Main.Closing
use distributed_locking.Runner.Main.Judged

abbrev took : Effect → ℕ
took (wait d) = d
took e = 0

elapsed : Log → ℕ
elapsed [] = 0
elapsed (e ∷ log) = elapsed log + took e

abbrev world : World
world = record {
  manifest =
      λ log. parsed (record { name = "my lock"; port = pos 8080; startup_timeout_ms = pos 0 });
  built = λ log. output [] true;
  created = λ log. some "c1";
  is_started = λ log. true;
  host_ports = λ log. some ("32768" ∷ []);
  is_stopped = λ log. true;
  is_removed = λ log. true;
  is_cancelled = λ log. false;
  is_healthy = λ log. true;
  is_valid = λ log. true;
  scenario = λ log. some (no_result "sequential");
  network = λ log. some ("n1", "bench");
  is_connected = λ log. true;
  now = elapsed;
  to_lower = λ s. s;
}

world-IsClock : IsClock world
unfolding elapsed
world-IsClock = record { steady = λ e log. omega arith; waited = λ d log. omega arith }

-- a port is never published
abbrev no_port : World
no_port = record world { host_ports = λ log. some [] }

ports :
    (atoi "32768" ≡ some (pos 32768))
    × (atoi "-5" ≡ some (negsuc 4))
    × (atoi "+7" ≡ some (pos 7))
    × (atoi "" ≡ none)
    × (atoi "80/tcp" ≡ none)
unfolding atoi
ports = (refl, refl, refl, refl, refl)

tag_of : image_tag world "my lock" ≡ "dl-benchmark-my-lock"
unfolding image_tag replace_spaces
tag_of = refl

run_container_run : (run_container world "t" (pos 8080) []).0 ≡ inr ("c1", pos 32768)
unfolding run_container await_port atoi
run_container_run = refl

-- the deadline is passed, after 51 waits of 100 ms
no_port_run : (run_container no_port "t" (pos 8080) []).0 ≡ inl no_binding
unfolding run_container await_port elapsed
no_port_run = refl

run_container-ends_example : (run_container world "t" (pos 8080) []).0 ≢ inl out_of_fuel
run_container-ends_example = Ends.run_container-ends world world-IsClock "t" (pos 8080) []

abbrev files : Files
files = record { stat = λ path. some true; read_dir = λ path. some []; join = λ dir name. dir }

abbrev command : Command
command = record {
  args = "solutions" ∷ [];
  validate_only = false;
  warmup = 5000000000;
  duration = 15000000000;
  has_client = true;
  in_docker = true;
  hostname = "runner";
}

solutions-IsTidied_example :
    (let (f, log') = validate_solution world "dir" "" [] in Cleanup.IsTidied world f [] log')
    × (let (r, log') = benchmark_solution world "dir" 5 15 "" [] in
        Cleanup.IsTidied world (Cleanup.failure_of world r) [] log')
solutions-IsTidied_example = Cleanup.solutions-IsTidied world "dir" "" 5 15 []

benchmark_solution-IsOrdered_example :
    let (r, log') = benchmark_solution world "dir" 5 15 "bench" [] in
    Order.IsOrdered world r [] log'
benchmark_solution-IsOrdered_example =
    Order.benchmark_solution-IsOrdered world "dir" 5 15 "bench" []
