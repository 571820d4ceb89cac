-- ===== src/Docker/Containers.antt =====
-- The containers of benchmark/docker.go: how they are named, run and stopped.
pub mod Ends
pub mod Started
use Prim.Native.String.{◌++◌}
use Prim.Native.Char.{code}
use distributed_locking.Base.{
  ℕ, zero, suc, ◌+◌, String, Bool, true, false, not, Option, none, some, List, [], ◌∷◌, ◌⊎◌, inl,
  inr, ltb, nat_eq, ◌==◌, if◌then◌else◌,
}
use distributed_locking.Format.Integers.{ℤ, atoi}
use distributed_locking.Effects.{
  Container, create_container, start_container, inspect_container, stop_container, remove_container,
  wait, Log, World, BuildMessage, BuildReply, no_tarball, refused, output, build_image,
}

-- `strings.ReplaceAll(slug, " ", "-")`
unfoldable pub replace_spaces : String → String
replace_spaces String.[] = ""
replace_spaces (String.◌∷◌ c s) =
    if nat_eq (code c) b' ' then "-" ++ replace_spaces s else String.◌∷◌ c (replace_spaces s)

pub data RunError : Type 0 where
  create_failed : RunError
  start_failed : RunError
  inspect_failed : RunError
  bad_port : RunError
  no_binding : RunError
  cancelled : RunError
  out_of_fuel : RunError  -- no return of the code

pub data StopError : Type 0 where
  stop_failed : StopError
  remove_failed : StopError

abbrev pub port_deadline : ℕ
port_deadline = 5000000000

abbrev pub port_delay : ℕ
port_delay = 100000000

-- Each round waits at least the delay, so this many pass the deadline.
abbrev pub port_rounds : ℕ
port_rounds = 52

pub data BuildError : Type 0 where
  tarball_failed : BuildError
  build_refused : BuildError
  reading_failed : BuildError
  docker_error : String → String → BuildError

-- the loop of `BuildImage`, with the text of the build log so far
unfoldable pub read_output : String → List BuildMessage → Bool → Option BuildError
read_output build_log [] ends = if ends then none else some reading_failed
read_output build_log (msg ∷ rest) ends =
    let build_log' = build_log ++ msg.stream in
    if msg.error == ""
    then read_output build_log' rest ends
    else some (docker_error msg.error build_log')

module _ (w : World) where
  unfoldable pub build : String → String → Log → Option BuildError × Log
  unfolding read_output
  build dir tag log =
      let asked = build_image dir tag ∷ log in
      elim (w.built asked) [
        | no_tarball ↦ (some tarball_failed, asked)
        | refused ↦ (some build_refused, asked)
        | output msgs ends ↦ (read_output "" msgs ends, asked)
      ]

  unfoldable pub image_tag : String → String
  unfolding replace_spaces
  image_tag name = "dl-benchmark-" ++ replace_spaces (w.to_lower name)

  unfoldable pub container_name : String → String
  unfolding replace_spaces
  container_name name = "dl-bench-" ++ replace_spaces (w.to_lower name)

  -- the loop that reads the port
  unfoldable pub await_port : ℕ → String → ℕ → Log → (RunError ⊎ (String × ℤ)) × Log
  await_port zero id deadline log = (inl out_of_fuel, log)
  await_port (suc fuel) id deadline log =
      let seen = inspect_container id ∷ log in
      let slept = wait port_delay ∷ seen in
      let rest = await_port fuel id deadline slept in
      elim (w.host_ports seen) [
        | none ↦ (inl inspect_failed, seen)
        | some (b ∷ bindings) ↦ elim (atoi b) [
          | none ↦ (inl bad_port, seen)
          | some host_port ↦ (inr (id, host_port), seen)
        ]
        | some [] ↦
            if ltb deadline (w.now seen)
            then (inl no_binding, seen)
            else if w.is_cancelled slept
            then (inl cancelled, slept)
            else rest
      ]

  unfoldable pub run_container : String → ℤ → Log → (RunError ⊎ (String × ℤ)) × Log
  unfolding await_port
  run_container tag container_port log =
      let c : Container = record {
        image = tag;
        port = container_port;
        publish = true;
        network = none;
        name = "";
      } in
      let asked = create_container c ∷ log in
      elim (w.created asked) [
        | none ↦ (inl create_failed, asked)
        | some id ↦
            let run = start_container id ∷ asked in
            if not (w.is_started run)
            then (inl start_failed, run)
            else await_port port_rounds id (w.now run + port_deadline) run
      ]

  unfoldable pub run_container_on_network :
      String → ℤ → String → String → Log → (RunError ⊎ String) × Log
  run_container_on_network tag container_port network name log =
      let c : Container = record {
        image = tag;
        port = container_port;
        publish = false;
        network = some network;
        name = name;
      } in
      let asked = create_container c ∷ remove_container name ∷ log in
      elim (w.created asked) [
        | none ↦ (inl create_failed, asked)
        | some id ↦
            let run = start_container id ∷ asked in
            if not (w.is_started run) then (inl start_failed, run) else (inr id, run)
      ]

  unfoldable pub stop : String → Log → Option StopError × Log
  stop id log =
      let asked = stop_container id ∷ log in
      let removed = remove_container id ∷ asked in
      if not (w.is_stopped asked)
      then (some stop_failed, asked)
      else if not (w.is_removed removed)
      then (some remove_failed, removed)
      else (none, removed)
