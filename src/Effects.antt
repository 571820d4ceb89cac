-- ===== src/Effects.antt =====
-- What the benchmark does to the world around it: a log of the calls that it makes of the file system,
-- of the Docker client, of a service under test, and of its waits. What comes back of a call is read
-- off a `World`, which may depend on everything done before.
use distributed_locking.Base.{ℕ, ◌+◌, ◌≤◌, String, Bool, Option, List, ◌∷◌}
use distributed_locking.Format.Integers.{ℤ}
use distributed_locking.Bench.Keys.{ScenarioCfg}
use distributed_locking.Bench.Scenario.{ScenarioResult}

-- `SolutionManifest`, less the description
pub record Manifest : Type 0 where
  pub name : String
  pub port : ℤ
  pub startup_timeout_ms : ℤ

pub data ManifestFile : Type 0 where
  unreadable : ManifestFile
  unparsable : ManifestFile
  parsed : Manifest → ManifestFile

-- one message of the build's output
pub record BuildMessage : Type 0 where
  pub stream : String
  pub error : String

-- `output` has the messages up to the end of the stream, or to what is no message (`false`).
pub data BuildReply : Type 0 where
  no_tarball : BuildReply
  refused : BuildReply
  output : List BuildMessage → Bool → BuildReply

-- what a container is created from: `publish` is whether its port is bound on 127.0.0.1
pub record Container : Type 0 where
  pub image : String
  pub port : ℤ
  pub publish : Bool
  pub network : Option String
  pub name : String

pub data Effect : Type 0 where
  read_manifest : String → Effect
  build_image : String → String → Effect
  create_container : Container → Effect
  start_container : String → Effect
  inspect_container : String → Effect
  stop_container : String → Effect
  remove_container : String → Effect
  wait : ℕ → Effect
  wait_healthy : String → ℤ → Effect
  validate_spec : String → Effect
  run_scenario : String → ScenarioCfg → ℕ → ℕ → Effect  -- warm-up and duration
  run_list_heavy : String → ℕ → ℕ → Effect
  create_network : Effect
  connect_self : String → Effect
  remove_network : String → Effect

-- the last effect first
abbrev pub Log : Type 0
Log = List Effect

-- The replies, each to the effect at the head of a log.
pub record World : Type 0 where
  pub manifest : Log → ManifestFile
  pub built : Log → BuildReply
  pub created : Log → Option String
  pub is_started : Log → Bool
  pub host_ports : Log → Option (List String)
  pub is_stopped : Log → Bool
  pub is_removed : Log → Bool
  pub is_cancelled : Log → Bool
  pub is_healthy : Log → Bool
  pub is_valid : Log → Bool
  pub scenario : Log → Option ScenarioResult
  pub network : Log → Option (String × String)
  pub is_connected : Log → Bool
  pub now : Log → ℕ
  pub to_lower : String → String  -- `strings.ToLower`, by Go's tables of Unicode

-- `time.Now` does not go back, and `time.After(d)` takes at least `d`.
pub record IsClock (w : World) : Type 0 where
  pub steady : (e : Effect) (log : Log) → w.now log ≤ w.now (e ∷ log)
  pub waited : (d : ℕ) (log : Log) → w.now log + d ≤ w.now (wait d ∷ log)
