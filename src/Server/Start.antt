-- ===== src/Server/Start.antt =====
-- What the two binaries make of their arguments, and the servers as they start them. Files and the
-- parser of YAML are arguments; logging and the sockets are left out.
use nemesis.Prelude.{
  ℕ, List, [], ◌∷◌, ◌++◌, Option, none, some, Bool, false, ◌&&◌, Result, ok, err, String, Text,
  codes, text_eq, if◌then◌else◌, All, first, ◌≡◌, refl, ◌<◌, ◌^◌, decimal, parse_unsigned,
  parse_unsigned-decimal, text_eq_refl,
}
use nemesis.Topology.Service.{initial}
use nemesis.Graph.Petgraph.{UnGraph}
use nemesis.Graph.Cluster.{GpuNode, Link, new}
use nemesis.Telemetry.Store.{empty_store}
use nemesis.Telemetry.Bus.{Broadcast, new_bus}
use nemesis.Nccl.Sim.{as_u32}
use nemesis.Nccl.Healer.{new_sim}
use nemesis.Simulator.Cluster.{SimConfig, SimCluster, ConfigError, from_config}
use nemesis.Server.{Server}

-- `std::env::args().skip_while(|a| a != flag).nth(1)`.
unfoldable pub argument : Text → List Text → Option Text
argument flag [] = none
argument flag (a ∷ args) = if text_eq a flag then first args else argument flag args

-- The port of `nemesis-substrate`; an `err` is the text that is no port.
unfoldable pub port_of : List Text → Result ℕ Text
unfolding argument
port_of args = elim (argument (codes "--port") args) [
  | none ↦ ok 50051
  | some s ↦ elim (parse_unsigned 16 s) [ none ↦ err s | some p ↦ ok p ]
]

-- Why the simulator has no configuration: the file, and the error of reading or of parsing it.
pub data FileError : Type 0 where
  unreadable : Text → Text → FileError
  malformed : Text → Text → FileError

-- `read` is that of files, `from_str` the parser of YAML.
unfoldable pub load_config :
    {F D : Type 0}
    → (Text → Result Text Text)
    → (Text → Result (SimConfig F D) Text)
    → SimConfig F D
    → List Text
    → Result (SimConfig F D) FileError
unfolding argument
load_config read from_str default args = elim (argument (codes "--config") args) [
  | none ↦ ok default
  | some p ↦ elim (read p) [
    | err e ↦ err (unreadable p e)
    | ok content ↦ elim (from_str content) [ err e ↦ err (malformed p e) | ok cfg ↦ ok cfg ]
  ]
]

pub data StartError : Type 0 where
  bad_time_scale : StartError
  bad_cluster : ConfigError → StartError

module _ {F G A E B R : Type 0} (lib : UnGraph GpuNode (Link F) G) (channels : Broadcast E B R)
    (gpu_id : A → String) (W : ℕ) where
  -- `main` of `nemesis-substrate`.
  unfoldable pub start_substrate : Server G A B
  unfolding new
  start_substrate = record {
    graph = new lib;
    store = empty_store gpu_id W;
    bus = new_bus channels;
    scheduler = initial;
    healer = new_sim 8 0;
  }

  -- `main` of `nemesis-sim`, over the cluster that it built.
  unfoldable pub serve_cluster : {D : Type 0} → SimConfig F D → SimCluster F G → Server G A B
  serve_cluster cfg sim = record {
    graph = sim.graph;
    store = empty_store gpu_id W;
    bus = new_bus channels;
    scheduler = initial;
    healer = new_sim (as_u32 cfg.cluster.gpu_count) cfg.seed;
  }

  -- `positive` and `is_finite` are the tests on the `f64`; `none` is a panic.
  unfoldable pub start_simulator :
      {D : Type 0}
      → (positive is_finite : D → Bool) → (ℕ → F)
      → SimConfig F D
      → Option (Result (Server G A B) StartError)
  unfolding from_config serve_cluster
  start_simulator positive is_finite gbps cfg =
      if positive cfg.time_scale && is_finite cfg.time_scale
      then elim (from_config lib gbps cfg) [
        | none ↦ none
        | some (err e) ↦ some (err (bad_cluster e))
        | some (ok sim) ↦ some (ok (serve_cluster cfg sim))
      ]
      else some (err bad_time_scale)

argument_lem :
    (flag value : Text) (before rest : List Text)
    → All (λ a. text_eq a flag ≡ false) before
    → argument flag (before ++ (flag ∷ value ∷ rest)) ≡ some value
unfolding argument
argument_lem flag value [] rest others = rw (text_eq_refl flag) refl
argument_lem flag value (a ∷ before) rest others =
    rw (argument, others.0) (argument_lem flag value before rest others.1)

-- The port is the number behind the first `--port`, if that number is below 2^16.
pub port_of_lem :
    (before rest : List Text) (port : ℕ)
    → All (λ a. text_eq a (codes "--port") ≡ false) before
    → port < 2 ^ 16
    → port_of (before ++ (codes "--port" ∷ decimal port ∷ rest)) ≡ ok port
unfolding port_of
port_of_lem before rest port others small =
    rw
      (
        port_of,
        argument_lem (codes "--port") (decimal port) before rest others,
        parse_unsigned-decimal 16 port small,
      )
      refl
