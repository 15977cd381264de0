-- ===== src/Server.antt =====
-- The server of substrate/crates/nemesis-substrate/src/main.rs and of the simulator,
-- sim/crates/nemesis-sim/src/main.rs: the three services over one graph, one store of samples and
-- one back end, and the calls that reach them. An item of an `ingest_metrics` stream is a call of
-- its own; so is a sample of the simulator's task. `none` is a panic, of an
-- index out of a ring's range or, where the build has overflow checks, of a product of degrees.
pub mod Start
pub mod Safe
pub mod Empty
pub mod Placed
mod Tests
use mathlib.Core.Option
use nemesis.Prelude.{
  ℕ, Bool, ◌&&◌, if◌then◌else◌, List, [], ◌∷◌, Option, none, some, String, Result, Text, and_then,
}
use nemesis.Topology.RustStd.{RustStd}
use nemesis.Topology.Service.{
  JobSpec, DslError, ValidationResult, Placement, ServiceState, validate, schedule, counts_overflow,
  release, get_topology,
}
use nemesis.Graph.Petgraph.{UnGraph}
use nemesis.Graph.Cluster.{GpuNode, Link, ClusterGraph, ClusterTopology}
use nemesis.Telemetry.Store.{TelemetryStore, ingest}
use nemesis.Telemetry.Service.{ClusterSnapshot, get_cluster_state}
use nemesis.Telemetry.Bus.{Broadcast, EventFilter, publish_event, subscribe_events}
use nemesis.Nccl.Backend.{ShrinkRequest, ExpandRequest, ShrinkMetrics, ExpandMetrics}
use nemesis.Nccl.Sim.{SimState, sim_backend}
use nemesis.Nccl.Healer.{HealerService, register_job, shrink_communicator, expand_communicator}
use nemesis.Nccl.Healer.Playbook.{Params, PlaybookDef, LoadError, PlaybookResult, execute_playbook}

-- `store` and `bus` are the two parts of a `TelemetryStore`.
pub record Server (G A B : Type 0) : Type 0 where
  pub graph : ClusterGraph G
  pub store : TelemetryStore A
  pub bus : B
  pub scheduler : ServiceState
  pub healer : HealerService SimState

-- The calls of the three services. What they read of the clock, of the random ids and of the
-- directory of playbooks is part of them.
pub data Call (A E : Type 0) : Type 0 where
  ingest_call : A → Call A E
  publish_call : E → Call A E
  subscribe_call : EventFilter → Call A E
  snapshot_call : ℕ → Call A E
  validate_call : JobSpec → Call A E
  topology_call : Call A E
  schedule_call : JobSpec → Call A E
  release_call : String → Call A E
  register_call : Text → Text → ℕ → Call A E
  shrink_call : ShrinkRequest → Call A E
  expand_call : ExpandRequest → Call A E
  playbook_call : Result PlaybookDef LoadError → Params → ℕ → Call A E

pub data Answer (F A R : Type 0) : Type 0 where
  acknowledged : Answer F A R
  stream : R → Answer F A R
  snapshot : ClusterSnapshot F A → Answer F A R
  validation : ValidationResult F → Answer F A R
  topology : ClusterTopology F → Answer F A R
  placement : Result (Placement F) (DslError F) → Answer F A R
  registered : Text → Answer F A R
  shrunk : Result ShrinkMetrics Text → Answer F A R
  expanded : Result ExpandMetrics Text → Answer F A R
  played : PlaybookResult → Answer F A R

module _ {F G A E B R : Type 0} (std : RustStd F) (lib : UnGraph GpuNode (Link F) G)
    (channels : Broadcast E B R) (gpu_id : A → String) (W : ℕ) (overflow_checks : Bool) where
  unfoldable pub serve : Server G A B → Call A E → Option (Answer F A R × Server G A B)
  unfolding ingest publish_event subscribe_events get_cluster_state validate get_topology schedule
      release register_job shrink_communicator expand_communicator execute_playbook
  serve s (ingest_call sample) =
      Option.map (λ store. (acknowledged, record s { store = store }))
        (ingest gpu_id W s.store sample)
  serve s (publish_call event) =
      some (acknowledged, record s { bus = publish_event channels s.bus event })
  serve s (subscribe_call filter) =
      let (bus, receiver) = subscribe_events channels s.bus filter in
      some (stream receiver, record s { bus = bus })
  serve s (snapshot_call now) =
      Option.map (λ snap. (snapshot snap, s)) (get_cluster_state lib gpu_id W s.store s.graph now)
  serve s (validate_call job) =
      if overflow_checks && counts_overflow std job
      then none
      else some (validation (validate std job), s)
  serve s topology_call = some (topology (get_topology std lib s.graph), s)
  serve s (schedule_call job) =
      let (answer, scheduler) = schedule std lib s.graph s.scheduler job in
      if overflow_checks && counts_overflow std job
      then none
      else some (placement answer, record s { scheduler = scheduler })
  serve s (release_call job_id) =
      some (acknowledged, record s { scheduler = release s.scheduler job_id })
  serve s (register_call comm_id job_id world_size) =
      let (id, healer) = register_job s.healer comm_id job_id world_size in
      some (registered id, record s { healer = healer })
  serve s (shrink_call req) =
      let (metrics, healer) = shrink_communicator sim_backend s.healer req in
      some (shrunk metrics, record s { healer = healer })
  serve s (expand_call req) =
      let (metrics, healer) = expand_communicator sim_backend s.healer req in
      some (expanded metrics, record s { healer = healer })
  serve s (playbook_call loaded parameters elapsed_ns) =
      let (result, healer) =
        execute_playbook sim_backend (λ e. e) s.healer loaded parameters elapsed_ns in
      some (played result, record s { healer = healer })

  -- Calls one after another, with their answers in order.
  unfoldable pub run : Server G A B → List (Call A E) → Option (List (Answer F A R) × Server G A B)
  unfolding serve
  run s [] = some ([], s)
  run s (call ∷ calls) =
      and_then (serve s call) λ r. Option.map (λ q. (r.0 ∷ q.0, q.1)) (run r.1 calls)
