-- ===== src/Telemetry/Service.antt =====
-- substrate/crates/nemesis-telemetry/src/service.rs: what the calls of the telemetry service do
-- with the store and the graph. A stream is the list of its items; the clock is an argument.
-- Publishing and subscribing only pass through the bus, so that what a subscriber receives is an
-- argument too.
pub mod Stream
pub mod Snapshot
mod Tests
use mathlib.Core.Option
use nemesis.Prelude.{and_then, first, ℕ, List, [], ◌∷◌, Option, none, some, String, Result, ok, err}
use nemesis.Graph.Petgraph.{UnGraph}
use nemesis.Graph.Cluster.{GpuNode, Link, ClusterGraph, ClusterTopology, to_proto}
use nemesis.Telemetry.Store.{TelemetryStore, ingest, gpu_window, gpu_ids}

-- An item of a `BroadcastStream`: an event, or the number of events that a slow receiver missed.
pub data Received (E : Type 0) : Type 0 where
  event : E → Received E
  lagged : ℕ → Received E

-- `subscribe_events` behind the subscription.
unfoldable pub forward_events : {E : Type 0} → List (Received E) → List E
forward_events [] = []
forward_events (event e ∷ items) = e ∷ forward_events items
forward_events (lagged n ∷ items) = forward_events items

module _ {A : Type 0} (gpu_id : A → String) (W : ℕ) where
  -- `ingest_metrics`: the answers to the items of the stream, and the store behind them. `S` is
  -- the type of transport errors.
  unfoldable pub ingest_metrics :
      {S : Type 0}
      → TelemetryStore A
      → List (Result A S)
      → Option (List (Result (Unit {0}) S) × TelemetryStore A)
  ingest_metrics s [] = some ([], s)
  ingest_metrics s (ok sample ∷ items) =
      and_then (ingest gpu_id W s sample)
        λ s'. Option.map (λ r. (ok tt ∷ r.0, r.1)) (ingest_metrics s' items)
  ingest_metrics s (err status ∷ items) =
      Option.map (λ r. (err status ∷ r.0, r.1)) (ingest_metrics s items)

  abbrev pub cons_some : Option A → List A → List A
  cons_some none xs = xs
  cons_some (some x) xs = x ∷ xs

  -- The `filter_map` over the ids of `get_cluster_state`.
  unfoldable pub latest_of : TelemetryStore A → List String → Option (List A)
  latest_of s [] = some []
  latest_of s (id ∷ ids) =
      and_then (gpu_window gpu_id W s id 1) λ w. Option.map (cons_some (first w)) (latest_of s ids)

pub record ClusterSnapshot (F A : Type 0) : Type 0 where
  pub topology : ClusterTopology F
  pub latest : List A
  pub taken_ns : ℕ

module _ {F G A : Type 0} (lib : UnGraph GpuNode (Link F) G) (gpu_id : A → String) (W : ℕ) where
  unfoldable pub get_cluster_state :
      TelemetryStore A → ClusterGraph G → ℕ → Option (ClusterSnapshot F A)
  unfolding latest_of to_proto
  get_cluster_state s c now =
      Option.map (λ latest. record { topology = to_proto lib c; latest = latest; taken_ns = now })
        (latest_of gpu_id W s (gpu_ids gpu_id W s))
