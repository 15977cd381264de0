-- ===== src/Telemetry/Service/Tests.antt =====
-- A stream with an error in it, and a snapshot of two GPUs. A sample is its GPU and a number.
use nemesis.Prelude.{
  ℕ, ◌<◌, List, [], ◌∷◌, some, String, Result, ok, err, ◌≡◌, ◌↔◌, arith, map, Mem, Distinct,
  and_then,
}
use nemesis.Graph.Petgraph.Lists.{list_graph}
use nemesis.Graph.Cluster.{to_proto}
use nemesis.Graph.Sample.{pair}
use nemesis.Telemetry.Store.{empty_store, ingest_all}
use nemesis.Telemetry.Service.{ClusterSnapshot, get_cluster_state}
use nemesis.Telemetry.Service.Snapshot.{newest, get_cluster_state_lem}

abbrev Sample : Type 0
Sample = String × ℕ

abbrev source : Sample → String
source x = x.0

abbrev items : List (Result Sample ℕ)
items = ok ("g0", 1) ∷ err 7 ∷ ok ("g1", 5) ∷ []

abbrev samples : List Sample
samples = ("g0", 1) ∷ ("g1", 5) ∷ ("g0", 2) ∷ []

abbrev slots : 0 < 2
slots = omega arith

get_cluster_state_lem_example :
    (snap : ClusterSnapshot ℕ Sample) × (and_then
        (ingest_all source 2 (empty_store source 2) samples)
        (λ s. get_cluster_state list_graph source 2 s pair 99)
      ≡ some snap)
    × (snap.topology ≡ to_proto list_graph pair)
    × (snap.taken_ns ≡ 99)
    × Distinct (map source snap.latest)
    × (Mem ("g0", 2) snap.latest ↔ (newest source 2 slots samples "g0" ≡ some ("g0", 2)))
get_cluster_state_lem_example =
    get_cluster_state_lem list_graph source 2 slots samples pair 99 ("g0", 2)
