-- ===== src/Simulator/Tests.antt =====
-- A simulated cluster of three GPUs in a chain, and the time of an event.
use nemesis.Graph.Petgraph.{EdgeRef}
use nemesis.Prelude.{
  get, true, ℕ, ◌≡◌, refl, [], ◌∷◌, none, some, ok, codes, decimal, Distinct, arith, map, and_then,
  min, inl, inr, ◌+◌, ◌*◌, ◌/◌, ◌%◌, String,
}
use nemesis.Graph.Petgraph.Lists.{ListGraph, list_graph}
use nemesis.Graph.Cluster.{GpuNode, Link, nv_link, new}
use mathlib.Core.Option
use nemesis.Telemetry.Ring.Refine.{last_n}
use nemesis.Telemetry.Store.{empty_store, gpu_window, ingest_all}
use nemesis.Simulator.Metrics.{rounds, id_of, time_of, ticks, rounds-window}
use nemesis.Simulator.Scenario.{TimelineEvent, t_seconds, t_seconds_lem}
use nemesis.Simulator.Cluster.{
  SimConfig, SimCluster, default_config, ib_chain, gpu_name, names_from, neighbours, all_pairs,
  from_config, Floats,
}
use nemesis.Simulator.Cluster.Names.{names_from-Distinct}

abbrev chain : SimConfig ℕ ℕ
chain =
    let standard : SimConfig ℕ ℕ = default_config (λ n. n) 1 in
    record standard { cluster = record standard.cluster { gpu_count = 3; topology = ib_chain } }

chain_names : names_from 9 3 ≡ "gpu-9" ∷ "gpu-10" ∷ "gpu-11" ∷ []
unfolding gpu_name decimal
chain_names = refl

chain_links : neighbours ("a" ∷ "b" ∷ "c" ∷ []) ≡ ("a", "b") ∷ ("b", "c") ∷ []
chain_links = refl

mesh_links : all_pairs ("a" ∷ "b" ∷ "c" ∷ []) ≡ ("a", "b") ∷ ("a", "c") ∷ ("b", "c") ∷ []
mesh_links = refl

abbrev event : TimelineEvent ℕ
event = record { t = codes "30s"; gpu = none; action = codes "throttle"; rate = none }

event_time : t_seconds event ≡ some 30
unfolding decimal
event_time = t_seconds_lem event 30 1 (omega arith) refl

-- A simulator of two GPUs, whose numbers are hundredths.
abbrev hundredths : Floats ℕ
hundredths = record {
  hundredths = λ n. n;
  plus = λ a b. a + b;
  times = λ a b. a * b / 100;
  jitter = λ seed. seed % 3;
}

abbrev pair : SimCluster ℕ (ListGraph GpuNode (Link ℕ))
pair = record {
  graph = new list_graph;
  gpu_ids = "gpu-0" ∷ "gpu-1" ∷ [];
  config = chain.cluster;
  seed = 42;
}

pair-Distinct : Distinct pair.gpu_ids
unfolding gpu_name decimal
pair-Distinct = names_from-Distinct 0 2

rounds-window_example :
    Option.map (map time_of) (
      and_then
        (ingest_all id_of 4 (empty_store id_of 4) (rounds hundredths 5 pair 0))
        (λ s. gpu_window id_of 4 s "gpu-1" 2))
    ≡ some (last_n (min 2 4) (ticks 5 0))
rounds-window_example =
    rounds-window hundredths 4 5 pair 0 "gpu-1" 2 (omega arith) pair-Distinct (inr (inl refl))

-- Three GPUs, each two of them joined by NVLink at 600 GB/s.
abbrev full : SimConfig ℕ ℕ
full =
    let standard : SimConfig ℕ ℕ = default_config (λ n. n) 1 in
    record standard { cluster = record standard.cluster { gpu_count = 3 } }

abbrev gpu : String → GpuNode
gpu id = record { gpu_id = id; node_id = "node-0"; numa_domain = 0; healthy = true }

abbrev nvlink : ℕ → ℕ → EdgeRef (Link ℕ)
nvlink a b = record {
  source = a;
  target = b;
  weight = record { kind = nv_link; bandwidth_gbps = 600; ib_hop_count = 0 };
}

abbrev full_sim : SimCluster ℕ (ListGraph GpuNode (Link ℕ))
full_sim = record {
  graph = record {
    graph = record {
      nodes = gpu "gpu-0" ∷ gpu "gpu-1" ∷ gpu "gpu-2" ∷ [];
      links = nvlink 0 1 ∷ nvlink 0 2 ∷ nvlink 1 2 ∷ [];
    };
    id_index = ("gpu-2", 2) ∷ ("gpu-1", 1) ∷ ("gpu-0", 0) ∷ [];
  };
  gpu_ids = "gpu-0" ∷ "gpu-1" ∷ "gpu-2" ∷ [];
  config = full.cluster;
  seed = 42;
}

full_sim-built : from_config list_graph (λ n. n) full ≡ some (ok full_sim)
unfolding from_config gpu_name decimal new get
full_sim-built = refl
