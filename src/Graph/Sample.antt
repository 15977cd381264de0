-- ===== src/Graph/Sample.antt =====
-- A small cluster for the tests: two GPUs joined by an NVLink edge and an InfiniBand edge.
use nemesis.Prelude.{get, some, ◌≡◌, refl, ℕ, true, [], ◌∷◌, String, arith}
use nemesis.Graph.Petgraph.{EdgeRef}
use nemesis.Graph.Petgraph.Lists.{ListGraph, list_graph, list_graph-UnGraphLaws}
use nemesis.Graph.Cluster.Index.{IsIndexed, IsIndexed-new, add_gpu-IsIndexed}
use nemesis.Graph.Cluster.{
  nv_link, infini_band, GpuNode, Link, ClusterGraph, contains_gpu, new, add_gpu,
}

abbrev pub gpu : String → GpuNode
gpu id = record { gpu_id = id; node_id = "n0"; numa_domain = 0; healthy = true }

abbrev pub joined : Link ℕ → EdgeRef (Link ℕ)
joined link = record { source = 0; target = 1; weight = link }

abbrev pub pair : ClusterGraph (ListGraph GpuNode (Link ℕ))
pair = record {
  graph = record {
    nodes = gpu "g0" ∷ gpu "g1" ∷ [];
    links =
        joined (record { kind = nv_link; bandwidth_gbps = 900; ib_hop_count = 0 })
        ∷ joined (record { kind = infini_band; bandwidth_gbps = 50; ib_hop_count = 1 })
        ∷ [];
  };
  id_index = ("g1", 1) ∷ ("g0", 0) ∷ [];
}

abbrev pub Graph : Type 0
Graph = ClusterGraph (ListGraph GpuNode (Link ℕ))

abbrev pub one : Graph
one = record { graph = record { nodes = gpu "g0" ∷ []; links = [] }; id_index = ("g0", 0) ∷ [] }

abbrev pub two : Graph
two = record {
  graph = record { nodes = gpu "g0" ∷ gpu "g1" ∷ []; links = [] };
  id_index = ("g1", 1) ∷ ("g0", 0) ∷ [];
}

pub added_one : add_gpu list_graph (new list_graph) "g0" "n0" 0 ≡ some one
unfolding add_gpu contains_gpu get new
added_one = refl

pub added_two : add_gpu list_graph one "g1" "n0" 0 ≡ some two
unfolding add_gpu contains_gpu get
added_two = refl

pub two-IsIndexed : IsIndexed list_graph list_graph-UnGraphLaws two
unfolding new
two-IsIndexed =
    (add_gpu-IsIndexed list_graph list_graph-UnGraphLaws one "g1" "n0" 0 two
      (add_gpu-IsIndexed list_graph list_graph-UnGraphLaws (new list_graph) "g0" "n0" 0 one
        (IsIndexed-new list_graph list_graph-UnGraphLaws) (omega arith) added_one).0
      (omega arith) added_two).0

-- The links play no part.
pub pair-IsIndexed : IsIndexed list_graph list_graph-UnGraphLaws pair
pair-IsIndexed = record { entry = two-IsIndexed.entry; indexed = two-IsIndexed.indexed }
