-- ===== src/Graph/Cluster.antt =====
-- `ClusterGraph` and its operations. `ge` is `>=` on `f32`, and `none` is a panic wherever an
-- operation may panic. The map `id_index` is an association list.
pub mod Index
pub mod Distinct
use text.Mathlib.Text.{◌==◌ as str_eq}
use nemesis.Prelude.{
  and_then, first, is_some, get, ℕ, String, Bool, true, false, List, [], ◌∷◌, Option, none, some,
  if◌then◌else◌, map, filter_by,
}
use nemesis.Graph.Petgraph.{UnGraph, EdgeRef}

pub data LinkKind : Type 0 where
  nv_link pcie infini_band : LinkKind

pub record GpuNode : Type 0 where
  pub gpu_id : String
  pub node_id : String
  pub numa_domain : ℕ
  pub healthy : Bool

pub record Link (F : Type 0) : Type 0 where
  pub kind : LinkKind
  pub bandwidth_gbps : F
  pub ib_hop_count : ℕ

pub record ClusterGraph (G : Type 0) : Type 0 where
  pub graph : G
  pub id_index : List (String × ℕ)

-- The messages of the protobuf schema.
pub record ProtoLink (F : Type 0) : Type 0 where
  pub src : String
  pub dst : String
  pub kind : ℕ
  pub bandwidth_gbps : F
  pub ib_hop_count : ℕ

pub record ClusterTopology (F : Type 0) : Type 0 where
  pub nodes : List GpuNode
  pub edges : List (ProtoLink F)

abbrev pub kind_number : LinkKind → ℕ
kind_number nv_link = 0
kind_number pcie = 1
kind_number infini_band = 2

module _ {F G : Type 0} (lib : UnGraph GpuNode (Link F) G) where
  open lib use {
    new_undirected, add_node, add_edge, node_weight, set_node_weight, node_indices, edge_references,
    edges_connecting, node_count,
  }

  unfoldable pub new : ClusterGraph G
  new = record { graph = new_undirected; id_index = [] }

  unfoldable pub contains_gpu : ClusterGraph G → String → Bool
  unfolding get
  contains_gpu c gpu_id = is_some (get gpu_id c.id_index)

  unfoldable pub gpu_count : ClusterGraph G → ℕ
  gpu_count c = node_count c.graph

  -- `none` is the failed assertion. The key is new, so that it may be put in front.
  unfoldable pub add_gpu : ClusterGraph G → String → String → ℕ → Option (ClusterGraph G)
  unfolding contains_gpu
  add_gpu c gpu_id node_id numa_domain =
      let node : GpuNode = record {
        gpu_id = gpu_id;
        node_id = node_id;
        numa_domain = numa_domain;
        healthy = true;
      } in
      let (graph, idx) = add_node c.graph node in
      if contains_gpu c gpu_id
      then none
      else some (record { graph = graph; id_index = (gpu_id, idx) ∷ c.id_index })

  -- `none` for an unknown end.
  unfoldable pub add_link :
      ClusterGraph G → String → String → LinkKind → F → ℕ → Option (ClusterGraph G)
  unfolding get
  add_link c src dst kind bandwidth hops = and_then (get src c.id_index) λ s.
      and_then (get dst c.id_index) λ d.
        and_then
          (add_edge c.graph s d
            (record { kind = kind; bandwidth_gbps = bandwidth; ib_hop_count = hops }))
          λ graph. some (record c { graph = graph })

  abbrev pub lower : G → ℕ → G
  lower graph idx = elim (node_weight graph idx) [
    | none ↦ graph
    | some n ↦ set_node_weight graph idx (record n { healthy = false })
  ]

  -- An index of the map is a node (`Index`), so that the write does not panic.
  unfoldable pub mark_unhealthy : ClusterGraph G → String → ClusterGraph G
  unfolding get
  mark_unhealthy c gpu_id = elim (get gpu_id c.id_index) [
    | none ↦ c
    | some idx ↦ record c { graph = lower c.graph idx }
  ]

  -- `graph[i].healthy` and `graph[i].gpu_id`, read at indices of the graph only.
  abbrev pub healthy_at : G → ℕ → Bool
  healthy_at g i = elim (node_weight g i) [ none ↦ false | some n ↦ n.healthy ]

  abbrev pub gpu_id_at : G → ℕ → String
  gpu_id_at g i = elim (node_weight g i) [ none ↦ "" | some n ↦ n.gpu_id ]

  unfoldable pub candidates : ClusterGraph G → List ℕ
  candidates c = filter_by (healthy_at c.graph) (node_indices c.graph)

  unfoldable pub healthy_gpu_ids : ClusterGraph G → List String
  unfolding candidates
  healthy_gpu_ids c = map (gpu_id_at c.graph) (candidates c)

  unfoldable pub link_bandwidth : ClusterGraph G → String → String → Option F
  unfolding get
  link_bandwidth c src dst = and_then (get src c.id_index) λ s.
      and_then (get dst c.id_index)
        λ d. and_then (first (edges_connecting c.graph s d)) λ e. some e.weight.bandwidth_gbps

  abbrev pub to_link : G → EdgeRef (Link F) → ProtoLink F
  to_link g e = record {
    src = gpu_id_at g e.source;
    dst = gpu_id_at g e.target;
    kind = kind_number e.weight.kind;
    bandwidth_gbps = e.weight.bandwidth_gbps;
    ib_hop_count = e.weight.ib_hop_count;
  }

  -- The nodes at their indices, in order.
  abbrev pub weights : G → List ℕ → List GpuNode
  weights g [] = []
  weights g (i ∷ is) = elim (node_weight g i) [ none ↦ weights g is | some n ↦ n ∷ weights g is ]

  unfoldable pub to_proto : ClusterGraph G → ClusterTopology F
  to_proto c = record {
    nodes = weights c.graph (node_indices c.graph);
    edges = map (to_link c.graph) (edge_references c.graph);
  }
