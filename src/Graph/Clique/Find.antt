-- ===== src/Graph/Clique/Find.antt =====
-- What `find_nvlink_clique` returns and when it returns nothing.
use nemesis.Prelude.{
  ℕ, Bool, true, List, [], none, some, String, ◌≡◌, map, All, Pairs, Sub, length, length-Sub,
  All-filter_by, All-Sub, Sub-filter_by, Sub-filter_by_of_All, arith, Bool-cases, Option-cases, inl,
  inr, ltb, ltb→lt, Sub-trans,
}
use nemesis.Graph.Petgraph.{UnGraph}
use nemesis.Graph.Cluster.{GpuNode, Link, ClusterGraph, gpu_id_at, healthy_at, candidates}
use nemesis.Graph.Clique.{clique_search, has_nvlink_edge, find_nvlink_clique}
use nemesis.Graph.Clique.Linked.{
  Pairs-map, NvlinkEdge, has_nvlink_edge_sound, has_nvlink_edge_complete,
}
use nemesis.Graph.Clique.Search.{clique_search_sound, clique_search_complete}

module _ {F G : Type 0} (lib : UnGraph GpuNode (Link F) G) (ge : F → F → Bool) where
  open lib use {node_indices}

  -- Healthy nodes, `size` of them, each two joined by an NVLink edge of the bandwidth.
  pub record IsNvlinkClique (c : ClusterGraph G) (size : ℕ) (min_bw : F) (nodes : List ℕ)
      : Type 0 where
    pub among : Sub nodes (node_indices c.graph)
    pub healthy : All (λ i. healthy_at lib c.graph i ≡ true) nodes
    pub count : length nodes ≡ size
    pub linked : Pairs (NvlinkEdge lib ge c.graph min_bw) nodes

  module _ (c : ClusterGraph G) (size : ℕ) (min_bw : F) where
    abbrev cs : List ℕ
    cs = candidates lib c

    abbrev edge : ℕ → ℕ → Bool
    edge = has_nvlink_edge lib ge c.graph min_bw

    -- The ids returned are those of healthy nodes of the graph, `size` of them, each two joined by
    -- an NVLink edge of at least the bandwidth.
    pub find_nvlink_clique_sound :
        (ids : List String)
        → find_nvlink_clique lib ge c size min_bw ≡ some ids
        → (nodes : List ℕ) × IsNvlinkClique c size min_bw nodes
          × (ids ≡ map (gpu_id_at lib c.graph) nodes)
    unfolding find_nvlink_clique
    find_nvlink_clique_sound ids h = elim (Bool-cases (ltb (length cs) size)) [
      | inl few ↦ cc (rw few at h)
      | inr enough ↦ elim (Option-cases (clique_search edge size cs [])) [
        | inl failed ↦ cc (rw (enough, failed) at h)
        | inr (nodes, found) ↦
            let among : Sub cs (node_indices c.graph) =
              unfold candidates in Sub-filter_by (healthy_at lib c.graph) (node_indices c.graph) in
            let well : All (λ i. healthy_at lib c.graph i ≡ true) cs =
              unfold candidates in All-filter_by (healthy_at lib c.graph) (node_indices c.graph) in
            let (sub, n, clique) = clique_search_sound edge size cs nodes found in
            (
              nodes,
              record {
                among = Sub-trans among sub;
                healthy = All-Sub _ sub well;
                count = n;
                linked =
                    Pairs-map (λ a b. edge a b ≡ true) (NvlinkEdge lib ge c.graph min_bw) nodes
                      (has_nvlink_edge_sound lib ge c.graph min_bw) clique;
              },
              cc (rw (enough, found) at h),
            )
      ]
    ]

    -- Where nothing is returned, no `size` healthy nodes of the graph, in the graph's order, are
    -- each two joined by an NVLink edge of at least the bandwidth.
    pub find_nvlink_clique_complete :
        (nodes : List ℕ)
        → find_nvlink_clique lib ge c size min_bw ≡ none
        → ¬ IsNvlinkClique c size min_bw nodes
    unfolding find_nvlink_clique
    find_nvlink_clique_complete nodes h clique =
        let sub : Sub nodes cs =
          unfold candidates in
          Sub-filter_by_of_All (healthy_at lib c.graph) clique.among clique.healthy in
        elim (Bool-cases (ltb (length cs) size)) [
          | inl few ↦ omega (arith, ltb→lt (length cs) size few, length-Sub sub, clique.count)
          | inr enough ↦ elim (Option-cases (clique_search edge size cs [])) [
            | inl failed ↦ clique_search_complete edge size cs nodes failed sub clique.count (
                Pairs-map (NvlinkEdge lib ge c.graph min_bw) (λ a b. edge a b ≡ true) nodes
                  (has_nvlink_edge_complete lib ge c.graph min_bw) clique.linked)
            | inr (r, found) ↦ cc (rw (enough, found) at h)
          ]
        ]
