-- ===== src/Graph/Clique.antt =====
-- `find_nvlink_clique` and the backtracking search behind it. The search returns the nodes of the
-- clique, and their ids are read off at the end.
pub mod Search
pub mod Linked
pub mod Find
use mathlib.Core.Option
use nemesis.Prelude.{
  ℕ, ◌+◌, Bool, true, false, ◌&&◌, List, [], ◌∷◌, ◌++◌, Option, none, some, String, if◌then◌else◌,
  map, any, all, ltb, ◌==◌, length,
}
use nemesis.Graph.Petgraph.{UnGraph, EdgeRef}
use nemesis.Graph.Cluster.{LinkKind, nv_link, GpuNode, Link, ClusterGraph, gpu_id_at, candidates}

module _ (linked : ℕ → ℕ → Bool) (target : ℕ) where
  -- What a call does before its loop, whose result is `rest`.
  unfoldable pub enter : List ℕ → List ℕ → Option (List ℕ) → Option (List ℕ)
  enter candidates current rest =
      if length current == target
      then some current
      else if ltb (length current + length candidates) target
      then none
      else rest

  -- The loop over the candidates: `inner` is the loop of the call one node deeper.
  unfoldable pub search_loop : List ℕ → List ℕ → Option (List ℕ)
  search_loop [] current = none
  search_loop (node ∷ rest) current =
      let inner = search_loop rest (current ++ node ∷ []) in
      let others = search_loop rest current in
      if all (λ c. linked c node) current
      then elim (enter rest (current ++ node ∷ []) inner) [
        | some result ↦ some result
        | none ↦ others
      ]
      else others

  unfoldable pub clique_search : List ℕ → List ℕ → Option (List ℕ)
  clique_search candidates current = enter candidates current (search_loop candidates current)

abbrev pub is_nv_link : LinkKind → Bool
is_nv_link nv_link = true
is_nv_link _ = false

module _ {F G : Type 0} (lib : UnGraph GpuNode (Link F) G) (ge : F → F → Bool) where
  -- The test on one edge between two nodes.
  abbrev pub qualifies : F → EdgeRef (Link F) → Bool
  qualifies min_bw e = is_nv_link e.weight.kind && ge e.weight.bandwidth_gbps min_bw

  unfoldable pub has_nvlink_edge : G → F → ℕ → ℕ → Bool
  has_nvlink_edge g min_bw a b = any (qualifies min_bw) (UnGraph.edges_connecting lib g a b)

  unfoldable pub find_nvlink_clique : ClusterGraph G → ℕ → F → Option (List String)
  unfolding clique_search has_nvlink_edge
  find_nvlink_clique c size min_bw =
      let cs = candidates lib c in
      if ltb (length cs) size
      then none
      else Option.map (map (gpu_id_at lib c.graph))
          (clique_search (has_nvlink_edge c.graph min_bw) size cs [])
