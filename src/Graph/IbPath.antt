-- ===== src/Graph/IbPath.antt =====
-- `find_ib_path` and the depth-first search behind it. A call takes the search one node deeper
-- and costs one unit of fuel; `Search` shows that the number of healthy nodes is enough.
pub mod Search
pub mod Find
use nemesis.Prelude.{
  ℕ, zero, suc, Bool, true, false, not, ◌&&◌, List, [], ◌∷◌, ◌++◌, Option, none, some, String,
  if◌then◌else◌, map, ltb, leb, ◌==◌, length, contains,
}
use nemesis.Graph.Petgraph.{UnGraph, EdgeRef}
use nemesis.Graph.Cluster.{
  LinkKind, infini_band, GpuNode, Link, ClusterGraph, gpu_id_at, healthy_at, candidates,
}

-- `Option` of the source, and the model's own outcome.
pub data Dfs (A : Type 0) : Type 0 where
  found : A → Dfs A
  absent out_of_fuel : Dfs A

abbrev pub is_infini_band : LinkKind → Bool
is_infini_band infini_band = true
is_infini_band _ = false

module _ {F : Type 0} where
  abbrev pub neighbour : ℕ → EdgeRef (Link F) → ℕ
  neighbour current e = if e.source == current then e.target else e.source

  abbrev pub in_reach : ℕ → EdgeRef (Link F) → Bool
  in_reach max_hops e = is_infini_band e.weight.kind && leb e.weight.ib_hop_count max_hops

  module _ (healthy : ℕ → Bool) (max_hops : ℕ) where
    -- The tests by which the loop passes an edge over.
    abbrev pub takes : ℕ → List ℕ → EdgeRef (Link F) → Bool
    takes current path e =
        let next = neighbour current e in
        not (contains path next) && (healthy next && in_reach max_hops e)

    -- The loop over the edges of `current`; `step` is the recursive call.
    unfoldable pub try_edges :
        (ℕ → List ℕ → Dfs (List ℕ)) → ℕ → List ℕ → List (EdgeRef (Link F)) → Dfs (List ℕ)
    try_edges step current path [] = absent
    try_edges step current path (e ∷ es) =
        let others = try_edges step current path es in
        let next = neighbour current e in
        let deeper = step next (path ++ next ∷ []) in
        if takes current path e
        then elim deeper [ found r ↦ found r | absent ↦ others | out_of_fuel ↦ out_of_fuel ]
        else others

    module _ (edges : ℕ → List (EdgeRef (Link F))) (target : ℕ) where
      unfoldable pub dfs_ib_path : ℕ → ℕ → List ℕ → Dfs (List ℕ)
      dfs_ib_path zero current path = out_of_fuel
      dfs_ib_path (suc fuel) current path =
          let deeper = try_edges (dfs_ib_path fuel) current path (edges current) in
          if length path == target then found path else deeper

      -- The loop over the nodes that a path may start from.
      unfoldable pub try_starts : ℕ → List ℕ → Dfs (List ℕ)
      try_starts fuel [] = absent
      try_starts fuel (start ∷ starts) =
          let others = try_starts fuel starts in
          elim (dfs_ib_path fuel start (start ∷ [])) [
            | found r ↦ found r
            | absent ↦ others
            | out_of_fuel ↦ out_of_fuel
          ]

module _ {F G : Type 0} (lib : UnGraph GpuNode (Link F) G) where
  abbrev pub ids_of : G → Dfs (List ℕ) → Dfs (List String)
  ids_of g (found r) = found (map (gpu_id_at lib g) r)
  ids_of g absent = absent
  ids_of g out_of_fuel = out_of_fuel

  unfoldable pub find_ib_path : ClusterGraph G → ℕ → ℕ → Dfs (List String)
  unfolding try_starts
  find_ib_path c size max_hops =
      let cs = candidates lib c in
      let paths =
        try_starts (healthy_at lib c.graph) max_hops (UnGraph.edges lib c.graph) size (length cs)
          cs in
      if ltb (length cs) size then absent else ids_of c.graph paths
