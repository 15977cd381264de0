-- ===== src/Graph/IbPath/Find.antt =====
-- What `find_ib_path` returns, when it returns nothing, and that it ends.
use nemesis.Prelude.{
  ℕ, Bool, true, List, [], ◌∷◌, String, ◌≡◌, ◌≢◌, refl, sym, ◌∙◌, map, Mem, All-map, length, arith,
  Bool-cases, Option-cases, inl, inr, ltb, ltb→lt, pigeonhole, Mem-filter_by, All→Mem,
  All-filter_by,
}
use nemesis.Graph.Petgraph.{UnGraph, UnGraphLaws, EdgeRef}
use nemesis.Graph.Cluster.{GpuNode, Link, ClusterGraph, gpu_id_at, healthy_at, candidates}
use nemesis.Graph.IbPath.{Dfs, found, absent, out_of_fuel, dfs_ib_path, try_starts, find_ib_path}
use nemesis.Graph.IbPath.Search.{Dfs-cases, IsIbPath, dfs_sound, dfs_fuel, dfs_complete}

module _ {F : Type 0} (healthy : ℕ → Bool) (max_hops : ℕ) (edges : ℕ → List (EdgeRef (Link F)))
    (target : ℕ) (fuel : ℕ) where
  abbrev from : ℕ → Dfs (List ℕ)
  from start = dfs_ib_path healthy max_hops edges target fuel start (start ∷ [])

  abbrev starts : List ℕ → Dfs (List ℕ)
  starts = try_starts healthy max_hops edges target fuel

  starts_behind :
      (ss : List ℕ) (out : Dfs (List ℕ))
      → out ≢ absent
      → starts ss ≡ out
      → (s : ℕ) × Mem s ss × (from s ≡ out)
  unfolding try_starts
  starts_behind [] out real h = absurd (real (sym h))
  starts_behind (s ∷ ss) out real h = elim (Dfs-cases (from s)) [
    | inl (inl (r, e)) ↦ (s, inl refl, e ∙ rw (e, try_starts) at h)
    | inl (inr e) ↦
        let (s', m, e') = starts_behind ss out real (rw (e, try_starts) at h) in (s', inr m, e')
    | inr e ↦ (s, inl refl, e ∙ rw (e, try_starts) at h)
  ]

  starts_absent : (ss : List ℕ) (s : ℕ) → starts ss ≡ absent → Mem s ss → from s ≡ absent
  unfolding try_starts
  starts_absent [] s h m = absurd m
  starts_absent (s' ∷ ss) s h m = elim (Dfs-cases (from s')) [
    | inl (inl (r, e)) ↦ cc (rw (e, try_starts) at h)
    | inl (inr e) ↦ elim m [
      | inl at ↦ rw at e
      | inr m' ↦ starts_absent ss s (rw (e, try_starts) at h) m'
    ]
    | inr e ↦ cc (rw (e, try_starts) at h)
  ]

module _ {F G : Type 0} (lib : UnGraph GpuNode (Link F) G) (laws : UnGraphLaws lib)
    (c : ClusterGraph G) (size max_hops : ℕ) where
  abbrev healthy : ℕ → Bool
  healthy = healthy_at lib c.graph

  abbrev edges : ℕ → List (EdgeRef (Link F))
  edges = UnGraph.edges lib c.graph

  abbrev cs : List ℕ
  cs = candidates lib c

  -- Distinct healthy nodes, each joined to the next by an InfiniBand edge within the hops.
  abbrev pub IsPath : List ℕ → Type 0
  IsPath = IsIbPath healthy max_hops edges size

  candidate : (i : ℕ) → healthy i ≡ true → Mem i cs
  unfolding candidates
  candidate i h = elim (Option-cases (UnGraph.node_weight lib c.graph i)) [
    | inl missing ↦ cc (rw (healthy_at, missing) at h)
    | inr (n, w) ↦
        Mem-filter_by healthy i (UnGraph.node_indices lib c.graph)
          (laws.indices_nodes c.graph i n w) h
  ]

  well_candidate : (i : ℕ) → Mem i cs → healthy i ≡ true
  unfolding candidates
  well_candidate i m =
      All→Mem (λ k. healthy k ≡ true) i cs
        (All-filter_by healthy (UnGraph.node_indices lib c.graph)) m

  alone : (i : ℕ) → healthy i ≡ true → IsPath (i ∷ [])
  alone i h = record { hops = tt; well = (h, tt); simple = (tt, tt) }

  abbrev paths : Dfs (List ℕ)
  paths = try_starts healthy max_hops edges size (length cs) cs

  -- The ids returned are those of distinct healthy nodes, `size` of them, each joined to the next
  -- by an InfiniBand edge within the hops.
  pub find_ib_path_sound :
      (ids : List String)
      → find_ib_path lib c size max_hops ≡ found ids
      → (nodes : List ℕ) × IsPath nodes
        × (length nodes ≡ size)
        × (ids ≡ map (gpu_id_at lib c.graph) nodes)
  unfolding find_ib_path
  find_ib_path_sound ids h = elim (Bool-cases (ltb (length cs) size)) [
    | inl few ↦ cc (rw few at h)
    | inr enough ↦ elim (Dfs-cases paths) [
      | inl (inl (r, e)) ↦
          let (s, m, at) =
            starts_behind healthy max_hops edges size (length cs) cs (found r) (λ k. cc) e in
          let (path, n) =
            dfs_sound healthy max_hops edges size (length cs) [] s r (alone s (well_candidate s m))
              at in
          (r, path, n, cc (rw (enough, e) at h))
      | inl (inr e) ↦ cc (rw (enough, e) at h)
      | inr e ↦ cc (rw (enough, e) at h)
    ]
  ]

  -- The search always ends: its fuel, the number of healthy nodes, is enough.
  pub find_ib_path-ne-out_of_fuel : find_ib_path lib c size max_hops ≢ out_of_fuel
  unfolding find_ib_path
  find_ib_path-ne-out_of_fuel h = elim (Bool-cases (ltb (length cs) size)) [
    | inl few ↦ cc (rw few at h)
    | inr enough ↦ elim (Dfs-cases paths) [
      | inl (inl (r, e)) ↦ cc (rw (enough, e) at h)
      | inl (inr e) ↦ cc (rw (enough, e) at h)
      | inr e ↦
          let (s, m, at) =
            starts_behind healthy max_hops edges size (length cs) cs out_of_fuel (λ k. cc) e in
          dfs_fuel healthy max_hops edges size cs candidate (length cs) [] s
            (alone s (well_candidate s m)) (omega arith) at
    ]
  ]

  -- Where nothing is returned, no list of `size` distinct healthy nodes, one at least, has each
  -- joined to the next by an InfiniBand edge within the hops.
  pub find_ib_path_complete :
      (start : ℕ) (rest : List ℕ)
      → find_ib_path lib c size max_hops ≡ absent
      → length (start ∷ rest) ≡ size
      → ¬ IsPath (start ∷ rest)
  unfolding find_ib_path
  find_ib_path_complete start rest h n p = elim (Bool-cases (ltb (length cs) size)) [
    | inl few ↦
        let fits =
          pigeonhole (start ∷ rest) cs p.simple
            (All-map (λ i. healthy i ≡ true) (λ i. Mem i cs) (start ∷ rest) candidate p.well) in
        omega (arith, fits, ltb→lt (length cs) size few)
    | inr enough ↦ elim (Dfs-cases paths) [
      | inl (inl (r, e)) ↦ cc (rw (enough, e) at h)
      | inl (inr e) ↦
          let at =
            starts_absent healthy max_hops edges size (length cs) cs start e
              (candidate start p.well.0) in
          dfs_complete healthy max_hops edges size (length cs) [] start rest at (omega arith) p
      | inr e ↦ cc (rw (enough, e) at h)
    ]
  ]
