-- ===== src/Graph/Cluster/Distinct.antt =====
-- Distinct nodes have distinct GPU ids.
use nemesis.Prelude.{
  ℕ, true, List, [], ◌∷◌, String, some, ◌≡◌, ◌≢◌, map, All, Distinct, Option-cases, inl, inr,
  filter_by, Sub-filter_by, Pairs-Sub, All-filter_by,
}
use nemesis.Graph.Petgraph.{UnGraph, UnGraphLaws}
use nemesis.Graph.Cluster.{
  GpuNode, Link, ClusterGraph, healthy_at, gpu_id_at, candidates, healthy_gpu_ids,
}
use nemesis.Graph.Cluster.Index.{IsIndexed, unique_ids}

-- A function takes distinct items to distinct values if it does so for each two items.
All-map_ne :
    {A : Type 0} (f : A → String) (P : A → Type 0)
    → ((a b : A) → P a → P b → f a ≡ f b → a ≡ b)
    → (x : A) (xs : List A) → P x
    → All P xs
    → All (λ y. x ≢ y) xs
    → All (λ s. f x ≢ s) (map f xs)
All-map_ne f P inj x [] h hs d = tt
All-map_ne f P inj x (y ∷ ys) h hs d =
    ((λ e. d.0 (inj x y h hs.0 e)), All-map_ne f P inj x ys h hs.1 d.1)

map-Distinct :
    {A : Type 0} (f : A → String) (P : A → Type 0)
    → ((a b : A) → P a → P b → f a ≡ f b → a ≡ b)
    → (xs : List A) → All P xs
    → Distinct xs
    → Distinct (map f xs)
map-Distinct f P inj [] h d = tt
map-Distinct f P inj (x ∷ xs) h d =
    (All-map_ne f P inj x xs h.0 h.1 d.0, map-Distinct f P inj xs h.1 d.1)

module _ {F G : Type 0} (lib : UnGraph GpuNode (Link F) G) (laws : UnGraphLaws lib)
    (c : ClusterGraph G) (h : IsIndexed lib laws c) where
  open lib use {node_weight}

  abbrev Healthy : ℕ → Type 0
  Healthy i = healthy_at lib c.graph i ≡ true

  node_of : (i : ℕ) → Healthy i → (n : GpuNode) × (node_weight c.graph i ≡ some n)
  node_of i well = elim (Option-cases (node_weight c.graph i)) [
    | inl missing ↦ cc (rw (healthy_at, missing) at well)
    | inr found ↦ found
  ]

  same_node :
      (i j : ℕ) → Healthy i → Healthy j → gpu_id_at lib c.graph i ≡ gpu_id_at lib c.graph j → i ≡ j
  same_node i j hi hj e =
      let (n, wi) = node_of i hi in
      let (m, wj) = node_of j hj in
      unique_ids lib laws c h i j n m wi wj (rw (gpu_id_at, wi, wj) at e)

  pub gpu_ids-Distinct :
      (nodes : List ℕ)
      → All (λ i. healthy_at lib c.graph i ≡ true) nodes
      → Distinct nodes
      → Distinct (map (gpu_id_at lib c.graph) nodes)
  gpu_ids-Distinct = map-Distinct (gpu_id_at lib c.graph) Healthy same_node

  pub healthy_gpu_ids-Distinct : Distinct (healthy_gpu_ids lib c)
  unfolding healthy_gpu_ids candidates
  healthy_gpu_ids-Distinct =
      let all = UnGraph.node_indices lib c.graph in
      gpu_ids-Distinct (filter_by (healthy_at lib c.graph) all)
        (All-filter_by (healthy_at lib c.graph) all)
        (Pairs-Sub ◌≢◌ (Sub-filter_by (healthy_at lib c.graph) all) (laws.indices_distinct c.graph))
