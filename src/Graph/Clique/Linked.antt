-- ===== src/Graph/Clique/Linked.antt =====
-- What it takes of an edge to join two nodes of a clique, and that the code tests for it.
use nemesis.Prelude.{
  ℕ, Bool, true, List, [], ◌∷◌, ◌≡◌, Mem, any, Bool-cases, inl, inr, All-map, Pairs, refl, arith,
}
use nemesis.Graph.Petgraph.{UnGraph, EdgeRef}
use nemesis.Graph.Cluster.{LinkKind, nv_link, infini_band, pcie, GpuNode, Link}
use nemesis.Graph.Clique.{is_nv_link, qualifies, has_nvlink_edge}

pub Pairs-map :
    {A : Type 0} (R S : A → A → Type 0) (xs : List A)
    → ((a b : A) → R a b → S a b)
    → Pairs R xs
    → Pairs S xs
Pairs-map R S [] f h = tt
Pairs-map R S (x ∷ xs) f h = (All-map (R x) (S x) xs (f x) h.0, Pairs-map R S xs f h.1)

any-Mem :
    {A : Type 0} (p : A → Bool) (x : A) (xs : List A) → Mem x xs → p x ≡ true → any p xs ≡ true
any-Mem p x [] m h = absurd m
any-Mem p x (y ∷ ys) (inl e) h = let test : p y ≡ true = rw e at h in rw (test) refl
any-Mem p x (y ∷ ys) (inr m) h = elim (Bool-cases (p y)) [
  | inl e ↦ rw (e) refl
  | inr e ↦ rw (e) (any-Mem p x ys m h)
]

Mem-any :
    {A : Type 0} (p : A → Bool) (xs : List A) → any p xs ≡ true → (x : A) × Mem x xs × (p x ≡ true)
Mem-any p [] h = absurd (cc)
Mem-any p (x ∷ xs) h = elim (Bool-cases (p x)) [
  | inl e ↦ (x, inl refl, e)
  | inr e ↦ let (y, m, t) = Mem-any p xs (rw e at h) in (y, inr m, t)
]

is_nv_link_sound : (k : LinkKind) → is_nv_link k ≡ true → k ≡ nv_link
is_nv_link_sound nv_link h = refl
is_nv_link_sound infini_band h = cc
is_nv_link_sound pcie h = cc

module _ {F G : Type 0} (lib : UnGraph GpuNode (Link F) G) (ge : F → F → Bool) (g : G)
    (min_bw : F) where
  -- Some edge between two nodes is NVLink and of the bandwidth.
  abbrev pub NvlinkEdge : ℕ → ℕ → Type 0
  NvlinkEdge a b =
      (e : EdgeRef (Link F)) × Mem e (UnGraph.edges_connecting lib g a b)
      × (e.weight.kind ≡ nv_link)
      × (ge e.weight.bandwidth_gbps min_bw ≡ true)

  pub has_nvlink_edge_sound :
      (a b : ℕ) → has_nvlink_edge lib ge g min_bw a b ≡ true → NvlinkEdge a b
  unfolding has_nvlink_edge
  has_nvlink_edge_sound a b h =
      let (e, m, t) = Mem-any (qualifies lib ge min_bw) (UnGraph.edges_connecting lib g a b) h in
      let kind : is_nv_link e.weight.kind ≡ true = ground arith in
      let wide : ge e.weight.bandwidth_gbps min_bw ≡ true = ground arith in
      (e, m, is_nv_link_sound e.weight.kind kind, wide)

  pub has_nvlink_edge_complete :
      (a b : ℕ) → NvlinkEdge a b → has_nvlink_edge lib ge g min_bw a b ≡ true
  unfolding has_nvlink_edge
  has_nvlink_edge_complete a b (e, m, kind, wide) =
      any-Mem (qualifies lib ge min_bw) e (UnGraph.edges_connecting lib g a b) m
        (rw (kind, wide) refl)
