-- ===== src/Simulator/Cluster/Joined.antt =====
-- The links that the simulator adds join their GPUs.
use nemesis.Prelude.{
  ℕ, List, [], ◌∷◌, String, some, ◌≡◌, ◌∙◌, subst, All, Mem, get, Option-cases, inl, inr,
}
use nemesis.Graph.Petgraph.{EdgeRef, UnGraph, UnGraphLaws, EdgeLaws}
use nemesis.Graph.Cluster.{GpuNode, Link, LinkKind, ClusterGraph, add_link}
use nemesis.Simulator.Cluster.{add_links}

module _ {F G : Type 0} (lib : UnGraph GpuNode (Link F) G) (laws : UnGraphLaws lib)
    (edge_laws : EdgeLaws lib) where
  open lib use {node_weight, add_edge, node_indices, edges_connecting}
  open laws use {indices_distinct, indices_nodes, indices_total}
  open edge_laws use {add_edge_connects, add_edge_keeps, connecting_sym}

  -- A link between two GPUs, by their ids.
  abbrev pub Joined : ClusterGraph G → Link F → String × String → Type 0
  Joined c link (a, b) =
      (i : ℕ) × (j : ℕ) × (r : EdgeRef (Link F)) × (get a c.id_index ≡ some i)
      × (get b c.id_index ≡ some j)
      × Mem r (edges_connecting c.graph i j)
      × (r.weight ≡ link)

  pub Joined-sym :
      (c : ClusterGraph G) (link : Link F) (a b : String)
      → Joined c link (a, b)
      → Joined c link (b, a)
  Joined-sym c link a b (i, j, r, at_a, at_b, m, same) =
      let (r', m', same') = connecting_sym c.graph i j r m in
      (j, i, r', at_b, at_a, m', same' ∙ same)

  module _ (kind : LinkKind) (bw : F) (hops : ℕ) where
    abbrev the_link : Link F
    the_link = record { kind = kind; bandwidth_gbps = bw; ib_hop_count = hops }

    add_link-Joined :
        (c c' : ClusterGraph G) (a b : String)
        → add_link lib c a b kind bw hops ≡ some c'
        → Joined c' the_link (a, b)
          × ((p : String × String) → Joined c the_link p → Joined c' the_link p)
    unfolding add_link
    add_link-Joined c c' a b e = elim (Option-cases (get a c.id_index)) [
      | inl bad ↦ absurd (cc (rw bad at e))
      | inr (i, at_a) ↦ elim (Option-cases (get b c.id_index)) [
        | inl bad ↦ absurd (cc (rw (at_a, bad) at e))
        | inr (j, at_b) ↦ elim (Option-cases (add_edge c.graph i j the_link)) [
          | inl bad ↦ absurd (cc (rw (at_a, at_b, bad) at e))
          | inr (g, made) ↦
              let same : record c { graph = g } ≡ c' = cc (rw (at_a, at_b, made) at e) in
              let (r, m, w) = add_edge_connects c.graph g i j the_link made in
              subst
                (λ d.
                  Joined d the_link (a, b)
                  × ((p : String × String) → Joined c the_link p → Joined d the_link p))
                same
                (
                  (i, j, r, at_a, at_b, m, w),
                  λ (x, y) (k, l, q, at_x, at_y, n, v).
                      (k, l, q, at_x, at_y, add_edge_keeps c.graph g i j k l the_link q made n, v),
                )
        ]
      ]
    ]

    pub add_links-Joined :
        (c c' : ClusterGraph G) (pairs : List (String × String))
        → add_links lib kind bw hops c pairs ≡ some c'
        → All (Joined c' the_link) pairs
          × ((p : String × String) → Joined c the_link p → Joined c' the_link p)
    unfolding add_links
    add_links-Joined c c' [] e =
        let same : c ≡ c' = cc in
        subst (λ d. Unit {0} × ((p : String × String) → Joined c the_link p → Joined d the_link p))
          same (tt, λ p j. j)
    add_links-Joined c c' ((a, b) ∷ pairs) e =
        elim (Option-cases (add_link lib c a b kind bw hops)) [
          | inl bad ↦ absurd (cc (rw bad at e))
          | inr (d, step) ↦
              let (here, kept) = add_link-Joined c d a b step in
              let (more, kept') = add_links-Joined d c' pairs (rw step at e) in
              ((kept' (a, b) here, more), λ p j. kept' p (kept p j))
        ]
