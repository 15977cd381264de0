-- ===== src/Graph/Petgraph/Lists.antt =====
-- The graphs as two lists, nodes and edges: a concrete function for each operation that the
-- cluster graph takes from petgraph, for which the documented laws hold.
use nemesis.Prelude.{
  ◌∙◌, ℕ, zero, suc, ◌+◌, ◌≤◌, ◌<◌, Bool, List, [], ◌∷◌, ◌++◌, Option, none, some, ◌≡◌, refl, sym,
  ap, ◌≢◌, inl, inr, arith, length, length-append, get_elem?, set, get_elem?-append_last,
  get_elem?-set_self, get_elem?-set_ne, get_elem?-total, Mem, All, Distinct, ltb, ◌==◌, ◌&&◌, ◌||◌,
  if◌then◌else◌, filter_by, All-map, Bool-cases, lt→ltb, subst, true, Mem-filter_by,
}
use native.Mathlib.Decide.{ℕ_discrete}
use nemesis.Graph.Petgraph.{EdgeRef, UnGraph, UnGraphLaws, EdgeLaws, CountLaws}

pub record ListGraph (N E : Type 0) : Type 0 where
  pub nodes : List N
  pub links : List (EdgeRef E)

abbrev pub range_from : ℕ → ℕ → List ℕ
range_from start zero = []
range_from start (suc n) = start ∷ range_from (suc start) n

module _ {E : Type 0} where
  abbrev pub touches : ℕ → EdgeRef E → Bool
  touches a e = e.source == a || e.target == a

  abbrev pub joins : ℕ → ℕ → EdgeRef E → Bool
  joins a b e = e.source == a && e.target == b || e.source == b && e.target == a

module _ {N E : Type 0} where
  abbrev pub list_graph : UnGraph N E (ListGraph N E)
  list_graph = record {
    new_undirected = record { nodes = []; links = [] };
    add_node = λ g n. (record g { nodes = g.nodes ++ n ∷ [] }, length g.nodes);
    add_edge = λ g a b e.
        if ltb a (length g.nodes) && ltb b (length g.nodes)
        then some
            (record g { links = g.links ++ (record { source = a; target = b; weight = e }) ∷ [] })
        else none;
    node_weight = λ g i. get_elem? g.nodes i;
    set_node_weight = λ g i n. record g { nodes = set g.nodes i n };
    node_indices = λ g. range_from 0 (length g.nodes);
    node_count = λ g. length g.nodes;
    edge_references = λ g. g.links;
    edges = λ g a. filter_by (touches a) g.links;
    edges_connecting = λ g a b. filter_by (joins a b) g.links;
  }

range_from-bounds : (s n : ℕ) → All (λ i. s ≤ i) (range_from s n)
range_from-bounds s zero = tt
range_from-bounds s (suc n) = (
  omega arith,
  All-map (λ i. suc s ≤ i) (λ i. s ≤ i) (range_from (suc s) n) (λ i h. omega arith)
      (range_from-bounds (suc s) n),
)

range_from-Distinct : (s n : ℕ) → Distinct (range_from s n)
range_from-Distinct s zero = tt
range_from-Distinct s (suc n) = (
  All-map (λ i. suc s ≤ i) (λ i. s ≢ i) (range_from (suc s) n) (λ i h. omega arith)
      (range_from-bounds (suc s) n),
  range_from-Distinct (suc s) n,
)

range_from-Mem : (s n i : ℕ) → s ≤ i → i < s + n → Mem i (range_from s n)
range_from-Mem s zero i h k = absurd (omega arith)
range_from-Mem s (suc n) i h k = elim (ℕ_discrete i s) [
  | yes e ↦ inl e
  | no apart ↦ inr (range_from-Mem (suc s) n i (omega arith) (omega arith))
]

range_from-lt : (s n i : ℕ) → Mem i (range_from s n) → i < s + n
range_from-lt s (suc n) i (inl e) = omega arith
range_from-lt s (suc n) i (inr m) = omega (arith, range_from-lt (suc s) n i m)
range_from-lt s zero i m = absurd m

module _ {A : Type 0} where
  get_elem?-lt : (xs : List A) (i : ℕ) (a : A) → get_elem? xs i ≡ some a → i < length xs
  get_elem?-lt [] i a h = cc
  get_elem?-lt (x ∷ xs) zero a h = omega arith
  get_elem?-lt (x ∷ xs) (suc i) a h = omega (arith, get_elem?-lt xs i a h)

  get_elem?-end : (xs : List A) (i : ℕ) → length xs ≤ i → get_elem? xs i ≡ none
  get_elem?-end [] i h = refl
  get_elem?-end (x ∷ xs) zero h = absurd (omega arith)
  get_elem?-end (x ∷ xs) (suc i) h = get_elem?-end xs i (omega arith)

  get_elem?-append_other :
      (xs : List A) (a : A) (i : ℕ) → i ≢ length xs → get_elem? (xs ++ a ∷ []) i ≡ get_elem? xs i
  get_elem?-append_other [] a zero h = absurd (h refl)
  get_elem?-append_other [] a (suc i) h = refl
  get_elem?-append_other (x ∷ xs) a zero h = refl
  get_elem?-append_other (x ∷ xs) a (suc i) h = get_elem?-append_other xs a i (λ e. h (ap suc e))

abbrev nodes_of : {N E : Type 0} → ListGraph N E → Option (ListGraph N E) → List N
nodes_of g none = g.nodes
nodes_of g (some h) = h.nodes

pub list_graph-UnGraphLaws : {N E : Type 0} → UnGraphLaws (list_graph {N = N} {E = E})
list_graph-UnGraphLaws = record {
  indices_distinct = λ g. range_from-Distinct 0 (length g.nodes);
  indices_nodes = λ g i n h.
      range_from-Mem 0 (length g.nodes) i (omega arith) (omega (arith, get_elem?-lt g.nodes i n h));
  indices_total =
      λ g i m. get_elem?-total g.nodes i (omega (arith, range_from-lt 0 (length g.nodes) i m));
  new_empty = λ i. refl;
  add_node_fresh = λ g n room. get_elem?-end g.nodes (length g.nodes) (omega arith);
  add_node_weight = λ g n room. get_elem?-append_last g.nodes n;
  add_node_other = λ g n i room h. get_elem?-append_other g.nodes n i h;
  set_weight = λ g i n m h. get_elem?-set_self g.nodes i n (get_elem?-lt g.nodes i m h);
  set_other = λ g i j n h. get_elem?-set_ne g.nodes n h;
  add_edge_nodes = λ g h a b e i made.
      elim (Bool-cases (ltb a (length g.nodes) && ltb b (length g.nodes))) [
        | inl fits ↦ ap (λ o. get_elem? (nodes_of g o) i) (sym (rw fits at made))
        | inr out ↦ absurd (cc (rw out at made))
      ];
  add_edge_some = λ g a b e n m room ha hb.
      let fits_a = lt→ltb a (length g.nodes) (get_elem?-lt g.nodes a n ha) in
      let fits_b = lt→ltb b (length g.nodes) (get_elem?-lt g.nodes b m hb) in
      (
        record g { links = g.links ++ (record { source = a; target = b; weight = e }) ∷ [] },
        rw (fits_a, fits_b) refl,
      );
}

-- The filtered lists of edges.
module _ {A : Type 0} where
  Mem-last : (x : A) (xs : List A) → Mem x (xs ++ x ∷ [])
  Mem-last x [] = inl refl
  Mem-last x (y ∷ ys) = inr (Mem-last x ys)

  Mem-filter_by_append :
      (p : A → Bool) (x : A) (xs ys : List A)
      → Mem x (filter_by p xs)
      → Mem x (filter_by p (xs ++ ys))
  Mem-filter_by_append p x [] ys m = absurd m
  Mem-filter_by_append p x (y ∷ xs) ys m = elim (Bool-cases (p y)) [
    | inl e ↦ rw (e) (elim (rw (e) at m) [
      | inl same ↦ inl same
      | inr k ↦ inr (Mem-filter_by_append p x xs ys k)
    ])
    | inr e ↦ rw (e) (Mem-filter_by_append p x xs ys (rw (e) at m))
  ]

  filter_by-same :
      (p q : A → Bool) (xs : List A) → ((x : A) → p x ≡ q x) → filter_by p xs ≡ filter_by q xs
  filter_by-same p q [] same = refl
  filter_by-same p q (x ∷ xs) same = rw (same x, filter_by-same p q xs same) refl

joins_comm : {E : Type 0} (a b : ℕ) (e : EdgeRef E) → joins a b e ≡ joins b a e
joins_comm a b e = ground arith

joins_self :
    {E : Type 0} (a b : ℕ) (w : E)
    → joins a b (record { source = a; target = b; weight = w }) ≡ true
joins_self a b w = ground arith

pub list_graph-EdgeLaws : {N E : Type 0} → EdgeLaws (list_graph {N = N} {E = E})
list_graph-EdgeLaws {E = E} = record {
  add_edge_connects = λ g h a b e made.
      let r : EdgeRef E = record { source = a; target = b; weight = e } in
      elim (Bool-cases (ltb a (length g.nodes) && ltb b (length g.nodes))) [
        | inl fits ↦
            let same : record g { links = g.links ++ r ∷ [] } ≡ h = cc (rw fits at made) in
            (
              r,
              subst (λ k. Mem r (filter_by (joins a b) k.links)) same
                  (Mem-filter_by (joins a b) r (g.links ++ r ∷ []) (Mem-last r g.links)
                    (joins_self a b e)),
              refl,
            )
        | inr out ↦ absurd (cc (rw out at made))
      ];
  add_edge_keeps = λ g h a b x y e r made m.
      let new : EdgeRef E = record { source = a; target = b; weight = e } in
      elim (Bool-cases (ltb a (length g.nodes) && ltb b (length g.nodes))) [
        | inl fits ↦
            let same : record g { links = g.links ++ new ∷ [] } ≡ h = cc (rw fits at made) in
            subst (λ k. Mem r (filter_by (joins x y) k.links)) same
              (Mem-filter_by_append (joins x y) r g.links (new ∷ []) m)
        | inr out ↦ absurd (cc (rw out at made))
      ];
  connecting_sym = λ g a b r m. (
    r,
    subst (λ l. Mem r l) (filter_by-same (joins a b) (joins b a) g.links (joins_comm a b)) m,
    refl,
  );
}

module _ {N E : Type 0} where
  add_edge-length :
      (g h : ListGraph N E) (a b : ℕ) (e : E)
      → list_graph.add_edge g a b e ≡ some h
      → length h.nodes ≡ length g.nodes
  add_edge-length g h a b e made =
      elim (Bool-cases (ltb a (length g.nodes) && ltb b (length g.nodes))) [
        | inl fits ↦
            let link : EdgeRef E = record { source = a; target = b; weight = e } in
            let same : record g { links = g.links ++ link ∷ [] } ≡ h = cc (rw fits at made) in
            ap (λ k. length k.nodes) (sym same)
        | inr bad ↦ cc (rw bad at made)
      ]

  add_edge-links :
      (g h : ListGraph N E) (a b : ℕ) (e : E)
      → list_graph.add_edge g a b e ≡ some h
      → length h.links ≡ suc (length g.links)
  add_edge-links g h a b e made =
      elim (Bool-cases (ltb a (length g.nodes) && ltb b (length g.nodes))) [
        | inl fits ↦
            let link : EdgeRef E = record { source = a; target = b; weight = e } in
            let same : record g { links = g.links ++ link ∷ [] } ≡ h = cc (rw fits at made) in
            ap (λ k. length k.links) (sym same) ∙ omega (arith, length-append g.links (link ∷ []))
        | inr bad ↦ cc (rw bad at made)
      ]

  pub list_graph-CountLaws : CountLaws (list_graph {N = N} {E = E})
  list_graph-CountLaws = record {
    new_count = refl;
    add_node_count = λ g n room. omega (arith, length-append g.nodes (n ∷ []));
    add_edge_count = add_edge-length;
    new_edges = refl;
    add_node_edges = λ g n room. refl;
    add_edge_edges = add_edge-links;
  }
