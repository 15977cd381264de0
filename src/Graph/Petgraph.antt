-- ===== src/Graph/Petgraph.antt =====
-- What the cluster graph uses of the crate petgraph, which is a parameter: `N` is the type of
-- node weights, `E` of edge weights, `G` of graphs. A `NodeIndex` is its number.
pub mod Lists
use nemesis.Prelude.{
  length, ◌<◌, ◌-◌, ◌^◌, ℕ, suc, Bool, List, Option, none, some, ◌≡◌, ◌≢◌, ◌⊎◌, Mem, Distinct, ◌↔◌,
}

-- An `EdgeReference`.
pub record EdgeRef (E : Type 0) : Type 0 where
  pub source : ℕ
  pub target : ℕ
  pub weight : E

pub record UnGraph (N E G : Type 0) : Type 0 where
  pub new_undirected : G
  pub add_node : G → N → G × ℕ
  -- none where an end is no node, which panics
  pub add_edge : G → ℕ → ℕ → E → Option G
  -- the index operators; none where there is no such node, which panics
  pub node_weight : G → ℕ → Option N
  pub set_node_weight : G → ℕ → N → G
  pub node_indices : G → List ℕ
  pub node_count : G → ℕ
  -- `edge_references`, that is `edge_indices` with the ends and the weight of each
  pub edge_references : G → List (EdgeRef E)
  pub edges : G → ℕ → List (EdgeRef E)
  pub edges_connecting : G → ℕ → ℕ → List (EdgeRef E)

-- The greatest `u32`, which a graph keeps back: adding to as many nodes or edges panics.
abbrev pub max_index : ℕ
max_index = 2 ^ 32 - 1

module _ {N E G : Type 0} (lib : UnGraph N E G) where
  open lib use {
    new_undirected, add_node, add_edge, node_weight, set_node_weight, node_indices, node_count,
    edge_references,
  }

  -- What the crate documents of these operations, as far as the theorems rely on it.
  pub record UnGraphLaws : Type 0 where
    -- `node_indices` yields each node once.
    pub indices_distinct : (g : G) → Distinct (node_indices g)
    pub indices_nodes : (g : G) (i : ℕ) (n : N) → node_weight g i ≡ some n → Mem i (node_indices g)
    pub indices_total :
        (g : G) (i : ℕ) → Mem i (node_indices g) → (n : N) × (node_weight g i ≡ some n)
    -- A new graph has no node.
    pub new_empty : (i : ℕ) → node_weight new_undirected i ≡ none
    -- Where there is room, `add_node` returns the index of a new node, and leaves the others as they
    -- are. Where there is none it panics, and no law says what the operation is.
    pub add_node_fresh :
        (g : G) (n : N) → node_count g < max_index → node_weight g (add_node g n).1 ≡ none
    pub add_node_weight :
        (g : G) (n : N)
        → node_count g < max_index
        → node_weight (add_node g n).0 (add_node g n).1 ≡ some n
    pub add_node_other :
        (g : G) (n : N) (i : ℕ)
        → node_count g < max_index
        → i ≢ (add_node g n).1
        → node_weight (add_node g n).0 i ≡ node_weight g i
    -- `IndexMut` changes the weight of one node.
    pub set_weight :
        (g : G) (i : ℕ) (n m : N)
        → node_weight g i ≡ some m
        → node_weight (set_node_weight g i n) i ≡ some n
    pub set_other :
        (g : G) (i j : ℕ) (n : N) → i ≢ j → node_weight (set_node_weight g i n) j ≡ node_weight g j
    -- `add_edge` leaves the nodes as they are.
    pub add_edge_nodes :
        (g h : G) (a b : ℕ) (e : E) (i : ℕ)
        → add_edge g a b e ≡ some h
        → node_weight h i ≡ node_weight g i
    -- It panics only where an end is no node or there is no room for another edge.
    pub add_edge_some :
        (g : G) (a b : ℕ) (e : E) (n m : N)
        → length (edge_references g) < max_index
        → node_weight g a ≡ some n
        → node_weight g b ≡ some m
        → (h : G) × (add_edge g a b e ≡ some h)

module _ {N E G : Type 0} (lib : UnGraph N E G) where
  open lib use {add_edge, edges_connecting}

  -- What the crate documents of the edges between two nodes.
  pub record EdgeLaws : Type 0 where
    -- A new edge connects its ends.
    pub add_edge_connects :
        (g h : G) (a b : ℕ) (e : E)
        → add_edge g a b e ≡ some h
        → (r : EdgeRef E) × Mem r (edges_connecting h a b) × (r.weight ≡ e)
    -- Edges stay.
    pub add_edge_keeps :
        (g h : G) (a b x y : ℕ) (e : E) (r : EdgeRef E)
        → add_edge g a b e ≡ some h
        → Mem r (edges_connecting g x y)
        → Mem r (edges_connecting h x y)
    -- In an undirected graph the order of the ends does not matter.
    pub connecting_sym :
        (g : G) (a b : ℕ) (r : EdgeRef E)
        → Mem r (edges_connecting g a b)
        → (r' : EdgeRef E) × Mem r' (edges_connecting g b a) × (r'.weight ≡ r.weight)

module _ {N E G : Type 0} (lib : UnGraph N E G) where
  open lib use {new_undirected, add_node, add_edge, set_node_weight, node_count, edge_references}

  -- What the crate documents of the number of nodes and of edges.
  pub record CountLaws : Type 0 where
    pub new_count : node_count new_undirected ≡ 0
    pub add_node_count :
        (g : G) (n : N)
        → node_count g < max_index
        → node_count (add_node g n).0 ≡ suc (node_count g)
    pub add_edge_count :
        (g h : G) (a b : ℕ) (e : E) → add_edge g a b e ≡ some h → node_count h ≡ node_count g
    pub new_edges : length (edge_references new_undirected) ≡ 0
    pub add_node_edges :
        (g : G) (n : N)
        → node_count g < max_index
        → length (edge_references (add_node g n).0) ≡ length (edge_references g)
    pub add_edge_edges :
        (g h : G) (a b : ℕ) (e : E)
        → add_edge g a b e ≡ some h
        → length (edge_references h) ≡ suc (length (edge_references g))
