-- ===== src/Simulator/Cluster/Built.antt =====
-- The simulator's cluster is built without a panic, and holds its GPUs.
use text.Mathlib.Text.{◌==◌ as str_eq}
use text.Mathlib.TextEquality.{eq_iff}
use native.Mathlib.Nat.{mul-le-mul_right}
use nemesis.Prelude.{
  ◌<◌, ◌≤◌, ◌+◌, ◌*◌, arith, length-append, ℕ, zero, suc, ◌≤◌, length, true, false, List, [], ◌∷◌,
  String, none, some, ok, ◌≡◌, ◌≢◌, refl, ap, All, All-map, Distinct, get, Option-cases, Bool-cases,
  inl, inr, ◌==◌, arith, ◌∙◌,
}
use nemesis.Graph.Petgraph.{max_index, CountLaws, UnGraph, UnGraphLaws}
use nemesis.Graph.Cluster.{
  GpuNode, Link, LinkKind, nv_link, pcie, infini_band, ClusterGraph, new, add_gpu, add_link,
  healthy_at,
}
use nemesis.Graph.Cluster.Index.{IsIndexed, IsIndexed-new, add_gpu-IsIndexed, add_link-IsIndexed}
use nemesis.Simulator.Cluster.{
  nvlink_full, pcie_cross_node, ib_chain, ClusterSpec, SimConfig, SimCluster, names_from, all_pairs,
  neighbours, add_gpus, add_links, add_topology, from_config, pairs_with,
}
use nemesis.Simulator.Cluster.Pairs.{Both, all_pairs-Both, neighbours-Both}
use nemesis.Simulator.Cluster.Names.{names_from-Distinct}

pub length-names_from : (i n : ℕ) → length (names_from i n) ≡ n
length-names_from i zero = refl
length-names_from i (suc n) = ap suc (length-names_from (suc i) n)

length-pairs_with : (a : String) (ids : List String) → length (pairs_with a ids) ≡ length ids
length-pairs_with a [] = refl
length-pairs_with a (id ∷ ids) = ap suc (length-pairs_with a ids)

-- Twice the pairs, with the ids themselves, are the square.
length-all_pairs :
    (ids : List String) → 2 * length (all_pairs ids) + length ids ≡ length ids * length ids
length-all_pairs [] = refl
length-all_pairs (id ∷ ids) =
    let rest = length-all_pairs ids in
    let both = length-append (pairs_with id ids) (all_pairs ids) in
    omega (arith, rest, both, length-pairs_with id ids)

pairs_fit : (ids : List String) → length ids ≤ 92_682 → length (all_pairs ids) ≤ max_index
pairs_fit ids few =
    let n = length ids in
    let square = length-all_pairs ids in
    let bound : n * n ≤ 92_682 * n = mul-le-mul_right n few in omega (arith, square, bound, few)

length-neighbours : (ids : List String) → length (neighbours ids) ≤ length ids
length-neighbours [] = omega arith
length-neighbours (a ∷ []) = omega arith
length-neighbours (a ∷ b ∷ ids) = let rest = length-neighbours (b ∷ ids) in omega arith

module _ {F G : Type 0} (lib : UnGraph GpuNode (Link F) G) (laws : UnGraphLaws lib)
    (count_laws : CountLaws lib) where
  open lib use {node_weight, add_node, add_edge, node_count, edge_references}
  open laws use {add_node_fresh, add_node_other, add_edge_nodes, add_edge_some}
  open count_laws use {new_count, add_node_count, new_edges, add_node_edges, add_edge_edges}

  abbrev pub edges_of : ClusterGraph G → ℕ
  edges_of c = length (edge_references c.graph)

  -- A healthy GPU of the cluster.
  abbrev pub Known : ClusterGraph G → String → Type 0
  Known c id = (i : ℕ) × (get id c.id_index ≡ some i) × (healthy_at lib c.graph i ≡ true)

  abbrev pub Missing : ClusterGraph G → String → Type 0
  Missing c id = get id c.id_index ≡ none

  abbrev node : String → GpuNode
  node id = record { gpu_id = id; node_id = "node-0"; numa_domain = 0; healthy = true }

  abbrev with_gpu : ClusterGraph G → String → ClusterGraph G
  with_gpu c id =
      let (graph, idx) = add_node c.graph (node id) in
      record { graph = graph; id_index = (id, idx) ∷ c.id_index }

  add_gpu-Missing :
      (c : ClusterGraph G) (id : String)
      → Missing c id
      → add_gpu lib c id "node-0" 0 ≡ some (with_gpu c id)
  unfolding add_gpu
  add_gpu-Missing c id fresh = rw (add_gpu, fresh) refl

  with_gpu-Missing :
      (c : ClusterGraph G) (id other : String)
      → id ≢ other
      → Missing c other
      → Missing (with_gpu c id) other
  unfolding get
  with_gpu-Missing c id other apart h = elim (Bool-cases (str_eq id other)) [
    | inl same ↦ absurd (apart ((eq_iff id other).0 same))
    | inr e ↦ rw (get, e) h
  ]

  others-Missing :
      (c : ClusterGraph G) (id : String) (ids : List String)
      → All (λ other. id ≢ other) ids
      → All (Missing c) ids
      → All (Missing (with_gpu c id)) ids
  others-Missing c id [] apart missing = tt
  others-Missing c id (other ∷ ids) apart missing =
      (with_gpu-Missing c id other apart.0 missing.0, others-Missing c id ids apart.1 missing.1)

  weight_of_healthy :
      (g : G) (i : ℕ) → healthy_at lib g i ≡ true → (n : GpuNode) × (node_weight g i ≡ some n)
  weight_of_healthy g i h = elim (Option-cases (node_weight g i)) [
    | inl e ↦ cc (rw (healthy_at, e) at h)
    | inr found ↦ found
  ]

  with_gpu-Known :
      (c : ClusterGraph G) (id other : String)
      → node_count c.graph < max_index
      → Missing c id
      → Known c other
      → Known (with_gpu c id) other
  unfolding get
  with_gpu-Known c id other room fresh (i, at, well) = elim (Bool-cases (str_eq id other)) [
    | inl same ↦ let equal = (eq_iff id other).0 same in cc
    | inr e ↦
        let (n, weight) = weight_of_healthy c.graph i well in
        let apart : i ≢ (add_node c.graph (node id)).1 =
          λ p. cc (add_node_fresh c.graph (node id) room) in
        (i, rw (get, e) at, rw (healthy_at, add_node_other c.graph (node id) i room apart) well)
  ]

  -- Where there is room, the GPUs are added, and those of before stay.
  pub add_gpus-Known :
      (c : ClusterGraph G) (ids : List String)
      → IsIndexed lib laws c
      → All (Missing c) ids
      → Distinct ids
      → node_count c.graph + length ids ≤ max_index
      → (c' : ClusterGraph G) × (add_gpus lib c ids ≡ some c')
        × IsIndexed lib laws c'
        × All (Known c') ids
        × ((id : String) → Known c id → Known c' id)
        × ((id : String) → All (λ other. other ≢ id) ids → Missing c id → Missing c' id)
        × (edges_of c' ≡ edges_of c)
  unfolding add_gpus
  add_gpus-Known c [] h missing apart room = (c, refl, h, tt, (λ id k. k), (λ id away k. k), refl)
  add_gpus-Known c (id ∷ ids) h missing apart room =
      let here : node_count c.graph < max_index = omega arith in
      let more = add_node_count c.graph (node id) here in
      let step = add_gpu-Missing c id missing.0 in
      let (h', (i, at, well)) =
        add_gpu-IsIndexed lib laws c id "node-0" 0 (with_gpu c id) h here step in
      let left = others-Missing c id ids apart.0 missing.1 in
      let (c', run, h'', known, kept, gone, edges) =
        add_gpus-Known (with_gpu c id) ids h' left apart.1 (omega arith) in
      (
        c',
        rw (add_gpus, step) run,
        h'',
        (kept id (i, at, well), known),
        (λ other k. kept other (with_gpu-Known c id other here missing.0 k)),
        (λ other away k. gone other away.1 (with_gpu-Missing c id other away.0 k)),
        edges ∙ add_node_edges c.graph (node id) here,
      )

  -- Links between known GPUs are added, and all GPUs stay.
  add_link-Known :
      (kind : LinkKind) (bw : F) (hops : ℕ) (c : ClusterGraph G) (a b : String)
      → IsIndexed lib laws c
      → Known c a
      → Known c b
      → edges_of c < max_index
      → (c' : ClusterGraph G) × (add_link lib c a b kind bw hops ≡ some c')
        × (c'.id_index ≡ c.id_index)
        × ((id : String) → Known c id → Known c' id)
        × (edges_of c' ≡ suc (edges_of c))
  unfolding add_link
  add_link-Known kind bw hops c a b h (i, at_a, well_a) (j, at_b, well_b) room =
      let (n, weight_a) = weight_of_healthy c.graph i well_a in
      let (m, weight_b) = weight_of_healthy c.graph j well_b in
      let link : Link F = record { kind = kind; bandwidth_gbps = bw; ib_hop_count = hops } in
      let (g, made) = add_edge_some c.graph i j link n m room weight_a weight_b in
      (
        record c { graph = g },
        rw (add_link, at_a, at_b, made) refl,
        refl,
        (λ id (k, at, well).
            (k, at, rw (healthy_at, add_edge_nodes c.graph g i j link k made) well)),
        add_edge_edges c.graph g i j link made,
      )

  pub add_links-Known :
      (kind : LinkKind) (bw : F) (hops : ℕ) (c : ClusterGraph G) (pairs : List (String × String))
      → IsIndexed lib laws c
      → All (Both (Known c)) pairs
      → edges_of c + length pairs ≤ max_index
      → (c' : ClusterGraph G) × (add_links lib kind bw hops c pairs ≡ some c')
        × IsIndexed lib laws c'
        × (c'.id_index ≡ c.id_index)
        × ((id : String) → Known c id → Known c' id)
  unfolding add_links
  add_links-Known kind bw hops c [] h known room = (c, refl, h, refl, λ id k. k)
  add_links-Known kind bw hops c ((a, b) ∷ pairs) h known room =
      let (c', step, same, kept, one) =
        add_link-Known kind bw hops c a b h known.0.0 known.0.1 (omega arith) in
      let h' = add_link-IsIndexed lib laws c a b kind bw hops c' h step in
      let left =
        All-map (Both (Known c)) (Both (Known c')) pairs (λ p k. (kept p.0 k.0, kept p.1 k.1))
          known.1 in
      let (c'', run, h'', same', kept') =
        add_links-Known kind bw hops c' pairs h' left (omega arith) in
      (c'', rw (add_links, step) run, h'', same' ∙ same, λ id k. kept' id (kept id k))

  add_topology-Known :
      (gbps : ℕ → F) (spec : ClusterSpec F) (ids : List String) (c : ClusterGraph G)
      → IsIndexed lib laws c
      → All (Known c) ids
      → edges_of c + length (all_pairs ids) ≤ max_index
      → edges_of c + length (neighbours ids) ≤ max_index
      → (c' : ClusterGraph G) × (add_topology lib gbps spec ids c ≡ some c')
        × IsIndexed lib laws c'
        × (c'.id_index ≡ c.id_index)
        × ((id : String) → Known c id → Known c' id)
  unfolding add_topology
  add_topology-Known gbps spec ids c h known room room' =
      elim spec.topology
        as (λ kind.
          (c' : ClusterGraph G) × (add_topology lib gbps (record spec { topology = kind }) ids c
            ≡ some c')
          × IsIndexed lib laws c'
          × (c'.id_index ≡ c.id_index)
          × ((id : String) → Known c id → Known c' id)) [
            | nvlink_full ↦
                add_links-Known nv_link spec.nvlink_gbps 0 c (all_pairs ids) h
                  (all_pairs-Both (Known c) ids known) room
            | pcie_cross_node ↦
                add_links-Known pcie (gbps 64) 0 c (all_pairs ids) h
                  (all_pairs-Both (Known c) ids known) room
            | ib_chain ↦
                add_links-Known infini_band spec.ib_gbps 1 c (neighbours ids) h
                  (neighbours-Both (Known c) ids known) room'
          ]

  pub Missing-new : (ids : List String) → All (Missing (new lib)) ids
  unfolding new get
  Missing-new [] = tt
  Missing-new (id ∷ ids) = (refl, Missing-new ids)

  pub room_for_gpus :
      (n : ℕ) → n ≤ 92_682 → node_count (new lib).graph + length (names_from 0 n) ≤ max_index
  unfolding new
  room_for_gpus n few = omega (arith, new_count, length-names_from 0 n, few)

  no_edges : edges_of (new lib) ≡ 0
  unfolding new
  no_edges = new_edges

  pub room_for_pairs :
      (n : ℕ) (c : ClusterGraph G)
      → n ≤ 92_682
      → edges_of c ≡ edges_of (new lib)
      → edges_of c + length (all_pairs (names_from 0 n)) ≤ max_index
  room_for_pairs n c few bare =
      omega (arith, no_edges, pairs_fit (names_from 0 n) (omega (arith, length-names_from 0 n)))

  room_for_neighbours :
      (n : ℕ) (c : ClusterGraph G)
      → n ≤ 92_682
      → edges_of c ≡ edges_of (new lib)
      → edges_of c + length (neighbours (names_from 0 n)) ≤ max_index
  room_for_neighbours n c few bare =
      omega (arith, no_edges, length-neighbours (names_from 0 n), length-names_from 0 n)

  -- For a configuration of one GPU or more and at most 92,682, whose pairs still are fewer than the
  -- edges of a graph can be, on a graph library that keeps its laws, the simulator's cluster is built without a panic, whatever the topology: it has as many ids as
  -- the configuration says, no two of them the same, each is a healthy GPU of the graph, and the
  -- map of the graph and its nodes are in step.
  pub from_config_lem :
      {D : Type 0} (gbps : ℕ → F) (cfg : SimConfig F D)
      → 1 ≤ cfg.cluster.gpu_count
      → cfg.cluster.gpu_count ≤ 92_682
      → (sim : SimCluster F G) × (from_config lib gbps cfg ≡ some (ok sim))
        × (length sim.gpu_ids ≡ cfg.cluster.gpu_count)
        × Distinct sim.gpu_ids
        × All (Known sim.graph) sim.gpu_ids
        × IsIndexed lib laws sim.graph
  unfolding from_config
  from_config_lem gbps cfg some_gpu few =
      let n = cfg.cluster.gpu_count in
      let ids = names_from 0 n in
      let apart = names_from-Distinct 0 n in
      let (c, added, h, known, kept, gone, bare) =
        add_gpus-Known (new lib) ids (IsIndexed-new lib laws) (Missing-new ids) apart
          (room_for_gpus n few) in
      let (c', linked, h', same, kept') =
        add_topology-Known gbps cfg.cluster ids c h known (room_for_pairs n c few bare)
          (room_for_neighbours n c few bare) in
      let not_empty : (n == 0) ≡ false = ground arith in
      (
        record { graph = c'; gpu_ids = ids; config = cfg.cluster; seed = cfg.seed },
        rw (from_config, not_empty, added, linked) refl,
        length-names_from 0 n,
        apart,
        All-map (Known c) (Known c') ids kept' known,
        h',
      )
