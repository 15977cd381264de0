-- ===== src/Simulator/Cluster/Mesh.antt =====
-- In a cluster that is fully connected by NVLink, the search for a clique finds one.
use nemesis.Prelude.{
  ℕ, suc, ◌≤◌, Bool, true, false, List, [], ◌∷◌, String, some, ok, ◌≡◌, ◌≢◌, refl, sym, ap, ◌∙◌,
  subst, All, All-map, All-Sub, Sub, Mem, Pairs-Sub, Distinct, get, Option-cases, Bool-cases, inl,
  inr, ◌==◌, arith, has_id, has_id_sound, has_id_complete, take, length, length-take, pigeonhole,
  Sub-filter_by, Mem-filter_by, All-filter_by, Sub-trans,
}
use nemesis.Graph.Petgraph.{UnGraph, UnGraphLaws, EdgeLaws, CountLaws}
use nemesis.Graph.Cluster.{GpuNode, Link, nv_link, ClusterGraph, new, healthy_at, candidates}
use nemesis.Graph.Cluster.Index.{IsIndexed, IsIndexed-new}
use nemesis.Graph.Clique.{find_nvlink_clique}
use nemesis.Graph.Clique.Linked.{NvlinkEdge}
use nemesis.Graph.Clique.Find.{IsNvlinkClique, find_nvlink_clique_complete}
use nemesis.Simulator.Cluster.{
  SimConfig, SimCluster, nvlink_full, names_from, all_pairs, add_topology, from_config,
}
use nemesis.Simulator.Cluster.Names.{names_from-Distinct}
use nemesis.Simulator.Cluster.Built.{
  room_for_gpus, room_for_pairs, Known, length-names_from, add_gpus-Known, add_links-Known,
  Missing-new,
}
use nemesis.Simulator.Cluster.Pairs.{all_pairs-Both, All_of_Mem, Sub-take, All-all_pairs, Pairs-of}
use nemesis.Simulator.Cluster.Joined.{Joined, Joined-sym, add_links-Joined}

module _ {F G : Type 0} (lib : UnGraph GpuNode (Link F) G) (laws : UnGraphLaws lib)
    (count_laws : CountLaws lib) (edge_laws : EdgeLaws lib) (ge : F → F → Bool) where
  open lib use {node_weight, node_indices, edges_connecting}
  open laws use {indices_distinct, indices_nodes, indices_total}

  -- A node by its id, one of `ids`.
  abbrev Named : ClusterGraph G → List String → ℕ → Type 0
  Named c ids i = (id : String) × Mem id ids × (get id c.id_index ≡ some i)

  -- The ids are those of the nodes, and each two are joined by NVLink.
  record IsMesh (c : ClusterGraph G) (ids : List String) (bw : F) : Type 0 where
    is_indexed : IsIndexed lib laws c
    known : All (Known lib laws count_laws c) ids
    apart : Distinct ids
    only : (id : String) (i : ℕ) → get id c.id_index ≡ some i → Mem id ids
    joined :
        All
          (Joined lib laws edge_laws c
            (record { kind = nv_link; bandwidth_gbps = bw; ib_hop_count = 0 }))
          (all_pairs ids)

  module _ (c : ClusterGraph G) (ids : List String) (bw min_bw : F) (mesh : IsMesh c ids bw)
      (enough : ge bw min_bw ≡ true) where
    linked :
        (i j : ℕ) → Named c ids i → Named c ids j → i ≢ j → NvlinkEdge lib ge c.graph min_bw i j
    linked i j (a, m, at_a) (b, m', at_b) apart_ij =
        let link : Link F = record { kind = nv_link; bandwidth_gbps = bw; ib_hop_count = 0 } in
        let apart_ab : a ≢ b = λ e. apart_ij (cc) in
        let (k, l, r, get_a, get_b, on, w) =
          All-all_pairs (Joined lib laws edge_laws c link) a b ids
            (Joined-sym lib laws edge_laws c link) m m' apart_ab mesh.joined in
        let first : k ≡ i = cc in
        let second : l ≡ j = cc in
        let between : Mem r (edges_connecting c.graph i j) =
          subst (λ x. Mem r (edges_connecting c.graph x j)) first
            (subst (λ x. Mem r (edges_connecting c.graph k x)) second on) in
        (r, between, ap (λ x. x.kind) w, ap (λ x. ge x.bandwidth_gbps min_bw) w ∙ enough)

    all-Named : All (Named c ids) (node_indices c.graph)
    all-Named = All_of_Mem (Named c ids) (node_indices c.graph) λ i m.
        let (n, w) = indices_total c.graph i m in
        let at = mesh.is_indexed.indexed i n w in (n.gpu_id, mesh.only n.gpu_id i at, at)

    -- The indices of the GPUs.
    abbrev indices_of : (ids' : List String) → All (Known lib laws count_laws c) ids' → List ℕ
    indices_of [] k = []
    indices_of (id ∷ ids') k = k.0.0 ∷ indices_of ids' k.1

    length-indices_of :
        (ids' : List String) (k : All (Known lib laws count_laws c) ids')
        → length (indices_of ids' k) ≡ length ids'
    length-indices_of [] k = refl
    length-indices_of (id ∷ ids') k = ap suc (length-indices_of ids' k.1)

    same_id : (a b : String) (i : ℕ) → get a c.id_index ≡ some i → get b c.id_index ≡ some i → a ≡ b
    same_id a b i at_a at_b =
        let (n, w, of_a) = mesh.is_indexed.entry a i at_a in
        let (n', w', of_b) = mesh.is_indexed.entry b i at_b in
        let one : n ≡ n' = cc in sym of_a ∙ ap (λ x. x.gpu_id) one ∙ of_b

    indices_of-apart :
        (id : String) (i : ℕ) (ids' : List String) (k : All (Known lib laws count_laws c) ids')
        → get id c.id_index ≡ some i
        → All (λ other. id ≢ other) ids'
        → All (λ j. i ≢ j) (indices_of ids' k)
    indices_of-apart id i [] k at apart = tt
    indices_of-apart id i (other ∷ ids') k at apart = (
      (λ e. apart.0 (same_id id other i at (k.0.1 ∙ ap some (sym e)))),
      indices_of-apart id i ids' k.1 at apart.1,
    )

    indices_of-Distinct :
        (ids' : List String) (k : All (Known lib laws count_laws c) ids')
        → Distinct ids'
        → Distinct (indices_of ids' k)
    indices_of-Distinct [] k apart = tt
    indices_of-Distinct (id ∷ ids') k apart =
        (indices_of-apart id k.0.0 ids' k.1 k.0.1 apart.0, indices_of-Distinct ids' k.1 apart.1)

    indices_of-candidates :
        (ids' : List String) (k : All (Known lib laws count_laws c) ids')
        → All (λ i. Mem i (candidates lib c)) (indices_of ids' k)
    unfolding candidates
    indices_of-candidates [] k = tt
    indices_of-candidates (id ∷ ids') k =
        let (i, at, well) = k.0 in
        let (n, w, of_id) = mesh.is_indexed.entry id i at in
        (
          Mem-filter_by (healthy_at lib c.graph) i (node_indices c.graph)
              (indices_nodes c.graph i n w) well,
          indices_of-candidates ids' k.1,
        )

    mesh-clique :
        (size : ℕ)
        → size ≤ length ids
        → (found : List String) × (find_nvlink_clique lib ge c size min_bw ≡ some found)
    mesh-clique size fits =
        let cs = candidates lib c in
        let nodes = take size cs in
        let sub : Sub cs (node_indices c.graph) =
          unfold candidates in Sub-filter_by (healthy_at lib c.graph) (node_indices c.graph) in
        let well : All (λ i. healthy_at lib c.graph i ≡ true) cs =
          unfold candidates in All-filter_by (healthy_at lib c.graph) (node_indices c.graph) in
        let part = Sub-take size cs in
        let all_of = Sub-trans sub part in
        let apart = Pairs-Sub ◌≢◌ all_of (indices_distinct c.graph) in
        let room =
          pigeonhole (indices_of ids mesh.known) cs (indices_of-Distinct ids mesh.known mesh.apart)
            (indices_of-candidates ids mesh.known) in
        let count : length nodes ≡ size =
          omega (arith, length-take size cs, room, length-indices_of ids mesh.known, fits) in
        let clique : IsNvlinkClique lib ge c size min_bw nodes = record {
          among = all_of;
          healthy = All-Sub _ part well;
          count = count;
          linked =
              Pairs-of (Named c ids) (NvlinkEdge lib ge c.graph min_bw) nodes linked
                (All-Sub _ all_of all-Named) apart;
        } in
        elim (Option-cases (find_nvlink_clique lib ge c size min_bw)) [
          | inl none_found ↦
              absurd (find_nvlink_clique_complete lib ge c size min_bw nodes none_found clique)
          | inr found ↦ found
        ]

  -- In a simulated cluster of at most 92,682 GPUs and of the topology that joins all by NVLink, built on a graph library
  -- that keeps its laws, the search for a clique finds one of any size up to the number of GPUs, if
  -- the bandwidth that is asked for is at most the configured one.
  pub from_config-clique :
      {D : Type 0} (gbps : ℕ → F) (cfg : SimConfig F D) (sim : SimCluster F G) (size : ℕ)
      (min_bw : F)
      → 1 ≤ cfg.cluster.gpu_count
      → cfg.cluster.gpu_count ≤ 92_682
      → cfg.cluster.topology ≡ nvlink_full
      → from_config lib gbps cfg ≡ some (ok sim)
      → size ≤ cfg.cluster.gpu_count
      → ge cfg.cluster.nvlink_gbps min_bw ≡ true
      → (found : List String) × (find_nvlink_clique lib ge sim.graph size min_bw ≡ some found)
  unfolding from_config add_topology new get
  from_config-clique gbps cfg sim size min_bw some_gpu few full built fits enough =
      let n = cfg.cluster.gpu_count in
      let bw = cfg.cluster.nvlink_gbps in
      let ids = names_from 0 n in
      let apart = names_from-Distinct 0 n in
      let (c, added, h, known, kept, gone, bare) =
        add_gpus-Known lib laws count_laws (new lib) ids (IsIndexed-new lib laws)
          (Missing-new lib laws count_laws ids) apart (room_for_gpus lib laws count_laws n few) in
      let (c', linked, h', same, kept') =
        add_links-Known lib laws count_laws nv_link bw 0 c (all_pairs ids) h
          (all_pairs-Both (Known lib laws count_laws c) ids known)
          (room_for_pairs lib laws count_laws n c few bare) in
      let not_empty : (n == 0) ≡ false = ground arith in
      let wired : add_topology lib gbps cfg.cluster ids c ≡ some c' =
        rw (add_topology, full) linked in
      let made : some
            (ok (record { graph = c'; gpu_ids = ids; config = cfg.cluster; seed = cfg.seed }))
          ≡ some (ok sim) =
        rw (from_config, not_empty, added, wired) at built in
      let mesh : IsMesh c' ids bw = record {
        is_indexed = h';
        known =
            All-map (Known lib laws count_laws c) (Known lib laws count_laws c') ids kept' known;
        apart = apart;
        only = λ id i at. elim (Bool-cases (has_id ids id)) [
          | inl e ↦ has_id_complete ids id e
          | inr e ↦
              let away =
                All_of_Mem (λ other. other ≢ id) ids
                  (λ other m p. has_id_sound ids id e (subst (λ s. Mem s ids) p m)) in
              let missing = gone id away refl in cc
        ];
        joined = (add_links-Joined lib laws edge_laws nv_link bw 0 c c' (all_pairs ids) linked).0;
      } in
      let graph : c' ≡ sim.graph = cc in
      subst (λ d. (found : List String) × (find_nvlink_clique lib ge d size min_bw ≡ some found))
        graph
        (mesh-clique c' ids bw min_bw mesh enough size
          (subst (λ k. size ≤ k) (sym (length-names_from 0 n)) fits))
