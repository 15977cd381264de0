-- ===== src/Graph/Cluster/Index.antt =====
-- The map from ids to indices and the nodes of the graph describe one another.
use text.Mathlib.Text.{◌==◌ as str_eq}
use text.Mathlib.TextEquality.{eq_iff}
use native.Mathlib.Decide.{ℕ_discrete}
use nemesis.Prelude.{
  ◌<◌, get, if◌then◌else◌, ℕ, String, true, false, ◌∷◌, none, some, ◌≡◌, refl, sym, ◌∙◌, ap, ◌≢◌,
  Option-cases, Bool-cases, inl, inr, subst, ◌⊎◌,
}
use nemesis.Graph.Petgraph.{max_index, UnGraph, UnGraphLaws}
use nemesis.Graph.Cluster.{
  LinkKind, GpuNode, Link, ClusterGraph, new, add_gpu, add_link, mark_unhealthy, healthy_at, lower,
}

module _ {F G : Type 0} (lib : UnGraph GpuNode (Link F) G) (laws : UnGraphLaws lib) where
  open lib use {node_weight, set_node_weight, add_node, node_count}
  open laws use {
    new_empty, add_node_fresh, add_node_weight, add_node_other, set_weight, set_other,
    add_edge_nodes,
  }

  -- Every entry of the map is a node of that id, and every node has its entry. So ids are unique.
  pub record IsIndexed (c : ClusterGraph G) : Type 0 where
    pub entry :
        (id : String) (i : ℕ)
        → get id c.id_index ≡ some i
        → (n : GpuNode) × (node_weight c.graph i ≡ some n) × (n.gpu_id ≡ id)
    pub indexed :
        (i : ℕ) (n : GpuNode) → node_weight c.graph i ≡ some n → get n.gpu_id c.id_index ≡ some i

  pub IsIndexed-new : IsIndexed (new lib)
  unfolding new get
  IsIndexed-new = record { entry = λ id i h. cc; indexed = λ i n h. cc (new_empty i) }

  -- Two nodes of one id are one node.
  pub unique_ids :
      (c : ClusterGraph G)
      → IsIndexed c
      → (i j : ℕ) (n m : GpuNode) → node_weight c.graph i ≡ some n
      → node_weight c.graph j ≡ some m
      → n.gpu_id ≡ m.gpu_id
      → i ≡ j
  unique_ids c h i j n m hi hj e = cc (h.indexed i n hi, h.indexed j m hj)

  module _ (c : ClusterGraph G) (h : IsIndexed c) (node : GpuNode)
      (room : node_count c.graph < max_index) where
    abbrev idx : ℕ
    idx = (add_node c.graph node).1

    abbrev added : ClusterGraph G
    added = record { graph = (add_node c.graph node).0; id_index = (node.gpu_id, idx) ∷ c.id_index }

    get-added_self : get node.gpu_id added.id_index ≡ some idx
    unfolding get
    get-added_self = rw ((eq_iff node.gpu_id node.gpu_id).1 refl)

    entry_added :
        (id : String) (i : ℕ)
        → get id added.id_index ≡ some i
        → (n : GpuNode) × (node_weight added.graph i ≡ some n) × (n.gpu_id ≡ id)
    unfolding get
    entry_added id i e = elim (Bool-cases (str_eq node.gpu_id id)) [
      | inl same ↦
          let at : idx ≡ i = cc (rw same at e) in
          (
            node,
            ap (node_weight added.graph) (sym at) ∙ add_node_weight c.graph node room,
            (eq_iff node.gpu_id id).0 same,
          )
      | inr other ↦
          let (n, w, of_id) = h.entry id i (rw other at e) in
          let apart : i ≢ idx = λ p. cc (add_node_fresh c.graph node room) in
          (n, add_node_other c.graph node i room apart ∙ w, of_id)
    ]

    indexed_added :
        get node.gpu_id c.id_index ≡ none
        → (i : ℕ) (n : GpuNode) → node_weight added.graph i ≡ some n
        → get n.gpu_id added.id_index ≡ some i
    unfolding get
    indexed_added fresh i n w = elim (ℕ_discrete i idx) [
      | yes at ↦
          let same : node ≡ n = cc (add_node_weight c.graph node room) in
          subst (λ m. get m.gpu_id added.id_index ≡ some i) same (get-added_self ∙ ap some (sym at))
      | no apart ↦
          let old = h.indexed i n (sym (add_node_other c.graph node i room apart) ∙ w) in
          elim (Bool-cases (str_eq node.gpu_id n.gpu_id)) [
            | inl same ↦ cc ((eq_iff node.gpu_id n.gpu_id).0 same)
            | inr other ↦ rw other old
          ]
    ]

  -- Where the map and the nodes are in step and there is room for a node, adding a GPU, if it is not
  -- refused, keeps them so, and the new GPU is a healthy node under its id.
  pub add_gpu-IsIndexed :
      (c : ClusterGraph G) (gpu_id node_id : String) (numa : ℕ) (c' : ClusterGraph G)
      → IsIndexed c
      → node_count c.graph < max_index
      → add_gpu lib c gpu_id node_id numa ≡ some c'
      → IsIndexed c'
        × ((i : ℕ) × (get gpu_id c'.id_index ≡ some i) × (healthy_at lib c'.graph i ≡ true))
  unfolding add_gpu
  add_gpu-IsIndexed c gpu_id node_id numa c' h room e =
      let node : GpuNode = record {
        gpu_id = gpu_id;
        node_id = node_id;
        numa_domain = numa;
        healthy = true;
      } in
      elim (Option-cases (get gpu_id c.id_index)) [
        | inr (i, known) ↦ cc (rw known at e)
        | inl fresh ↦
            let made : added c h node room ≡ c' = cc (rw fresh at e) in
            subst
              (λ d.
                IsIndexed d
                × ((i : ℕ) × (get gpu_id d.id_index ≡ some i) × (healthy_at lib d.graph i ≡ true)))
              made
              (
                record {
                  entry = entry_added c h node room;
                  indexed = indexed_added c h node room fresh;
                },
                (
                  idx c h node room,
                  get-added_self c h node room,
                  rw (healthy_at, add_node_weight c.graph node room),
                ),
              )
      ]

  IsIndexed-same :
      (c : ClusterGraph G) (g : G)
      → IsIndexed c
      → ((i : ℕ) → node_weight g i ≡ node_weight c.graph i)
      → IsIndexed (record c { graph = g })
  IsIndexed-same c g h same = record {
    entry = λ id i e. let (n, w, of_id) = h.entry id i e in (n, same i ∙ w, of_id);
    indexed = λ i n w. h.indexed i n (sym (same i) ∙ w);
  }

  abbrev link : LinkKind → F → ℕ → Link F
  link kind bw hops = record { kind = kind; bandwidth_gbps = bw; ib_hop_count = hops }

  -- Where the map and the nodes are in step, adding a link between known GPUs keeps them so.
  pub add_link-IsIndexed :
      (c : ClusterGraph G) (src dst : String) (kind : LinkKind) (bw : F) (hops : ℕ)
      (c' : ClusterGraph G)
      → IsIndexed c
      → add_link lib c src dst kind bw hops ≡ some c'
      → IsIndexed c'
  unfolding add_link
  add_link-IsIndexed c src dst kind bw hops c' h e = elim (Option-cases (get src c.id_index)) [
    | inl none_src ↦ absurd (cc (rw none_src at e))
    | inr (s, hs) ↦ elim (Option-cases (get dst c.id_index)) [
      | inl none_dst ↦ absurd (cc (rw (hs, none_dst) at e))
      | inr (d, hd) ↦ elim (Option-cases (UnGraph.add_edge lib c.graph s d (link kind bw hops))) [
        | inl bad ↦ absurd (cc (rw (hs, hd, bad) at e))
        | inr (g, made) ↦
            let same : record c { graph = g } ≡ c' = cc (rw (hs, hd, made) at e) in
            subst IsIndexed same
              (IsIndexed-same c g h λ i. add_edge_nodes c.graph g s d (link kind bw hops) i made)
      ]
    ]
  ]

  module _ (c : ClusterGraph G) (h : IsIndexed c) (idx : ℕ) (m : GpuNode)
      (w : node_weight c.graph idx ≡ some m) where
    abbrev lowered : ClusterGraph G
    lowered = record c { graph = set_node_weight c.graph idx (record m { healthy = false }) }

    weight-lowered :
        (i : ℕ) (n : GpuNode)
        → node_weight lowered.graph i ≡ some n
        → ((i ≡ idx) × (n ≡ record m { healthy = false }))
          ⊎ ((i ≢ idx) × (node_weight c.graph i ≡ some n))
    weight-lowered i n e = elim (ℕ_discrete i idx) [
      | yes at ↦ inl (at, cc (set_weight c.graph idx (record m { healthy = false }) m w))
      | no apart ↦ inr (
        apart,
        sym (set_other c.graph idx i (record m { healthy = false }) (λ p. apart (sym p))) ∙ e,
      )
    ]

    lowered-IsIndexed : IsIndexed lowered
    lowered-IsIndexed = record {
      entry = λ id i e.
          let (n, wn, of_id) = h.entry id i e in
          elim (ℕ_discrete i idx) [
            | yes at ↦
                let same : n ≡ m = cc in
                (
                  record m { healthy = false },
                  ap (node_weight lowered.graph) at ∙ set_weight c.graph idx _ m w,
                  ap GpuNode.gpu_id (sym same) ∙ of_id,
                )
            | no apart ↦ (n, set_other c.graph idx i _ (λ p. apart (sym p)) ∙ wn, of_id)
          ];
      indexed = λ i n e. elim (weight-lowered i n e) [
        | inl (at, same) ↦ rw (at, same) (h.indexed idx m w)
        | inr (apart, old) ↦ h.indexed i n old
      ];
    }

  -- Where the map and the nodes are in step, marking a GPU keeps them so, makes the node of that
  -- id unhealthy, and leaves each other node as it is.
  pub mark_unhealthy_lem :
      (c : ClusterGraph G) (gpu_id : String) (i : ℕ) (n : GpuNode)
      → IsIndexed c
      → node_weight c.graph i ≡ some n
      → let c' = mark_unhealthy lib c gpu_id in
        IsIndexed c'
        × (node_weight c'.graph i
            ≡ some (if str_eq n.gpu_id gpu_id then record n { healthy = false } else n))
  unfolding mark_unhealthy
  mark_unhealthy_lem c gpu_id i n h w = elim (Option-cases (get gpu_id c.id_index)) [
    | inl unknown ↦ elim (Bool-cases (str_eq n.gpu_id gpu_id)) [
      | inl same ↦ absurd (cc (h.indexed i n w, (eq_iff n.gpu_id gpu_id).0 same))
      | inr other ↦ rw (mark_unhealthy, unknown, other) (h, w)
    ]
    | inr (at, known) ↦
        let (m, wm, of_id) = h.entry gpu_id at known in
        elim (Bool-cases (str_eq n.gpu_id gpu_id)) [
          | inl same ↦
              let here : i ≡ at = cc (h.indexed i n w, (eq_iff n.gpu_id gpu_id).0 same) in
              let node : m ≡ n = cc in
              rw (mark_unhealthy, known, lower, wm, same)
                (
                  lowered-IsIndexed c h at m wm,
                  ap (node_weight (lowered c h at m wm).graph) here
                      ∙ set_weight c.graph at (record m { healthy = false }) m wm
                      ∙ ap {A = GpuNode} (λ k. some (record k { healthy = false })) node,
                )
          | inr other ↦
              let apart : at ≢ i = λ p.
                let node : m ≡ n = cc in
                cc ((eq_iff n.gpu_id gpu_id).1 (ap GpuNode.gpu_id (sym node) ∙ of_id)) in
              rw (mark_unhealthy, known, lower, wm, other)
                (
                  lowered-IsIndexed c h at m wm,
                  set_other c.graph at i (record m { healthy = false }) apart ∙ w,
                )
        ]
  ]
