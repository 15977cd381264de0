-- ===== src/Topology/Solver/Satisfies.antt =====
-- What a placement of `TopologySolver::solve` is: an assignment of GPUs that meets the
-- specification on the graph.
use Prim.Native.String.{compare}
use Prim.Native.Nat.{Ordering, suc}
use nemesis.Prelude.{
  some, All-map, ◌-◌, ◌^◌, has_id, has_id_sound, ℕ, ==_iff, if◌then◌else◌, zero, suc, true, false,
  List, [], ◌∷◌, ◌++◌, String, ◌≡◌, refl, map, Mem, All, any, take, length, ◌==◌, Bool-cases,
  Option-cases, inl, inr, ◌⊎◌,
}
use nemesis.Topology.Syntax.{
  ParallelDim, Constraint, TopologySpec, atom, conjunction, disjunction, Alts, nil, cons,
}
use nemesis.Topology.RustStd.{RustStd}
use nemesis.Graph.Petgraph.{UnGraph, UnGraphLaws}
use nemesis.Graph.Cluster.{GpuNode, Link, ClusterGraph, healthy_at, healthy_gpu_ids, gpu_id_at}
use nemesis.Graph.Clique.{find_nvlink_clique}
use nemesis.Graph.Clique.Find.{IsNvlinkClique, find_nvlink_clique_sound}
use nemesis.Graph.IbPath.{find_ib_path}
use nemesis.Graph.IbPath.Find.{IsPath, find_ib_path_sound, find_ib_path-ne-out_of_fuel}
use nemesis.Graph.IbPath.Search.{Dfs-cases}
use nemesis.Topology.Solver.Limits.{Asks, min_bandwidth-Asks, max_hops-Asks}
use nemesis.Topology.Solver.{
  PlacementResult, Reason, sort, insert_sorted, min_bandwidth, max_hops, solve_tp, solve_pp,
  solve_dp, solve_atom, join_arms, solve, try_alternatives, Tried, success, failures, conclude,
  no_clique, placement, arms_overlap, rejected, no_path, no_alternative, Reasons, add_reason,
  no_reasons, reason_then, insufficient,
}

pub insert_sorted-All :
    (P : String → Type 0) (s : String) (ss : List String)
    → P s
    → All P ss
    → All P (insert_sorted s ss)
insert_sorted-All P s [] h k = (h, tt)
insert_sorted-All P s (t ∷ ts) h k =
    elim (compare s t)
      as (λ o. All P (elim o [ Ordering.gt ↦ t ∷ insert_sorted s ts | _ ↦ s ∷ t ∷ ts ])) [
        | Ordering.gt ↦ (k.0, insert_sorted-All P s ts h k.1)
        | Ordering.lt ↦ (h, k)
        | Ordering.eq ↦ (h, k)
      ]

sort-All : (P : String → Type 0) (ss : List String) → All P ss → All P (sort ss)
sort-All P [] h = tt
sort-All P (s ∷ ss) h = insert_sorted-All P s (sort ss) h.0 (sort-All P ss h.1)

take-All : (P : String → Type 0) (n : ℕ) (ss : List String) → All P ss → All P (take n ss)
take-All P zero ss h = tt
take-All P (suc n) [] h = tt
take-All P (suc n) (s ∷ ss) h = (h.0, take-All P n ss h.1)

pub All-self : (P : String → Type 0) (ss : List String) → ((s : String) → Mem s ss → P s) → All P ss
All-self P [] f = tt
All-self P (s ∷ ss) f = (f s (inl refl), All-self P ss (λ t m. f t (inr m)))

pub disjoint_arms : (ls rs : List String) → any (has_id ls) rs ≡ false → All (λ id. ¬ Mem id ls) rs
disjoint_arms ls [] h = tt
disjoint_arms ls (r ∷ rs) h = elim (Bool-cases (has_id ls r)) [
  | inl e ↦ cc (rw e at h)
  | inr e ↦ (has_id_sound ls r e, disjoint_arms ls rs (rw e at h))
]

module _ {F G : Type 0} (std : RustStd F) (lib : UnGraph GpuNode (Link F) G)
    (laws : UnGraphLaws lib) (c : ClusterGraph G) where
  open std use {zero_f32, ge}

  -- A node of the graph that is marked as healthy.
  abbrev pub Healthy : ℕ → Type 0
  Healthy i = (n : GpuNode) × (UnGraph.node_weight lib c.graph i ≡ some n) × (n.healthy ≡ true)

  healthy_at_sound : (i : ℕ) → healthy_at lib c.graph i ≡ true → Healthy i
  healthy_at_sound i h = elim (Option-cases (UnGraph.node_weight lib c.graph i)) [
    | inl missing ↦ cc (rw (healthy_at, missing) at h)
    | inr (n, w) ↦ (n, w, rw (healthy_at, w) at h)
  ]

  all-Healthy :
      (nodes : List ℕ) → All (λ i. healthy_at lib c.graph i ≡ true) nodes → All Healthy nodes
  all-Healthy nodes = All-map (λ i. healthy_at lib c.graph i ≡ true) Healthy nodes healthy_at_sound

  -- The GPUs of a clique over NVLink of the bandwidth that is asked for first, of a path over
  -- InfiniBand of the hops that are asked for first, or `n` healthy ones; for a conjunction those of
  -- both arms, which share none; for a disjunction those of one alternative. `_NUMA` asks nothing.
  unfoldable mutual
    pub Satisfies : TopologySpec F → List String → Type 0
    Satisfies (atom (ParallelDim.tp n) cs) ids =
        (bw : F) × (nodes : List ℕ) × Asks Constraint.nvl_min zero_f32 cs bw
        × All Healthy nodes
        × IsNvlinkClique lib ge c n bw nodes
        × (ids ≡ map (gpu_id_at lib c.graph) nodes)
    Satisfies (atom (ParallelDim.pp n) cs) ids =
        (hops : ℕ) × (nodes : List ℕ) × Asks Constraint.ib_max (2 ^ 32 - 1) cs hops
        × All Healthy nodes
        × IsPath lib laws c n hops nodes
        × (length nodes ≡ n)
        × (ids ≡ map (gpu_id_at lib c.graph) nodes)
    Satisfies (atom (ParallelDim.dp n) cs) ids =
        (length ids ≡ n) × All (λ id. Mem id (healthy_gpu_ids lib c)) ids
    Satisfies (conjunction l r) ids =
        (ls : List String) × (rs : List String) × (ids ≡ ls ++ rs)
        × All (λ id. ¬ Mem id ls) rs
        × Satisfies l ls
        × Satisfies r rs
    Satisfies (disjunction alts) ids = SatisfiesSome alts ids

    pub SatisfiesSome : Alts F → List String → Type 0
    SatisfiesSome nil ids = ⊥
    SatisfiesSome (cons alt alts) ids = Satisfies alt ids ⊎ SatisfiesSome alts ids

  -- A placement that meets `P`, or a rejection, which holds no GPUs.
  data Outcome (P : List String → Type 0) : PlacementResult F → Type 0 where
    met : {ids : List String} → P ids → Outcome P (placement ids)
    refused : (reason : Reason F) → Outcome P (rejected reason)

  data Attempt (P : List String → Type 0) : Tried F → Type 0 where
    succeeded : {ids : List String} → P ids → Attempt P (success (placement ids))
    failed : (reasons : Reasons F) → Attempt P (failures reasons)

  Outcome-map :
      {P Q : List String → Type 0} {r : PlacementResult F}
      → ((ids : List String) → P ids → Q ids)
      → Outcome P r
      → Outcome Q r
  Outcome-map f (met p) = met (f _ p)
  Outcome-map f (refused reason) = refused reason

  solve_tp-Outcome :
      (n : ℕ) (bw : F)
      → Outcome
          (λ ids.
            (nodes : List ℕ) × IsNvlinkClique lib ge c n bw nodes
            × (ids ≡ map (gpu_id_at lib c.graph) nodes))
          (solve_tp std lib c n bw)
  unfolding solve_tp
  solve_tp-Outcome n bw = elim (Option-cases (find_nvlink_clique lib ge c n bw)) [
    | inl e ↦ rw (e, solve_tp) (refused (no_clique n bw))
    | inr (ids, e) ↦ rw (e, solve_tp) (met (find_nvlink_clique_sound lib ge c n bw ids e))
  ]

  solve_pp-Outcome :
      (n hops : ℕ)
      → Outcome
          (λ ids.
            (nodes : List ℕ) × IsPath lib laws c n hops nodes
            × (length nodes ≡ n)
            × (ids ≡ map (gpu_id_at lib c.graph) nodes))
          (solve_pp std lib c n hops)
  unfolding solve_pp
  solve_pp-Outcome n hops = elim (Dfs-cases (find_ib_path lib c n hops)) [
    | inl (inl (ids, e)) ↦ rw (e, solve_pp) (met (find_ib_path_sound lib laws c n hops ids e))
    | inl (inr e) ↦ rw (e, solve_pp) (refused (no_path n hops))
    | inr e ↦ absurd (find_ib_path-ne-out_of_fuel lib laws c n hops e)
  ]

  solve_dp-Outcome :
      (n : ℕ)
      → Outcome
          (λ ids. (length ids ≡ n) × All (λ id. Mem id (healthy_gpu_ids lib c)) ids)
          (solve_dp std lib c n)
  unfolding solve_dp
  solve_dp-Outcome n =
      let healthy = healthy_gpu_ids lib c in
      let ids = take n (sort healthy) in
      let among : All (λ id. Mem id healthy) ids =
        take-All (λ id. Mem id healthy) n (sort healthy)
          (sort-All (λ id. Mem id healthy) healthy
            (All-self (λ id. Mem id healthy) healthy (λ s m. m))) in
      elim (Bool-cases (length ids == n)) [
        | inl e ↦ rw e (met ((==_iff (length ids) n).0 e, among))
        | inr e ↦ rw e (refused (insufficient n (length ids)))
      ]

  solve_atom-Outcome :
      (dim : ParallelDim) (cs : List (Constraint F))
      → Outcome (Satisfies (atom dim cs)) (solve_atom std lib c dim cs)
  unfolding solve_atom Satisfies
  solve_atom-Outcome (ParallelDim.tp n) cs =
      let bw = min_bandwidth zero_f32 cs in
      Outcome-map
        (λ ids (nodes, clique, e).
          (bw, nodes, min_bandwidth-Asks zero_f32 cs, all-Healthy nodes clique.healthy, clique, e))
        (solve_tp-Outcome n bw)
  solve_atom-Outcome (ParallelDim.pp n) cs =
      Outcome-map
        (λ ids (nodes, path, count, e).
          (max_hops cs, nodes, max_hops-Asks cs, all-Healthy nodes path.well, path, count, e))
        (solve_pp-Outcome n (max_hops cs))
  solve_atom-Outcome (ParallelDim.dp n) cs = solve_dp-Outcome n

  join_arms-Outcome :
      (l r : TopologySpec F) {x y : PlacementResult F}
      → Outcome (Satisfies l) x
      → Outcome (Satisfies r) y
      → Outcome (Satisfies (conjunction l r)) (join_arms x y)
  unfolding join_arms Satisfies
  join_arms-Outcome l r (refused reason) y = refused reason
  join_arms-Outcome l r (met x) (refused reason) = refused reason
  join_arms-Outcome l r (met {ids = ls} x) (met {ids = rs} y) =
      elim (Bool-cases (any (has_id ls) rs)) [
        | inl e ↦ rw e (refused arms_overlap)
        | inr e ↦ rw e (met (ls, rs, refl, disjoint_arms ls rs e, x, y))
      ]

  conclude-Outcome :
      (alts : Alts F) {t : Tried F}
      → Attempt (SatisfiesSome alts) t
      → Outcome (Satisfies (disjunction alts)) (conclude t)
  unfolding Satisfies
  conclude-Outcome alts (succeeded p) = met p
  conclude-Outcome alts (failed rs) = refused (no_alternative rs)

  first_success :
      (alt : TopologySpec F) (alts : Alts F) {r : PlacementResult F} {t : Tried F}
      → Outcome (Satisfies alt) r
      → Attempt (SatisfiesSome alts) t
      → Attempt
          (SatisfiesSome (cons alt alts))
          (if r.placed then success r else add_reason r.rejection_reason t)
  unfolding Satisfies
  first_success alt alts (met p) t = succeeded (inl p)
  first_success alt alts (refused reason) (succeeded p) = succeeded (inr p)
  first_success alt alts (refused reason) (failed rs) = failed (reason_then reason rs)

  mutual
    unfolding solve Satisfies

    solve-Outcome : (spec : TopologySpec F) → Outcome (Satisfies spec) (solve std lib c spec)
    solve-Outcome (atom dim cs) = solve_atom-Outcome dim cs
    solve-Outcome (conjunction l r) = join_arms-Outcome l r (solve-Outcome l) (solve-Outcome r)
    solve-Outcome (disjunction alts) = conclude-Outcome alts (alternatives alts)

    alternatives : (alts : Alts F) → Attempt (SatisfiesSome alts) (try_alternatives std lib c alts)
    alternatives nil = failed no_reasons
    alternatives (cons alt alts) = first_success alt alts (solve-Outcome alt) (alternatives alts)

  of_Outcome :
      {P : List String → Type 0} {r : PlacementResult F}
      → Outcome P r
      → r.placed ≡ true
      → P r.gpu_ids
  of_Outcome (met p) h = p
  of_Outcome (refused reason) h = cc

  empty_unless_placed :
      {P : List String → Type 0} {r : PlacementResult F}
      → Outcome P r
      → r.placed ≡ false
      → r.gpu_ids ≡ []
  empty_unless_placed (met p) h = cc
  empty_unless_placed (refused reason) h = refl

  -- The GPUs of a placement satisfy the specification on the graph: for each axis that is placed,
  -- those of healthy nodes, its degree of them, each two joined by NVLink of the first bandwidth
  -- that it asks for, or each joined to the next by InfiniBand of the first number of hops that it
  -- asks for. `_NUMA` and further limits of an axis, which the solver does not read, are left out.
  pub solve_sound :
      (spec : TopologySpec F)
      → (solve std lib c spec).placed ≡ true
      → Satisfies spec (solve std lib c spec).gpu_ids
  solve_sound spec = of_Outcome (solve-Outcome spec)

  -- A result that is not a placement holds no GPUs.
  pub solve_refused :
      (spec : TopologySpec F)
      → (solve std lib c spec).placed ≡ false
      → (solve std lib c spec).gpu_ids ≡ []
  solve_refused spec = empty_unless_placed (solve-Outcome spec)
