-- ===== src/Topology/Solver/Distinct.antt =====
-- A placement of `TopologySolver::solve` names no GPU twice.
use Prim.Native.Nat.{Ordering}
use Prim.Native.String.{compare}
use nemesis.Prelude.{
  ℕ, zero, suc, List, [], ◌∷◌, ◌++◌, String, sym, ◌≢◌, Mem, All, Distinct, Sub, none_left, keep,
  Sub-nil, Pairs-Sub, any, take, length, ◌==◌, Bool-cases, Option-cases, inl, inr, has_id,
  if◌then◌else◌, All-append, All-map,
}
use nemesis.Topology.Syntax.{
  ParallelDim, Constraint, TopologySpec, atom, conjunction, disjunction, Alts, nil, cons,
}
use nemesis.Topology.RustStd.{RustStd}
use nemesis.Graph.Petgraph.{UnGraph, UnGraphLaws}
use nemesis.Graph.Cluster.{GpuNode, Link, ClusterGraph, healthy_gpu_ids}
use nemesis.Graph.Cluster.Index.{IsIndexed}
use nemesis.Graph.Cluster.Distinct.{gpu_ids-Distinct, healthy_gpu_ids-Distinct}
use nemesis.Graph.Clique.{find_nvlink_clique}
use nemesis.Graph.Clique.Find.{find_nvlink_clique_sound}
use nemesis.Graph.IbPath.{find_ib_path}
use nemesis.Graph.IbPath.Find.{find_ib_path_sound}
use nemesis.Graph.IbPath.Search.{Dfs-cases}
use nemesis.Topology.Solver.{
  PlacementResult, sort, insert_sorted, min_bandwidth, max_hops, solve_tp, solve_pp, solve_dp,
  solve_atom, join_arms, solve, try_alternatives, Tried, success, failures, conclude, add_reason,
}
use nemesis.Topology.Solver.Satisfies.{insert_sorted-All, disjoint_arms}

insert_sorted-Distinct :
    (s : String) (ss : List String)
    → All (λ t. s ≢ t) ss
    → Distinct ss
    → Distinct (insert_sorted s ss)
insert_sorted-Distinct s [] h d = (tt, tt)
insert_sorted-Distinct s (t ∷ ts) h d =
    elim (compare s t)
      as (λ o. Distinct (elim o [ Ordering.gt ↦ t ∷ insert_sorted s ts | _ ↦ s ∷ t ∷ ts ])) [
        | Ordering.gt ↦ (
          insert_sorted-All (λ u. t ≢ u) s ts (λ e. h.0 (sym e)) d.0,
          insert_sorted-Distinct s ts h.1 d.1,
        )
        | Ordering.lt ↦ (h, d)
        | Ordering.eq ↦ (h, d)
      ]

sort-ne : (s : String) (ss : List String) → All (λ t. s ≢ t) ss → All (λ t. s ≢ t) (sort ss)
sort-ne s [] h = tt
sort-ne s (t ∷ ts) h = insert_sorted-All (λ u. s ≢ u) t (sort ts) h.0 (sort-ne s ts h.1)

sort-Distinct : (ss : List String) → Distinct ss → Distinct (sort ss)
sort-Distinct [] d = tt
sort-Distinct (s ∷ ss) d =
    insert_sorted-Distinct s (sort ss) (sort-ne s ss d.0) (sort-Distinct ss d.1)

Sub-take : (n : ℕ) (ss : List String) → Sub (take n ss) ss
Sub-take zero ss = Sub-nil ss
Sub-take (suc n) [] = none_left
Sub-take (suc n) (s ∷ ss) = keep s (Sub-take n ss)

ne_of_not_Mem :
    (l : String) (ls rs : List String) → All (λ id. ¬ Mem id (l ∷ ls)) rs → All (λ r. l ≢ r) rs
ne_of_not_Mem l ls [] h = tt
ne_of_not_Mem l ls (r ∷ rs) h = ((λ e. h.0 (inl (sym e))), ne_of_not_Mem l ls rs h.1)

Distinct-append :
    (ls rs : List String)
    → Distinct ls
    → Distinct rs
    → All (λ id. ¬ Mem id ls) rs
    → Distinct (ls ++ rs)
Distinct-append [] rs d e h = e
Distinct-append (l ∷ ls) rs d e h = (
  All-append (λ r. l ≢ r) ls rs d.0 (ne_of_not_Mem l ls rs h),
  Distinct-append ls rs d.1 e
      (All-map (λ id. ¬ Mem id (l ∷ ls)) (λ id. ¬ Mem id ls) rs (λ id out m. out (inr m)) h),
)

join_arms-Distinct :
    {F : Type 0} (x y : PlacementResult F)
    → Distinct x.gpu_ids
    → Distinct y.gpu_ids
    → Distinct (join_arms x y).gpu_ids
unfolding join_arms
join_arms-Distinct x y dx dy = elim (Bool-cases x.placed) [
  | inr left_refused ↦ rw (join_arms, left_refused) dx
  | inl left ↦ elim (Bool-cases y.placed) [
    | inr right_refused ↦ rw (join_arms, left, right_refused) dy
    | inl right ↦ elim (Bool-cases (any (has_id x.gpu_ids) y.gpu_ids)) [
      | inl overlap ↦ rw (join_arms, left, right, overlap) tt
      | inr apart ↦
          rw (join_arms, left, right, apart)
            (Distinct-append x.gpu_ids y.gpu_ids dx dy (disjoint_arms x.gpu_ids y.gpu_ids apart))
    ]
  ]
]

abbrev TriedDistinct : {F : Type 0} → Tried F → Type 0
TriedDistinct (success r) = Distinct r.gpu_ids
TriedDistinct (failures rs) = Unit

conclude-Distinct : {F : Type 0} (t : Tried F) → TriedDistinct t → Distinct (conclude t).gpu_ids
conclude-Distinct (success r) d = d
conclude-Distinct (failures rs) d = tt

module _ {F G : Type 0} (std : RustStd F) (lib : UnGraph GpuNode (Link F) G)
    (laws : UnGraphLaws lib) (c : ClusterGraph G) (h : IsIndexed lib laws c) where
  open std use {zero_f32, ge}

  solve_tp-Distinct : (n : ℕ) (bw : F) → Distinct (solve_tp std lib c n bw).gpu_ids
  unfolding solve_tp
  solve_tp-Distinct n bw = elim (Option-cases (find_nvlink_clique lib ge c n bw)) [
    | inl e ↦ rw (e, solve_tp) tt
    | inr (ids, e) ↦
        let (nodes, clique, at) = find_nvlink_clique_sound lib ge c n bw ids e in
        rw (e, solve_tp, at)
          (gpu_ids-Distinct lib laws c h nodes clique.healthy
            (Pairs-Sub ◌≢◌ clique.among (laws.indices_distinct c.graph)))
  ]

  solve_pp-Distinct : (n hops : ℕ) → Distinct (solve_pp std lib c n hops).gpu_ids
  unfolding solve_pp
  solve_pp-Distinct n hops = elim (Dfs-cases (find_ib_path lib c n hops)) [
    | inl (inl (ids, e)) ↦
        let (nodes, path, count, at) = find_ib_path_sound lib laws c n hops ids e in
        rw (e, solve_pp, at) (gpu_ids-Distinct lib laws c h nodes path.well path.simple)
    | inl (inr e) ↦ rw (e, solve_pp) tt
    | inr e ↦ rw (e, solve_pp) tt
  ]

  solve_dp-Distinct : (n : ℕ) → Distinct (solve_dp std lib c n).gpu_ids
  unfolding solve_dp
  solve_dp-Distinct n =
      let healthy = healthy_gpu_ids lib c in
      let distinct : Distinct (take n (sort healthy)) =
        Pairs-Sub ◌≢◌ (Sub-take n (sort healthy))
          (sort-Distinct healthy (healthy_gpu_ids-Distinct lib laws c h)) in
      elim (Bool-cases (length (take n (sort healthy)) == n)) [
        | inl e ↦ rw (e, solve_dp) distinct
        | inr e ↦ rw (e, solve_dp) tt
      ]

  solve_atom-Distinct :
      (dim : ParallelDim) (cs : List (Constraint F))
      → Distinct (solve_atom std lib c dim cs).gpu_ids
  unfolding solve_atom
  solve_atom-Distinct (ParallelDim.tp n) cs = solve_tp-Distinct n (min_bandwidth zero_f32 cs)
  solve_atom-Distinct (ParallelDim.pp n) cs = solve_pp-Distinct n (max_hops cs)
  solve_atom-Distinct (ParallelDim.dp n) cs = solve_dp-Distinct n

  first-Distinct :
      (r : PlacementResult F) (t : Tried F)
      → Distinct r.gpu_ids
      → TriedDistinct t
      → TriedDistinct (if r.placed then success r else add_reason r.rejection_reason t)
  first-Distinct r (success r') d e = elim (Bool-cases r.placed) [ inl p ↦ rw p d | inr q ↦ rw q e ]
  first-Distinct r (failures rs) d e = elim (Bool-cases r.placed) [
    | inl p ↦ rw p d
    | inr q ↦ rw q tt
  ]

  mutual
    unfolding solve

    distinct : (spec : TopologySpec F) → Distinct (solve std lib c spec).gpu_ids
    distinct (atom dim cs) = solve_atom-Distinct dim cs
    distinct (conjunction l r) =
        join_arms-Distinct (solve std lib c l) (solve std lib c r) (distinct l) (distinct r)
    distinct (disjunction alts) = conclude-Distinct _ (alternatives-Distinct alts)

    alternatives-Distinct : (alts : Alts F) → TriedDistinct (try_alternatives std lib c alts)
    alternatives-Distinct nil = tt
    alternatives-Distinct (cons alt alts) =
        first-Distinct (solve std lib c alt) (try_alternatives std lib c alts) (distinct alt)
          (alternatives-Distinct alts)

  -- Where the map and the nodes of the graph are in step, the GPUs of a result are distinct.
  pub solve-Distinct : (spec : TopologySpec F) → Distinct (solve std lib c spec).gpu_ids
  solve-Distinct = distinct
