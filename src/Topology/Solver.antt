-- ===== src/Topology/Solver.antt =====
-- substrate/crates/nemesis-topology/src/solver.rs: placement of a specification on the cluster
-- graph, which is read and never changed.
pub mod Limits
pub mod Numa
pub mod Satisfies
pub mod Distinct
mod Tests
use Prim.Native.String.{compare}
use Prim.Native.Nat.{Ordering}
use text.Mathlib.Text.{◌==◌ as str_eq}
use nemesis.Prelude.{
  has_id, ℕ, ◌-◌, ◌^◌, Bool, true, false, List, [], ◌∷◌, ◌++◌, Option, none, some, String,
  if◌then◌else◌, any, take, length, ◌==◌,
}
use nemesis.Topology.Syntax.{
  ParallelDim, Constraint, TopologySpec, atom, conjunction, disjunction, Alts, nil, cons,
}
use nemesis.Topology.RustStd.{RustStd}
use nemesis.Graph.Petgraph.{UnGraph}
use nemesis.Graph.Cluster.{GpuNode, Link, ClusterGraph, healthy_gpu_ids}
use nemesis.Graph.Clique.{find_nvlink_clique}
use nemesis.Graph.IbPath.{Dfs, found, absent, find_ib_path}
use nemesis.Graph.IbPath

-- The texts of `rejection_reason`: `empty` with a placement, else a message with the values put
-- into it. The search for paths never is out of fuel (`IbPath.Find`).
mutual
  pub data Reason (F : Type 0) : Type 0 where
    empty : Reason F
    no_clique : ℕ → F → Reason F
    no_path : ℕ → ℕ → Reason F
    insufficient : ℕ → ℕ → Reason F
    arms_overlap : Reason F
    no_alternative : Reasons F → Reason F
    out_of_fuel : Reason F

  pub data Reasons (F : Type 0) : Type 0 where
    no_reasons : Reasons F
    reason_then : Reason F → Reasons F → Reasons F

pub record PlacementResult (F : Type 0) : Type 0 where
  pub placed : Bool
  pub gpu_ids : List String
  pub rejection_reason : Reason F

-- The outcome of the loop of `solve_disjunction`: a placement, or the reasons.
pub data Tried (F : Type 0) : Type 0 where
  success : PlacementResult F → Tried F
  failures : Reasons F → Tried F

-- `Vec::sort` on strings: any stable sort by their order gives one list.
abbrev pub insert_sorted : String → List String → List String
insert_sorted s [] = s ∷ []
insert_sorted s (t ∷ ts) = elim (compare s t) [
  | Ordering.gt ↦ t ∷ insert_sorted s ts
  | _ ↦ s ∷ t ∷ ts
]

abbrev pub sort : List String → List String
sort [] = []
sort (s ∷ ss) = insert_sorted s (sort ss)

abbrev pub u32_max : ℕ
u32_max = 2 ^ 32 - 1

module _ {F : Type 0} where
  abbrev pub placement : List String → PlacementResult F
  placement ids = record { placed = true; gpu_ids = ids; rejection_reason = empty }

  abbrev pub rejected : Reason F → PlacementResult F
  rejected reason = record { placed = false; gpu_ids = []; rejection_reason = reason }

  -- The first `NvlMin`, or the default.
  unfoldable pub min_bandwidth : F → List (Constraint F) → F
  min_bandwidth d [] = d
  min_bandwidth d (Constraint.nvl_min bw ∷ cs) = bw
  min_bandwidth d (c ∷ cs) = min_bandwidth d cs

  -- The first `IbMax`, or `u32::MAX`.
  unfoldable pub max_hops : List (Constraint F) → ℕ
  max_hops [] = u32_max
  max_hops (Constraint.ib_max h ∷ cs) = h
  max_hops (c ∷ cs) = max_hops cs

  abbrev pub add_reason : Reason F → Tried F → Tried F
  add_reason reason (success r) = success r
  add_reason reason (failures rs) = failures (reason_then reason rs)

  abbrev pub conclude : Tried F → PlacementResult F
  conclude (success r) = r
  conclude (failures rs) = rejected (no_alternative rs)

  -- `solve_conjunction`, with the results of both arms.
  unfoldable pub join_arms : PlacementResult F → PlacementResult F → PlacementResult F
  join_arms left right =
      if left.placed
      then (if right.placed
          then (if any (has_id left.gpu_ids) right.gpu_ids
              then rejected arms_overlap
              else placement (left.gpu_ids ++ right.gpu_ids))
          else right)
      else left

module _ {F G : Type 0} (std : RustStd F) (lib : UnGraph GpuNode (Link F) G)
    (c : ClusterGraph G) where
  open std use {zero_f32, ge}

  unfoldable pub solve_tp : ℕ → F → PlacementResult F
  solve_tp n min_bw = elim (find_nvlink_clique lib ge c n min_bw) [
    | some ids ↦ placement ids
    | none ↦ rejected (no_clique n min_bw)
  ]

  unfoldable pub solve_pp : ℕ → ℕ → PlacementResult F
  solve_pp n hops = elim (find_ib_path lib c n hops) [
    | found ids ↦ placement ids
    | absent ↦ rejected (no_path n hops)
    | IbPath.out_of_fuel ↦ rejected out_of_fuel
  ]

  unfoldable pub solve_dp : ℕ → PlacementResult F
  solve_dp n =
      let ids = take n (sort (healthy_gpu_ids lib c)) in
      if length ids == n then placement ids else rejected (insufficient n (length ids))

  unfoldable pub solve_atom : ParallelDim → List (Constraint F) → PlacementResult F
  unfolding solve_tp solve_pp solve_dp
  solve_atom (ParallelDim.tp n) cs = solve_tp n (min_bandwidth zero_f32 cs)
  solve_atom (ParallelDim.pp n) cs = solve_pp n (max_hops cs)
  solve_atom (ParallelDim.dp n) cs = solve_dp n

  unfoldable mutual
    pub solve : TopologySpec F → PlacementResult F
    solve (atom dim cs) = solve_atom dim cs
    solve (conjunction l r) = join_arms (solve l) (solve r)
    solve (disjunction alts) = conclude (try_alternatives alts)

    pub try_alternatives : Alts F → Tried F
    try_alternatives nil = failures no_reasons
    try_alternatives (cons alt alts) =
        if (solve alt).placed
        then success (solve alt)
        else add_reason (solve alt).rejection_reason (try_alternatives alts)
