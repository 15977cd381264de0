-- ===== src/Topology/Solver/Numa.antt =====
-- What the solver makes of `_NUMA`.
use nemesis.Prelude.{List, [], ◌∷◌, ◌≡◌, refl}
use nemesis.Topology.Syntax.{
  ParallelDim, Constraint, TopologySpec, atom, conjunction, disjunction, Alts, nil, cons,
}
use nemesis.Topology.RustStd.{RustStd}
use nemesis.Graph.Petgraph.{UnGraph}
use nemesis.Graph.Cluster.{GpuNode, Link, ClusterGraph}
use nemesis.Topology.Solver.{min_bandwidth, max_hops, solve_atom, solve, try_alternatives}

module _ {F : Type 0} where
  abbrev pub drop_numa : List (Constraint F) → List (Constraint F)
  drop_numa [] = []
  drop_numa (Constraint.numa ∷ cs) = drop_numa cs
  drop_numa (Constraint.nvl_min bw ∷ cs) = Constraint.nvl_min bw ∷ drop_numa cs
  drop_numa (Constraint.ib_max h ∷ cs) = Constraint.ib_max h ∷ drop_numa cs

  -- A specification without its `_NUMA`s.
  unfoldable mutual
    pub without_numa : TopologySpec F → TopologySpec F
    without_numa (atom dim cs) = atom dim (drop_numa cs)
    without_numa (conjunction l r) = conjunction (without_numa l) (without_numa r)
    without_numa (disjunction alts) = disjunction (each_without_numa alts)

    pub each_without_numa : Alts F → Alts F
    each_without_numa nil = nil
    each_without_numa (cons alt alts) = cons (without_numa alt) (each_without_numa alts)

  min_bandwidth-drop_numa :
      (d : F) (cs : List (Constraint F)) → min_bandwidth d (drop_numa cs) ≡ min_bandwidth d cs
  unfolding min_bandwidth
  min_bandwidth-drop_numa d [] = refl
  min_bandwidth-drop_numa d (Constraint.numa ∷ cs) = min_bandwidth-drop_numa d cs
  min_bandwidth-drop_numa d (Constraint.nvl_min bw ∷ cs) = refl
  min_bandwidth-drop_numa d (Constraint.ib_max h ∷ cs) = min_bandwidth-drop_numa d cs

  max_hops-drop_numa : (cs : List (Constraint F)) → max_hops (drop_numa cs) ≡ max_hops cs
  unfolding max_hops
  max_hops-drop_numa [] = refl
  max_hops-drop_numa (Constraint.numa ∷ cs) = max_hops-drop_numa cs
  max_hops-drop_numa (Constraint.nvl_min bw ∷ cs) = max_hops-drop_numa cs
  max_hops-drop_numa (Constraint.ib_max h ∷ cs) = refl

module _ {F G : Type 0} (std : RustStd F) (lib : UnGraph GpuNode (Link F) G)
    (c : ClusterGraph G) where
  solve_atom-drop_numa :
      (dim : ParallelDim) (cs : List (Constraint F))
      → solve_atom std lib c dim (drop_numa cs) ≡ solve_atom std lib c dim cs
  unfolding solve_atom
  solve_atom-drop_numa (ParallelDim.tp n) cs =
      rw (solve_atom, min_bandwidth-drop_numa std.zero_f32 cs) refl
  solve_atom-drop_numa (ParallelDim.pp n) cs = rw (solve_atom, max_hops-drop_numa cs) refl
  solve_atom-drop_numa (ParallelDim.dp n) cs = refl

  mutual
    unfolding solve without_numa

    same_result :
        (spec : TopologySpec F) → solve std lib c (without_numa spec) ≡ solve std lib c spec
    same_result (atom dim cs) = solve_atom-drop_numa dim cs
    same_result (conjunction l r) = rw (same_result l, same_result r) refl
    same_result (disjunction alts) = rw (same_attempts alts) refl

    same_attempts :
        (alts : Alts F)
        → try_alternatives std lib c (each_without_numa alts) ≡ try_alternatives std lib c alts
    same_attempts nil = refl
    same_attempts (cons alt alts) = rw (same_result alt, same_attempts alts) refl

  -- The solver gives a specification the result that it has without its `_NUMA`s, although these
  -- ask for ranks that are local to a NUMA domain: they never move or refuse a placement.
  pub solve-without_numa :
      (spec : TopologySpec F) → solve std lib c (without_numa spec) ≡ solve std lib c spec
  solve-without_numa spec = same_result spec
