-- ===== src/Topology/Solver/Tests.antt =====
-- Placements on a small cluster.
use nemesis.Prelude.{Distinct, has_id, ℕ, true, false, [], ◌∷◌, ◌≡◌, refl}
use nemesis.Topology.Syntax.{
  ParallelDim, Constraint, TopologySpec, atom, conjunction, disjunction, nil, cons,
}
use nemesis.Topology.Lexer.Whole.{whole_std}
use nemesis.Topology.Solver.{min_bandwidth, solve_tp, solve_atom, join_arms, solve}
use nemesis.Topology.Solver.Numa.{without_numa, solve-without_numa}
use nemesis.Topology.Solver.Satisfies.{Satisfies, solve_sound}
use nemesis.Graph.Petgraph.Lists.{list_graph, list_graph-UnGraphLaws}
use nemesis.Graph.Cluster.{candidates}
use nemesis.Graph.Clique.{enter, search_loop, clique_search, has_nvlink_edge, find_nvlink_clique}
use nemesis.Topology.Solver.Distinct.{solve-Distinct}
use nemesis.Graph.Sample.{pair, pair-IsIndexed}

abbrev fallback : TopologySpec ℕ
fallback = disjunction (
    cons (atom (ParallelDim.tp 2) (Constraint.nvl_min 1000 ∷ []))
      (cons (atom (ParallelDim.tp 2) (Constraint.nvl_min 600 ∷ [])) nil))

abbrev too_many : TopologySpec ℕ
too_many = conjunction (atom (ParallelDim.tp 2) []) (atom (ParallelDim.tp 2) [])

fallback_placed : (solve whole_std list_graph pair fallback).placed ≡ true
unfolding solve solve_atom solve_tp min_bandwidth find_nvlink_clique candidates clique_search enter
    search_loop has_nvlink_edge
fallback_placed = refl

too_many_refused : (solve whole_std list_graph pair too_many).placed ≡ false
unfolding solve solve_atom solve_tp min_bandwidth find_nvlink_clique candidates clique_search enter
    search_loop has_nvlink_edge join_arms has_id
too_many_refused = refl

solve_sound_example :
    Satisfies whole_std list_graph list_graph-UnGraphLaws pair fallback
      (solve whole_std list_graph pair fallback).gpu_ids
solve_sound_example =
    solve_sound whole_std list_graph list_graph-UnGraphLaws pair fallback fallback_placed

solve-Distinct_example : Distinct (solve whole_std list_graph pair fallback).gpu_ids
solve-Distinct_example =
    solve-Distinct whole_std list_graph list_graph-UnGraphLaws pair pair-IsIndexed fallback

-- Two GPUs of one NUMA domain.
abbrev local : TopologySpec ℕ
local = atom (ParallelDim.tp 2) (Constraint.numa ∷ Constraint.nvl_min 600 ∷ [])

solve-without_numa_example :
    solve whole_std list_graph pair (without_numa local) ≡ solve whole_std list_graph pair local
solve-without_numa_example = solve-without_numa whole_std list_graph pair local
