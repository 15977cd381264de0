-- ===== src/Topology/Checker/Tests.antt =====
-- Specifications that the type rules accept and refuse.
use nemesis.Prelude.{ℕ, [], ◌∷◌, ◌≡◌, ◌↔◌, refl}
use nemesis.Topology.Syntax.{
  ParallelDim, Constraint, TopologySpec, atom, conjunction, disjunction, nil, cons,
}
use nemesis.Topology.Checker.{type_check, check_overflows}
use nemesis.Topology.Checker.Sound.{WellTyped, type_check_iff}

abbrev uneven : TopologySpec ℕ
uneven = disjunction (
    cons
      (conjunction (atom (ParallelDim.tp 8) (Constraint.nvl_min 600 ∷ []))
        (atom (ParallelDim.pp 4) []))
      (cons (atom (ParallelDim.dp 12) []) nil))

type_check_iff_example : (type_check uneven ≡ []) ↔ WellTyped (λ n. n) uneven
unfolding check_overflows
type_check_iff_example = type_check_iff uneven refl
