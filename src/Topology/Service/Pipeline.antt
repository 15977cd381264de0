-- ===== src/Topology/Service/Pipeline.antt =====
-- What an answer of `schedule` that places a job says of the text of the request.
use nemesis.Prelude.{
  true, List, [], ◌∷◌, String, ◌≡◌, refl, sym, subst, ap, Mem, All, Bool-cases, inl, inr, ok, ◌∙◌,
  Result-cases,
}
use nemesis.Topology.Syntax.{TopologySpec}
use nemesis.Topology.RustStd.{RustStd}
use nemesis.Topology.Checker.{type_check}
use nemesis.Topology.Checker.Counts.{wrapping}
use nemesis.Topology.Checker.Sound.{WellTyped, type_check-wrapping}
use nemesis.Topology.Solver.{PlacementResult, solve}
use nemesis.Topology.Solver.Satisfies.{Satisfies, solve_sound, disjoint_arms}
use nemesis.Topology.Service.{JobSpec, ServiceState, Placement, parse, reserve, schedule, is_empty}
use nemesis.Topology.Service.Calls.{reserve-placed}
use nemesis.Graph.Petgraph.{UnGraph, UnGraphLaws}
use nemesis.Graph.Cluster.{GpuNode, Link, ClusterGraph}

is_empty-eq-nil : {A : Type 0} (xs : List A) → is_empty xs ≡ true → xs ≡ []
is_empty-eq-nil [] h = refl
is_empty-eq-nil (x ∷ xs) h = cc

pub reserve_ids :
    {F : Type 0} (s : ServiceState) (job_id : String) (r : PlacementResult F)
    → (reserve s job_id r).0.placed ≡ true
    → (reserve s job_id r).0.gpu_ids ≡ r.gpu_ids
unfolding reserve
reserve_ids s job_id r h = let (p, free) = reserve-placed s job_id r h in rw (reserve, p, free)

module _ {F G : Type 0} (std : RustStd F) (lib : UnGraph GpuNode (Link F) G)
    (laws : UnGraphLaws lib) (c : ClusterGraph G) (s : ServiceState) (job : JobSpec) where
  -- A job that is placed has a text that parses to a specification that is well typed, where
  -- products of degrees wrap around at 2^32. Its GPUs satisfy the specification on the graph: for
  -- each axis that is placed, healthy nodes of its degree, each two joined by NVLink of the first
  -- bandwidth that it asks for, or each joined to the next by InfiniBand of the first number of hops
  -- that it asks for; `_NUMA` and further limits are not looked at. None of the GPUs was reserved
  -- before.
  pub schedule_sound :
      (a : Placement F)
      → (schedule std lib c s job).0 ≡ ok a
      → a.placed ≡ true
      → (spec : TopologySpec F) × (parse std job.topology_dsl ≡ ok spec)
        × WellTyped wrapping spec
        × Satisfies std lib laws c spec a.gpu_ids
        × All (λ id. ¬ Mem id s.reserved) a.gpu_ids
  unfolding schedule
  schedule_sound a answered placed = elim (Result-cases (parse std job.topology_dsl)) [
    | inr (e, bad) ↦ cc (rw (schedule, bad) at answered)
    | inl (spec, good) ↦ elim (Bool-cases (is_empty (type_check spec))) [
      | inr wrong ↦ let refused = rw (schedule, good, wrong) at answered in cc
      | inl fine ↦
          let r = solve std lib c spec in
          let same : (reserve s job.job_id r).0 ≡ a = cc (rw (schedule, good, fine) at answered) in
          let here : (reserve s job.job_id r).0.placed ≡ true = ap Placement.placed same ∙ placed in
          let (p, free) = reserve-placed s job.job_id r here in
          let ids : r.gpu_ids ≡ a.gpu_ids =
            sym (reserve_ids s job.job_id r here) ∙ ap Placement.gpu_ids same in
          (
            spec,
            good,
            (type_check-wrapping spec).0 (is_empty-eq-nil (type_check spec) fine),
            subst (Satisfies std lib laws c spec) ids (solve_sound std lib laws c spec p),
            subst (All (λ id. ¬ Mem id s.reserved)) ids (disjoint_arms s.reserved r.gpu_ids free),
          )
    ]
  ]
