-- ===== src/Topology/Service/Refused.antt =====
-- A second job with the text of one that is placed.
use nemesis.Prelude.{
  any, has_id, has_id_sound, true, List, [], ◌∷◌, String, ◌≡◌, ◌≢◌, refl, sym, ap, ◌∙◌, subst,
  Bool-cases, Result-cases, inl, inr, ok,
}
use nemesis.Topology.RustStd.{RustStd}
use nemesis.Topology.Checker.{type_check}
use nemesis.Topology.Solver.{PlacementResult, solve}
use nemesis.Topology.Service.{
  JobSpec, ServiceState, Placement, refused_by, already_reserved, parse, reserve, schedule,
  is_empty, insert_all,
}
use nemesis.Graph.Petgraph.{UnGraph}
use nemesis.Graph.Cluster.{GpuNode, Link, ClusterGraph}
use nemesis.Topology.Service.Held.{insert_all_new}
use nemesis.Topology.Service.Calls.{reserve-placed}
use nemesis.Topology.Service.Pipeline.{reserve_ids}
use nemesis.Topology.Service.Reuse.{schedule-reserve}

any_taken : (ids set : List String) → ids ≢ [] → any (has_id (insert_all ids set)) ids ≡ true
any_taken [] set some_id = absurd (some_id refl)
any_taken (id ∷ ids) set some_id = elim (Bool-cases (has_id (insert_all (id ∷ ids) set) id)) [
  | inl e ↦ rw e refl
  | inr e ↦
      absurd (
        has_id_sound (insert_all (id ∷ ids) set) id e (insert_all_new (id ∷ ids) set id (inl refl)))
]

module _ {F : Type 0} (s : ServiceState) (id next : String) (r : PlacementResult F) where
  -- What a placement of GPUs leaves refuses the same placement to any job.
  reserve_twice :
      r.gpu_ids ≢ []
      → (reserve s id r).0.placed ≡ true
      → reserve (reserve s id r).1 next r ≡ (refused_by already_reserved, (reserve s id r).1)
  unfolding reserve
  reserve_twice some_gpu placed =
      let (p, free) = reserve-placed s id r placed in
      let taken = any_taken r.gpu_ids s.reserved some_gpu in rw (reserve, p, free, taken) refl

module _ {F G : Type 0} (std : RustStd F) (lib : UnGraph GpuNode (Link F) G)
    (c : ClusterGraph G) where
  -- On one graph, once a job is placed on some GPUs, a job of any id with the same text is refused
  -- with the reason that GPUs are reserved, and nothing changes: however many other GPUs of the
  -- graph would do.
  pub schedule_twice :
      (s : ServiceState) (job : JobSpec) (next : String) (a : Placement F)
      → (schedule std lib c s job).0 ≡ ok a
      → a.placed ≡ true
      → a.gpu_ids ≢ []
      → let s' = (schedule std lib c s job).1 in
        schedule std lib c s' (record job { job_id = next })
        ≡ (ok (refused_by already_reserved), s')
  unfolding schedule
  schedule_twice s job next a answered placed some_gpu =
      elim (Result-cases (parse std job.topology_dsl)) [
        | inr (e, bad) ↦ cc (rw (schedule, bad) at answered)
        | inl (spec, good) ↦ elim (Bool-cases (is_empty (type_check spec))) [
          | inr wrong ↦ let refused = rw (schedule, good, wrong) at answered in cc
          | inl fine ↦
              let r = solve std lib c spec in
              let first = schedule-reserve std lib c s job spec good fine in
              let same : (reserve s job.job_id r).0 ≡ a = cc in
              let here : (reserve s job.job_id r).0.placed ≡ true =
                ap Placement.placed same ∙ placed in
              let ids : r.gpu_ids ≡ a.gpu_ids =
                sym (reserve_ids s job.job_id r here) ∙ ap Placement.gpu_ids same in
              let again =
                schedule-reserve std lib c (reserve s job.job_id r).1 (record job { job_id = next })
                  spec good fine in
              let twice = reserve_twice s job.job_id next r (λ e. some_gpu (sym ids ∙ e)) here in
              subst
                (λ s'.
                  schedule std lib c s' (record job { job_id = next })
                  ≡ (ok (refused_by already_reserved), s'))
                (sym (ap (λ o. o.1) first)) (again ∙ ap (λ o. (ok o.0, o.1)) twice)
        ]
      ]
