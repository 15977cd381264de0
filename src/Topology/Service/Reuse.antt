-- ===== src/Topology/Service/Reuse.antt =====
-- Released GPUs can be scheduled again.
use nemesis.Prelude.{
  true, false, List, [], ◌∷◌, String, none, ◌≡◌, refl, sym, ◌∙◌, ap, Mem, All, has_id,
  has_id_complete, any, get, Bool-cases, inl, inr, ok, All-map, Result-cases,
}
use nemesis.Topology.Syntax.{TopologySpec}
use nemesis.Topology.RustStd.{RustStd}
use nemesis.Topology.Checker.{type_check}
use nemesis.Topology.Solver.{PlacementResult, solve}
use nemesis.Topology.Solver.Satisfies.{disjoint_arms}
use nemesis.Topology.Service.{
  JobSpec, ServiceState, Placement, answer, parse, reserve, release, schedule, is_empty,
}
use nemesis.Topology.Service.Calls.{reserve-placed}
use nemesis.Topology.Service.Release.{release-reserve}
use nemesis.Graph.Petgraph.{UnGraph}
use nemesis.Graph.Cluster.{GpuNode, Link, ClusterGraph}

none_in : (set ids : List String) → All (λ id. ¬ Mem id set) ids → any (has_id set) ids ≡ false
none_in set [] h = refl
none_in set (id ∷ ids) h = elim (Bool-cases (has_id set id)) [
  | inl e ↦ absurd (h.0 (has_id_complete set id e))
  | inr e ↦ rw e (none_in set ids h.1)
]

-- What a placement that nothing stands in the way of answers.
pub reserve-answer :
    {F : Type 0} (s : ServiceState) (id : String) (r : PlacementResult F)
    → r.placed ≡ true
    → any (has_id s.reserved) r.gpu_ids ≡ false
    → (reserve s id r).0 ≡ answer r
unfolding reserve
reserve-answer s id r p free = rw (reserve, p, free)

module _ {F : Type 0} (s : ServiceState) (id next : String) (r : PlacementResult F)
    (fresh : get id s.job_reservations ≡ none) (placed : (reserve s id r).0.placed ≡ true) where
  abbrev freed : ServiceState
  freed = release (reserve s id r).1 id

  still_free : any (has_id freed.reserved) r.gpu_ids ≡ false
  still_free =
      let (p, free) = reserve-placed s id r placed in
      none_in freed.reserved r.gpu_ids (
        All-map (λ g. ¬ Mem g s.reserved) (λ g. ¬ Mem g freed.reserved) r.gpu_ids
          (λ g out m. out ((release-reserve s id r g fresh placed).1.0 m))
          (disjoint_arms s.reserved r.gpu_ids free))

  reserve_again : (reserve freed next r).0 ≡ (reserve s id r).0
  reserve_again =
      let (p, free) = reserve-placed s id r placed in
      reserve-answer freed next r p still_free ∙ sym (reserve-answer s id r p free)

module _ {F G : Type 0} (std : RustStd F) (lib : UnGraph GpuNode (Link F) G)
    (c : ClusterGraph G) where
  -- What `schedule` does with a text of a well-typed specification.
  pub schedule-reserve :
      (s : ServiceState) (job : JobSpec) (spec : TopologySpec F)
      → parse std job.topology_dsl ≡ ok spec
      → is_empty (type_check spec) ≡ true
      → let (answered, s') = reserve s job.job_id (solve std lib c spec) in
        schedule std lib c s job ≡ (ok answered, s')
  unfolding schedule
  schedule-reserve s job spec good fine = rw (schedule, good, fine)

  -- On one graph, once a job that held nothing is placed and released, a job of any id with the
  -- same text is placed on the same GPUs.
  pub schedule-release :
      (s : ServiceState) (job : JobSpec) (next : String) (a : Placement F)
      → get job.job_id s.job_reservations ≡ none
      → (schedule std lib c s job).0 ≡ ok a
      → a.placed ≡ true
      → (schedule std lib c
          (release (schedule std lib c s job).1 job.job_id)
          (record job { job_id = next })).0
        ≡ ok a
  unfolding schedule
  schedule-release s job next a fresh answered placed =
      elim (Result-cases (parse std job.topology_dsl)) [
        | inr (e, bad) ↦ cc (rw (schedule, bad) at answered)
        | inl (spec, good) ↦ elim (Bool-cases (is_empty (type_check spec))) [
          | inr wrong ↦ let refused = rw (schedule, good, wrong) at answered in cc
          | inl fine ↦
              let r = solve std lib c spec in
              let first = schedule-reserve s job spec good fine in
              let same : (reserve s job.job_id r).0 ≡ a = cc in
              let here : (reserve s job.job_id r).0.placed ≡ true =
                ap Placement.placed same ∙ placed in
              let again =
                schedule-reserve (freed s job.job_id next r fresh here)
                  (record job { job_id = next }) spec good fine in
              ap
                (λ o.
                  (schedule std lib c (release o.1 job.job_id) (record job { job_id = next })).0)
                first
              ∙ ap (λ o. o.0) again
              ∙ ap ok (reserve_again s job.job_id next r fresh here ∙ same)
        ]
      ]
