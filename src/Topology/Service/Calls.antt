-- ===== src/Topology/Service/Calls.antt =====
-- The reservations as calls of `schedule` and `release` follow one another.
use nemesis.Prelude.{
  Sub-remove_key, get, has_id, insert_key, remove_key, remove_key_gone, true, false, List, [], ◌∷◌,
  String, ◌≡◌, ◌≢◌, Mem, All, All-Sub, Pairs-Sub, All-map, any, All→Mem, Bool-cases, Option-cases,
  inl, inr, Result-cases,
}
use nemesis.Topology.RustStd.{RustStd}
use nemesis.Topology.Solver.{PlacementResult, solve}
use nemesis.Topology.Solver.Satisfies.{disjoint_arms}
use nemesis.Topology.Service.{
  JobSpec, ServiceState, insert_all, remove_all, parse, reserve, release, schedule, is_empty,
}
use nemesis.Topology.Checker.{type_check}
use nemesis.Graph.Petgraph.{UnGraph}
use nemesis.Graph.Cluster.{GpuNode, Link, ClusterGraph}
use nemesis.Topology.Service.Held.{
  IsValid, Within, Apart, insert_all_old, insert_all_new, remove_all_keeps, remove_key-Apart,
  All-self_of,
}

module _ {F : Type 0} (s : ServiceState) (job_id : String) (r : PlacementResult F) where
  -- What a placement that is answered has passed.
  pub reserve-placed :
      (reserve s job_id r).0.placed ≡ true
      → (r.placed ≡ true) × (any (has_id s.reserved) r.gpu_ids ≡ false)
  unfolding reserve
  reserve-placed h = elim (Bool-cases r.placed) [
    | inl p ↦ elim (Bool-cases (any (has_id s.reserved) r.gpu_ids)) [
      | inl taken ↦ cc (rw (p, taken) at h)
      | inr free ↦ (p, free)
    ]
    | inr unplaced ↦ cc (rw unplaced at h)
  ]

  abbrev pub taken : ServiceState
  taken = record {
    reserved = insert_all r.gpu_ids s.reserved;
    job_reservations = insert_key job_id r.gpu_ids s.job_reservations;
  }

  pub fresh_ids :
      any (has_id s.reserved) r.gpu_ids ≡ false
      → (id : String) → Mem id r.gpu_ids
      → ¬ Mem id s.reserved
  fresh_ids free id m =
      All→Mem (λ i. ¬ Mem i s.reserved) id r.gpu_ids (disjoint_arms s.reserved r.gpu_ids free) m

  pub taken-IsValid : any (has_id s.reserved) r.gpu_ids ≡ false → IsValid s → IsValid taken
  taken-IsValid free v =
      let rest = remove_key job_id s.job_reservations in
      let held : All (λ e. Within e.1 s.reserved) rest =
        All-Sub (λ e. Within e.1 s.reserved) (Sub-remove_key job_id s.job_reservations) v.held in
      record {
        held = (
          insert_all_new r.gpu_ids s.reserved,
          All-map (λ e. Within e.1 s.reserved) (λ e. Within e.1 taken.reserved) rest
              (λ e w id m. insert_all_old r.gpu_ids s.reserved id (w id m)) held,
        );
        apart = (
          All-map (λ e. Within e.1 s.reserved) (λ e. Apart r.gpu_ids e.1) rest
              (λ e w id m k. fresh_ids free id m (w id k)) held,
          Pairs-Sub (λ d e. Apart d.1 e.1) (Sub-remove_key job_id s.job_reservations) v.apart,
        );
        one_entry = (
          remove_key_gone job_id s.job_reservations,
          Pairs-Sub (λ d e. d.0 ≢ e.0) (Sub-remove_key job_id s.job_reservations) v.one_entry,
        );
      }

  pub reserve-IsValid : IsValid s → IsValid (reserve s job_id r).1
  unfolding reserve
  reserve-IsValid v = elim (Bool-cases r.placed) [
    | inl p ↦ elim (Bool-cases (any (has_id s.reserved) r.gpu_ids)) [
      | inl e ↦ rw (reserve, p, e) v
      | inr free ↦ rw (reserve, p, free) (taken-IsValid free v)
    ]
    | inr unplaced ↦ rw (reserve, unplaced) v
  ]

pub release-IsValid : (s : ServiceState) (job_id : String) → IsValid s → IsValid (release s job_id)
unfolding release
release-IsValid s job_id v = elim (Option-cases (get job_id s.job_reservations)) [
  | inl nothing ↦ rw (release, nothing) v
  | inr (ids, found) ↦
      let m = s.job_reservations in
      let rest = remove_key job_id m in
      let sub = Sub-remove_key job_id m in
      let apart = remove_key-Apart job_id m v.apart found in
      let held = All-Sub (λ e. Within e.1 s.reserved) sub v.held in
      let kept : All (λ e. Within e.1 (remove_all ids s.reserved)) rest =
        All-self_of (λ e. Within e.1 (remove_all ids s.reserved)) rest
          λ e at id k.
            remove_all_keeps ids s.reserved id
              (λ a. All→Mem (λ d. Apart ids d.1) e rest apart at id a k)
              (All→Mem (λ d. Within d.1 s.reserved) e rest held at id k) in
      rw (release, found)
        (record {
          held = kept;
          apart = Pairs-Sub (λ d e. Apart d.1 e.1) sub v.apart;
          one_entry = Pairs-Sub (λ d e. d.0 ≢ e.0) sub v.one_entry;
        })
]

-- The calls that change the reservations; a schedule reads the graph of its moment.
pub data Call (G : Type 0) : Type 0 where
  schedule_call : ClusterGraph G → JobSpec → Call G
  release_call : String → Call G

module _ {F G : Type 0} (std : RustStd F) (lib : UnGraph GpuNode (Link F) G) where
  pub schedule-IsValid :
      (c : ClusterGraph G) (s : ServiceState) (job : JobSpec)
      → IsValid s
      → IsValid (schedule std lib c s job).1
  unfolding schedule
  schedule-IsValid c s job v = elim (Result-cases (parse std job.topology_dsl)) [
    | inr (e, bad) ↦ rw (schedule, bad) v
    | inl (spec, good) ↦ elim (Bool-cases (is_empty (type_check spec))) [
      | inl fine ↦ rw (schedule, good, fine) (reserve-IsValid s job.job_id (solve std lib c spec) v)
      | inr wrong ↦ rw (schedule, good, wrong) v
    ]
  ]

  unfoldable pub run_calls : ServiceState → List (Call G) → ServiceState
  run_calls s [] = s
  run_calls s (schedule_call c job ∷ calls) = run_calls (schedule std lib c s job).1 calls
  run_calls s (release_call job_id ∷ calls) = run_calls (release s job_id) calls

  -- From a state of which it holds, however calls of `schedule` and `release` follow one another,
  -- on whatever graphs, it still holds: the GPUs of each job are reserved, no GPU is held by two
  -- jobs, and a job has one entry.
  pub reservations-IsValid :
      (s : ServiceState) (calls : List (Call G)) → IsValid s → IsValid (run_calls s calls)
  unfolding run_calls
  reservations-IsValid s [] v = v
  reservations-IsValid s (schedule_call c job ∷ calls) v =
      reservations-IsValid (schedule std lib c s job).1 calls (schedule-IsValid c s job v)
  reservations-IsValid s (release_call job_id ∷ calls) v =
      reservations-IsValid (release s job_id) calls (release-IsValid s job_id v)
