-- ===== src/Topology/Service/Exact.antt =====
-- No GPU stays reserved without a job, as long as no job is scheduled again while it holds GPUs.
use text.Mathlib.Text.{◌==◌ as str_eq}
use text.Mathlib.TextEquality.{eq_iff}
use nemesis.Prelude.{
  any, has_id, get, remove_key, List, [], ◌∷◌, none, some, String, ◌≡◌, ◌≢◌, refl, sym, ap, ◌∙◌,
  subst, Mem, All, Pairs, Bool-cases, Option-cases, Result-cases, inl, inr,
}
use nemesis.Topology.RustStd.{RustStd}
use nemesis.Topology.Checker.{type_check}
use nemesis.Topology.Solver.{PlacementResult, solve}
use nemesis.Topology.Service.{JobSpec, ServiceState, parse, reserve, release, schedule, is_empty}
use nemesis.Graph.Petgraph.{UnGraph}
use nemesis.Graph.Cluster.{GpuNode, Link, ClusterGraph}
use nemesis.Topology.Service.Held.{IsValid, Entry}
use nemesis.Topology.Service.Calls.{
  Call, schedule_call, release_call, run_calls, schedule-IsValid, release-IsValid, taken,
}
use nemesis.Topology.Service.Release.{insert_all-cases, remove_all-parts, remove_key_fresh}

-- Some job holds the GPU.
abbrev pub Holding : List Entry → String → Type 0
Holding m id = (e : Entry) × Mem e m × Mem id e.1

-- Each reserved GPU is held by a job.
abbrev pub IsExact : ServiceState → Type 0
IsExact s = (id : String) → Mem id s.reserved → Holding s.job_reservations id

remove_key_absent : (k : String) (m : List Entry) → All (λ e. k ≢ e.0) m → remove_key k m ≡ m
remove_key_absent k [] h = refl
remove_key_absent k ((j, v) ∷ m) h = elim (Bool-cases (str_eq j k)) [
  | inl e ↦ absurd (h.0 (sym ((eq_iff j k).0 e)))
  | inr e ↦ rw e (ap (λ l. (j, v) ∷ l) (remove_key_absent k m h.1))
]

-- A GPU that the removed entry does not hold is held by one that is left.
remove_key-Holding :
    (k : String) (m : List Entry) (ids : List String) (id : String)
    → Pairs (λ d e. d.0 ≢ e.0) m
    → get k m ≡ some ids
    → ¬ Mem id ids
    → Holding m id
    → Holding (remove_key k m) id
unfolding get
remove_key-Holding k [] ids id one found out (e, at, m) = absurd at
remove_key-Holding k ((j, v) ∷ rest) ids id one found out (e, at, m) =
    elim (Bool-cases (str_eq j k)) [
      | inl same ↦
          let here : v ≡ ids = cc (rw same at found) in
          let keys : All (λ d. k ≢ d.0) rest =
            subst (λ s. All (λ d. s ≢ d.0) rest) ((eq_iff j k).0 same) one.0 in
          elim at [
            | inl head ↦ absurd (out (subst (Mem id) (ap (λ d. d.1) head ∙ here) m))
            | inr tail ↦ rw (same, remove_key_absent k rest keys) (e, tail, m)
          ]
      | inr other ↦ elim at [
        | inl head ↦ rw other (e, inl head, m)
        | inr tail ↦
            let (d, at', m') =
              remove_key-Holding k rest ids id one.1 (rw other at found) out (e, tail, m) in
            rw other (d, inr at', m')
      ]
    ]

module _ {F : Type 0} (s : ServiceState) (job_id : String) (r : PlacementResult F) where
  taken-IsExact : get job_id s.job_reservations ≡ none → IsExact s → IsExact (taken s job_id r)
  taken-IsExact fresh exact id m = elim (insert_all-cases r.gpu_ids s.reserved id m) [
    | inl new ↦ ((job_id, r.gpu_ids), inl refl, new)
    | inr old ↦
        let (e, at, k) = exact id old in
        (e, inr (rw (remove_key_fresh job_id s.job_reservations fresh) at), k)
  ]

  reserve-IsExact :
      get job_id s.job_reservations ≡ none → IsExact s → IsExact (reserve s job_id r).1
  unfolding reserve
  reserve-IsExact fresh exact = elim (Bool-cases r.placed) [
    | inl p ↦ elim (Bool-cases (any (has_id s.reserved) r.gpu_ids)) [
      | inl e ↦ rw (reserve, p, e) exact
      | inr free ↦ rw (reserve, p, free) (taken-IsExact fresh exact)
    ]
    | inr unplaced ↦ rw (reserve, unplaced) exact
  ]

release-IsExact :
    (s : ServiceState) (job_id : String) → IsValid s → IsExact s → IsExact (release s job_id)
unfolding release
release-IsExact s job_id v exact = elim (Option-cases (get job_id s.job_reservations)) [
  | inl nothing ↦ rw (release, nothing) exact
  | inr (ids, found) ↦
      rw (release, found)
        λ id m.
          let (out, old) = remove_all-parts ids s.reserved id m in
          remove_key-Holding job_id s.job_reservations ids id v.one_entry found out (exact id old)
]

module _ {F G : Type 0} (std : RustStd F) (lib : UnGraph GpuNode (Link F) G) where
  schedule-IsExact :
      (c : ClusterGraph G) (s : ServiceState) (job : JobSpec)
      → get job.job_id s.job_reservations ≡ none
      → IsExact s
      → IsExact (schedule std lib c s job).1
  unfolding schedule
  schedule-IsExact c s job fresh exact = elim (Result-cases (parse std job.topology_dsl)) [
    | inr (e, bad) ↦ rw (schedule, bad) exact
    | inl (spec, good) ↦ elim (Bool-cases (is_empty (type_check spec))) [
      | inl fine ↦
          rw (schedule, good, fine)
            (reserve-IsExact s job.job_id (solve std lib c spec) fresh exact)
      | inr wrong ↦ rw (schedule, good, wrong) exact
    ]
  ]

  -- No job is scheduled while it holds GPUs.
  abbrev pub NoneAgain : ServiceState → List (Call G) → Type 0
  NoneAgain s [] = Unit
  NoneAgain s (schedule_call c job ∷ calls) =
      (get job.job_id s.job_reservations ≡ none) × NoneAgain (schedule std lib c s job).1 calls
  NoneAgain s (release_call job_id ∷ calls) = NoneAgain (release s job_id) calls

  -- In a valid state in which each reserved GPU is held by a job, let calls of `schedule` and
  -- `release` follow one another, on whatever graphs, where no job is scheduled while it holds
  -- GPUs. Then each reserved GPU is still held by a job.
  pub reservations-IsExact :
      (s : ServiceState) (calls : List (Call G))
      → IsValid s
      → IsExact s
      → NoneAgain s calls
      → IsExact (run_calls std lib s calls)
  unfolding run_calls
  reservations-IsExact s [] v exact once = exact
  reservations-IsExact s (schedule_call c job ∷ calls) v exact once =
      reservations-IsExact (schedule std lib c s job).1 calls (schedule-IsValid std lib c s job v)
        (schedule-IsExact c s job once.0 exact) once.1
  reservations-IsExact s (release_call job_id ∷ calls) v exact once =
      reservations-IsExact (release s job_id) calls (release-IsValid s job_id v)
        (release-IsExact s job_id v exact) once
