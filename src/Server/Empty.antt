-- ===== src/Server/Empty.antt =====
-- The cluster of nemesis-substrate has no GPU: its `main` starts from an empty graph, and no call of
-- its services adds to a graph.
use nemesis.Prelude.{
  true, List, [], ◌∷◌, Option, none, some, String, ◌≡◌, refl, sym, ◌∙◌, subst, All, Mem, Bool-cases,
  Option-cases, inl, inr, ok, err, Result-cases, length, ℕ, ◌<◌, Result, false,
}
use nemesis.Topology.Syntax.{
  ParallelDim, TopologySpec, atom, conjunction, disjunction, Alts, nil, cons,
}
use nemesis.Topology.RustStd.{RustStd}
use nemesis.Topology.Checker.{type_check}
use nemesis.Topology.Solver.{PlacementResult, solve}
use nemesis.Topology.Solver.Satisfies.{Satisfies, SatisfiesSome, solve_sound, solve_refused}
use nemesis.Topology.Service.{
  JobSpec, ServiceState, Placement, DslError, parse, reserve, schedule, is_empty,
}
use nemesis.Graph.Petgraph.{UnGraph, UnGraphLaws}
use nemesis.Graph.Cluster.{GpuNode, Link, new, healthy_gpu_ids, candidates, healthy_at}
use nemesis.Telemetry.Bus.{Broadcast}
use nemesis.Server.{
  Server, Call, ingest_call, publish_call, subscribe_call, snapshot_call, validate_call,
  topology_call, schedule_call, release_call, register_call, shrink_call, expand_call,
  playbook_call, Answer, placement, serve, run, ingest, get_cluster_state,
}
use nemesis.Server.Start.{start_substrate}
use nemesis.Server.Safe.{run-IsSound, unchecked-Calm, start_substrate-IsSound}

abbrev pub NoGpus : {F : Type 0} → Result (Placement F) (DslError F) → Type 0
NoGpus (ok a) = a.gpu_ids ≡ []
NoGpus (err e) = Unit

module _ {F G : Type 0} (std : RustStd F) (lib : UnGraph GpuNode (Link F) G)
    (laws : UnGraphLaws lib) where
  open lib use {node_indices, node_weight, new_undirected}

  no_nodes : node_indices new_undirected ≡ []
  no_nodes =
      elim (node_indices new_undirected) as (λ l. node_indices new_undirected ≡ l → l ≡ []) [
        | [] ↦ λ e. refl
        | i ∷ is ↦ λ e.
            let (n, w) = laws.indices_total new_undirected i (rw e (inl refl)) in
            cc (laws.new_empty i)
      ]
        refl

  no_healthy : healthy_gpu_ids lib (new lib) ≡ []
  unfolding healthy_gpu_ids candidates new
  no_healthy = rw no_nodes refl

  none_left_of :
      {A : Type 0} (P : A → Type 0) (xs : List A) → ((x : A) → ¬ P x) → All P xs → xs ≡ []
  none_left_of P [] out h = refl
  none_left_of P (x ∷ xs) out h = absurd (out x h.0)

  none_well :
      (nodes : List ℕ) → All (λ i. healthy_at lib new_undirected i ≡ true) nodes → nodes ≡ []
  none_well nodes =
      none_left_of (λ i. healthy_at lib new_undirected i ≡ true) nodes
        λ i h. cc (rw (healthy_at, laws.new_empty i) at h)

  mutual
    unfolding Satisfies new

    satisfied_by_none :
        (spec : TopologySpec F) (ids : List String)
        → Satisfies std lib laws (new lib) spec ids
        → ids ≡ []
    satisfied_by_none (atom (ParallelDim.tp n) cs) ids (bw, nodes, asks, well, clique, e) =
        e ∙ rw (none_well nodes clique.healthy) refl
    satisfied_by_none (atom (ParallelDim.pp n) cs) ids (hops, nodes, asks, well, path, n', e) =
        e ∙ rw (none_well nodes path.well) refl
    satisfied_by_none (atom (ParallelDim.dp n) cs) ids (n', among) =
        none_left_of (λ id. Mem id (healthy_gpu_ids lib (new lib))) ids (λ id m. rw no_healthy at m)
          among
    satisfied_by_none (conjunction l r) ids (ls, rs, e, apart, a, b) =
        e ∙ rw (satisfied_by_none l ls a, satisfied_by_none r rs b) refl
    satisfied_by_none (disjunction alts) ids h = some_satisfied_by_none alts ids h

    some_satisfied_by_none :
        (alts : Alts F) (ids : List String)
        → SatisfiesSome std lib laws (new lib) alts ids
        → ids ≡ []
    some_satisfied_by_none nil ids h = absurd h
    some_satisfied_by_none (cons alt alts) ids (inl h) = satisfied_by_none alt ids h
    some_satisfied_by_none (cons alt alts) ids (inr h) = some_satisfied_by_none alts ids h

  -- An answer of the solver, and of the scheduler, on the graph without GPUs.
  solve_none : (spec : TopologySpec F) → (solve std lib (new lib) spec).gpu_ids ≡ []
  solve_none spec = elim (Bool-cases (solve std lib (new lib) spec).placed) [
    | inl e ↦ satisfied_by_none spec _ (solve_sound std lib laws (new lib) spec e)
    | inr e ↦ solve_refused std lib laws (new lib) spec e
  ]

  reserve_none :
      (s : ServiceState) (job_id : String) (r : PlacementResult F)
      → r.gpu_ids ≡ []
      → (reserve s job_id r).0.gpu_ids ≡ []
  unfolding reserve
  reserve_none s job_id r e = elim (Bool-cases r.placed) [
    | inl p ↦ rw (reserve, p, e) refl
    | inr p ↦ rw (reserve, p) e
  ]

  schedule_none : (s : ServiceState) (job : JobSpec) → NoGpus (schedule std lib (new lib) s job).0
  unfolding schedule
  schedule_none s job = elim (Result-cases (parse std job.topology_dsl)) [
    | inr (e, bad) ↦ rw (schedule, bad) tt
    | inl (spec, good) ↦ elim (Bool-cases (is_empty (type_check spec))) [
      | inl fine ↦ rw (schedule, good, fine) (reserve_none s job.job_id _ (solve_none spec))
      | inr wrong ↦ rw (schedule, good, wrong) refl
    ]
  ]

-- An answer to `schedule` that names no GPU, or an answer to another call.
abbrev pub GpuFree : {F A R : Type 0} → Answer F A R → Type 0
GpuFree (placement a) = NoGpus a
GpuFree _ = Unit

module _ {F G A E B R : Type 0} (std : RustStd F) (lib : UnGraph GpuNode (Link F) G)
    (laws : UnGraphLaws lib) (channels : Broadcast E B R) (gpu_id : A → String) (W : ℕ) where
  -- What a call or a sequence of calls leaves on the graph without GPUs, unless it panics.
  abbrev Left : Option (Answer F A R × Server G A B) → Type 0
  Left none = Unit
  Left (some (answer, s)) = GpuFree answer × (s.graph ≡ new lib)

  abbrev LeftAll : Option (List (Answer F A R) × Server G A B) → Type 0
  LeftAll none = Unit
  LeftAll (some (answers, s)) = All GpuFree answers

  serve_none :
      (s : Server G A B) (call : Call A E)
      → s.graph ≡ new lib
      → Left (serve std lib channels gpu_id W false s call)
  unfolding serve
  serve_none s (ingest_call x) h = elim (Option-cases (ingest gpu_id W s.store x)) [
    | inl e ↦ rw e tt
    | inr (store, e) ↦ rw e (tt, h)
  ]
  serve_none s (snapshot_call now) h =
      elim (Option-cases (get_cluster_state lib gpu_id W s.store s.graph now)) [
        | inl e ↦ rw e tt
        | inr (snap, e) ↦ rw e (tt, h)
      ]
  serve_none s (schedule_call job) h = (
    subst (λ c. NoGpus (schedule std lib c s.scheduler job).0) (sym h)
        (schedule_none std lib laws s.scheduler job),
    h,
  )
  serve_none s (publish_call event) h = (tt, h)
  serve_none s (subscribe_call filter) h = (tt, h)
  serve_none s (validate_call job) h = (tt, h)
  serve_none s topology_call h = (tt, h)
  serve_none s (release_call job_id) h = (tt, h)
  serve_none s (register_call comm_id job_id world_size) h = (tt, h)
  serve_none s (shrink_call req) h = (tt, h)
  serve_none s (expand_call req) h = (tt, h)
  serve_none s (playbook_call loaded parameters elapsed_ns) h = (tt, h)

  run_none :
      (calls : List (Call A E)) (s : Server G A B)
      → s.graph ≡ new lib
      → LeftAll (run std lib channels gpu_id W false s calls)
  unfolding run
  run_none [] s h = tt
  run_none (call ∷ calls) s h = elim (Option-cases (serve std lib channels gpu_id W false s call)) [
    | inl e ↦ rw (run, e) tt
    | inr ((answer, s'), e) ↦
        let left : GpuFree answer × (s'.graph ≡ new lib) = rw e at (serve_none s call h) in
        let rest = run_none calls s' left.1 in
        elim (Option-cases (run std lib channels gpu_id W false s' calls)) [
          | inl e' ↦ rw (run, e, e') tt
          | inr ((answers, s''), e') ↦ rw (run, e, e') (left.0, rw e' at rest)
        ]
  ]

  -- Under any calls of its services, one after another, a server that `nemesis-substrate` starts,
  -- built without overflow checks and with rings of a slot or more, answers each, and no answer to
  -- `schedule` names a GPU.
  pub run-GpuFree :
      (calls : List (Call A E))
      → 0 < W
      → (answers : List (Answer F A R)) × (s' : Server G A B) × (run std lib channels gpu_id W false
            (start_substrate lib channels gpu_id W)
            calls
          ≡ some (answers, s'))
        × (length answers ≡ length calls)
        × All GpuFree answers
  unfolding start_substrate
  run-GpuFree calls pos =
      let start = start_substrate lib channels gpu_id W in
      let (answers, s', answered, n, sound, same) =
        run-IsSound std lib channels gpu_id W pos false calls [] start (unchecked-Calm std calls)
          (start_substrate-IsSound std lib channels gpu_id W pos) in
      (answers, s', answered, n, rw answered at (run_none calls start refl))
