-- ===== src/Server/Safe.antt =====
-- No call makes a server panic, and each component stays sound while calls of all services follow
-- one another.
use nemesis.Prelude.{
  Bool, false, ◌&&◌, All, get, ℕ, suc, ◌<◌, ◌≤◌, ◌^◌, List, [], ◌∷◌, ◌++◌, some, String, ◌≡◌, refl,
  ap, ◌∙◌, length, append-nil, append_assoc, arith, subst,
}
use nemesis.Topology.RustStd.{RustStd}
use nemesis.Topology.Service.{ServiceState}
use nemesis.Topology.Service.Held
use nemesis.Topology.Service.Calls.{schedule-IsValid, release-IsValid}
use nemesis.Graph.Petgraph.{UnGraph}
use nemesis.Graph.Cluster.{GpuNode, Link, to_proto}
use nemesis.Telemetry.Store.{gpu_ids}
use nemesis.Telemetry.Store.History.{Keeps, ingest_lem}
use nemesis.Telemetry.Service.{ClusterSnapshot, get_cluster_state}
use nemesis.Telemetry.Service.Snapshot.{newest_of, latest_of_lem}
use nemesis.Telemetry.Bus.{Broadcast}
use nemesis.Nccl.Sim.{SimState, sim_backend}
use nemesis.Nccl.Sim.Ranks
use nemesis.Nccl.Healer.{HealerService, register_job, shrink_communicator, expand_communicator}
use nemesis.Nccl.Contract.BackEnds.{sim_backend-Promises}
use nemesis.Nccl.Contract.Shrunk.{execute_playbook_le}
use nemesis.Simulator.Cluster.{SimConfig, SimCluster}
use nemesis.Server.{
  Server, Call, ingest_call, publish_call, subscribe_call, snapshot_call, validate_call,
  topology_call, schedule_call, release_call, register_call, shrink_call, expand_call,
  playbook_call, Answer, acknowledged, snapshot, serve, run, register_job, validation,
  counts_overflow, validate, placement, schedule,
}
use nemesis.Server.Start.{start_substrate, serve_cluster}

abbrev pub sample_of : {A E : Type 0} → Call A E → List A
sample_of (ingest_call x) = x ∷ []
sample_of _ = []

-- The samples that arrive in a sequence of calls.
abbrev pub samples_of : {A E : Type 0} → List (Call A E) → List A
samples_of [] = []
samples_of (call ∷ calls) = sample_of call ++ samples_of calls

module _ {F A E : Type 0} (std : RustStd F) where
  -- No product of degrees overflows in a build that checks for it.
  abbrev pub Calm : Bool → Call A E → Type 0
  Calm checks (validate_call job) = (checks && counts_overflow std job) ≡ false
  Calm checks (schedule_call job) = (checks && counts_overflow std job) ≡ false
  Calm checks _ = Unit

  unchecked_call-Calm : (call : Call A E) → Calm false call
  unchecked_call-Calm (ingest_call x) = tt
  unchecked_call-Calm (publish_call event) = tt
  unchecked_call-Calm (subscribe_call filter) = tt
  unchecked_call-Calm (snapshot_call now) = tt
  unchecked_call-Calm (validate_call job) = refl
  unchecked_call-Calm topology_call = tt
  unchecked_call-Calm (schedule_call job) = refl
  unchecked_call-Calm (release_call job_id) = tt
  unchecked_call-Calm (register_call comm_id job_id world_size) = tt
  unchecked_call-Calm (shrink_call req) = tt
  unchecked_call-Calm (expand_call req) = tt
  unchecked_call-Calm (playbook_call loaded parameters elapsed_ns) = tt

  -- In a build without overflow checks each sequence of calls is calm.
  pub unchecked-Calm : (calls : List (Call A E)) → All (Calm false) calls
  unchecked-Calm [] = tt
  unchecked-Calm (call ∷ calls) = (unchecked_call-Calm call, unchecked-Calm calls)

module _ {F G A E B R : Type 0} (std : RustStd F) (lib : UnGraph GpuNode (Link F) G)
    (channels : Broadcast E B R) (gpu_id : A → String) (W : ℕ) (pos : 0 < W) where
  -- The store answers for the samples, no GPU is held twice, and the back end has active ranks.
  pub record IsSound (hist : List A) (s : Server G A B) : Type 0 where
    pub history : Keeps gpu_id W pos hist s.store
    pub reservations : Held.IsValid s.scheduler
    pub ranks : Ranks.IsValid s.healer.backend

  -- A call that is answered, with what it leaves.
  abbrev Served : Bool → List A → Server G A B → Call A E → Type 0
  Served checks hist s call =
      (answer : Answer F A R) × (s' : Server G A B) × (serve std lib channels gpu_id W checks s call
        ≡ some (answer, s'))
      × IsSound (hist ++ sample_of call) s'
      × (s'.graph ≡ s.graph)

  with_scheduler :
      (hist : List A) (s : Server G A B) (scheduler : ServiceState)
      → IsSound hist s
      → Held.IsValid scheduler
      → IsSound (hist ++ []) (record s { scheduler = scheduler })
  with_scheduler hist s scheduler h v =
      rw append-nil (record { history = h.history; reservations = v; ranks = h.ranks })

  with_healer :
      (hist : List A) (s : Server G A B) (healer : HealerService SimState)
      → IsSound hist s
      → Ranks.IsValid healer.backend
      → IsSound (hist ++ []) (record s { healer = healer })
  with_healer hist s healer h v =
      rw append-nil (record { history = h.history; reservations = h.reservations; ranks = v })

  with_bus :
      (hist : List A) (s : Server G A B) (bus : B)
      → IsSound hist s
      → IsSound (hist ++ []) (record s { bus = bus })
  with_bus hist s bus h =
      rw append-nil (record { history = h.history; reservations = h.reservations; ranks = h.ranks })

  get_cluster_state-total :
      (hist : List A) (s : Server G A B) (now : ℕ)
      → Keeps gpu_id W pos hist s.store
      → (snap : ClusterSnapshot F A) × (get_cluster_state lib gpu_id W s.store s.graph now
          ≡ some snap)
  unfolding get_cluster_state
  get_cluster_state-total hist s now keeps =
      let ids = gpu_ids gpu_id W s.store in
      (
        record {
          topology = to_proto lib s.graph;
          latest = newest_of gpu_id W pos hist ids;
          taken_ns = now;
        },
        rw (get_cluster_state, latest_of_lem gpu_id W pos hist s.store keeps ids) refl,
      )

  serve-Served :
      (checks : Bool) (hist : List A) (s : Server G A B) (call : Call A E)
      → Calm std checks call
      → IsSound hist s
      → Served checks hist s call
  unfolding serve register_job shrink_communicator expand_communicator
  serve-Served checks hist s (ingest_call x) calm h =
      let (store, kept, keeps) = ingest_lem gpu_id W pos hist x s.store h.history in
      (
        acknowledged,
        record s { store = store },
        rw (serve, kept) refl,
        record { history = keeps; reservations = h.reservations; ranks = h.ranks },
        refl,
      )
  serve-Served checks hist s (publish_call event) calm h = (_, _, refl, with_bus hist s _ h, refl)
  serve-Served checks hist s (subscribe_call filter) calm h =
      (_, _, refl, with_bus hist s _ h, refl)
  serve-Served checks hist s (snapshot_call now) calm h =
      let (snap, read) = get_cluster_state-total hist s now h.history in
      (snapshot snap, s, rw (serve, read) refl, rw append-nil h, refl)
  serve-Served checks hist s (validate_call job) calm h =
      (validation (validate std job), s, rw (serve, calm) refl, rw append-nil h, refl)
  serve-Served checks hist s topology_call calm h = (_, s, refl, rw append-nil h, refl)
  serve-Served checks hist s (schedule_call job) calm h = (
    placement (schedule std lib s.graph s.scheduler job).0,
    record s { scheduler = (schedule std lib s.graph s.scheduler job).1 },
    rw (serve, calm) refl,
    with_scheduler hist s _ h (schedule-IsValid std lib s.graph s.scheduler job h.reservations),
    refl,
  )
  serve-Served checks hist s (release_call job_id) calm h = (
    _,
    _,
    refl,
    with_scheduler hist s _ h (release-IsValid s.scheduler job_id h.reservations),
    refl,
  )
  serve-Served checks hist s (register_call comm_id job_id world_size) calm h =
      (_, _, refl, with_healer hist s _ h h.ranks, refl)
  serve-Served checks hist s (shrink_call req) calm h =
      (_, _, refl, with_healer hist s _ h (Ranks.shrink-IsValid s.healer.backend req h.ranks), refl)
  serve-Served checks hist s (expand_call req) calm h =
      (_, _, refl, with_healer hist s _ h (Ranks.expand-IsValid s.healer.backend req h.ranks), refl)
  serve-Served checks hist s (playbook_call loaded parameters elapsed_ns) calm h = (
    _,
    _,
    refl,
    with_healer hist s _ h (
        (execute_playbook_le sim_backend (λ b. b.active_ranks) Ranks.IsValid sim_backend-Promises
          (λ e. e) s.healer loaded parameters elapsed_ns h.ranks).0),
    refl,
  )

  -- Put a sound server, whose rings have a slot or more, under any calls of its services, one after
  -- another, where no product of degrees that a text asks for overflows if the build checks for it.
  -- No index is out of a ring's range, each call is answered, and the server stays sound: the store
  -- answers for the samples that arrived before and meanwhile, each GPU of a job is reserved and no
  -- two jobs hold one, and the back end has from 1 to 2^32 - 1 active ranks. The graph stays as it
  -- is, although the scheduler's header expects the telemetry service to change it.
  pub run-IsSound :
      (checks : Bool) (calls : List (Call A E)) (hist : List A) (s : Server G A B)
      → All (Calm std checks) calls
      → IsSound hist s
      → (answers : List (Answer F A R)) × (s' : Server G A B) × (run std lib channels gpu_id W
            checks s calls
          ≡ some (answers, s'))
        × (length answers ≡ length calls)
        × IsSound (hist ++ samples_of calls) s'
        × (s'.graph ≡ s.graph)
  unfolding run
  run-IsSound checks [] hist s calm h = ([], s, refl, refl, rw append-nil h, refl)
  run-IsSound checks (call ∷ calls) hist s (calm, still) h =
      let (answer, s', one, h', same) = serve-Served checks hist s call calm h in
      let (answers, s'', more, n, h'', same') =
        run-IsSound checks calls (hist ++ sample_of call) s' still h' in
      (
        answer ∷ answers,
        s'',
        rw (run, one, more) refl,
        ap suc n,
        subst (λ l. IsSound l s'') (append_assoc hist (sample_of call) (samples_of calls)) h'',
        same' ∙ same,
      )

  -- Both servers start sound, the simulator's with fewer than 2^32 GPUs and at least one.
  pub start_substrate-IsSound : IsSound [] (start_substrate lib channels gpu_id W)
  unfolding start_substrate get
  start_substrate-IsSound = record {
    history = λ id. refl;
    reservations = Held.IsValid-initial;
    ranks = omega arith;
  }

  pub serve_cluster-IsSound :
      {D : Type 0} (cfg : SimConfig F D) (sim : SimCluster F G)
      → 1 ≤ cfg.cluster.gpu_count
      → cfg.cluster.gpu_count < 2 ^ 32
      → IsSound [] (serve_cluster lib channels gpu_id W cfg sim)
  unfolding serve_cluster get
  serve_cluster-IsSound cfg sim some_gpu small = record {
    history = λ id. refl;
    reservations = Held.IsValid-initial;
    ranks = omega arith;
  }
