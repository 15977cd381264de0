-- ===== src/Server/Placed.antt =====
-- A job on a new simulated cluster, from the text of the request to the reservation.
use text.Mathlib.TextEquality.{eq_iff}
use nemesis.Topology.Service.Calls.{taken}
use nemesis.Prelude.{
  ◌&&◌, true, false, Bool, List, [], ◌∷◌, some, String, ◌≡◌, refl, ap, ◌∙◌, Text, ok, length, arith,
  ℕ, ◌≤◌, any, has_id, map, suc, get, get-insert_key,
}
use nemesis.Topology.Syntax.{ParallelDim, Constraint, TopologySpec, atom}
use nemesis.Topology.RustStd.{RustStd}
use nemesis.Topology.Printer.{Fits, render, Shown, ClassesAscii}
use nemesis.Topology.Printer.RoundTrip.{parse-render}
use nemesis.Topology.Checker.{check_overflows, type_check, check_overflows}
use nemesis.Topology.Checker.Power.{IsPowerOfTwo, pow_pos}
use nemesis.Topology.Checker.Counts.{wrapping}
use nemesis.Topology.Checker.Sound.{WellTyped, type_check-wrapping, tp-WellTyped}
use nemesis.Topology.Solver.{placement, solve, solve_atom, solve_tp, min_bandwidth}
use nemesis.Topology.Service.{
  counts_overflow, JobSpec, initial, answer, reserve, schedule, is_empty, parse,
}
use nemesis.Topology.Service.Reuse.{schedule-reserve}
use nemesis.Graph.Petgraph.{UnGraph, UnGraphLaws, EdgeLaws, CountLaws}
use nemesis.Graph.Cluster.{GpuNode, Link, ClusterGraph}
use nemesis.Graph.Clique.{find_nvlink_clique}
use nemesis.Graph.Clique.Find.{find_nvlink_clique_sound}
use nemesis.Telemetry.Bus.{Broadcast}
use nemesis.Simulator.Cluster.{SimConfig, nvlink_full}
use nemesis.Simulator.Cluster.Built.{from_config_lem}
use nemesis.Simulator.Cluster.Mesh.{from_config-clique}
use nemesis.Server.{Server, placement as placement_answer, schedule_call, serve, counts_overflow}
use nemesis.Server.Start.{serve_cluster, start_simulator}

-- Nothing is reserved at first.
free_at_first : (ids : List String) → any (has_id []) ids ≡ false
unfolding has_id
free_at_first [] = refl
free_at_first (id ∷ ids) = free_at_first ids

module _ {F : Type 0} where
  -- `TPn_NVLbw`.
  abbrev pub tensor_parallel : ℕ → F → TopologySpec F
  tensor_parallel n bw = atom (ParallelDim.tp n) (Constraint.nvl_min bw ∷ [])

module _ {F G : Type 0} (std : RustStd F) (lib : UnGraph GpuNode (Link F) G)
    (laws : UnGraphLaws lib) (count_laws : CountLaws lib) (edge_laws : EdgeLaws lib) where
  solve-tensor_parallel :
      (c : ClusterGraph G) (n : ℕ) (bw : F) (found : List String)
      → find_nvlink_clique lib std.ge c n bw ≡ some found
      → solve std lib c (tensor_parallel n bw) ≡ placement found
  unfolding solve solve_atom solve_tp min_bandwidth
  solve-tensor_parallel c n bw found h = rw (solve, solve_atom, solve_tp, min_bandwidth, h) refl

  length-map : {A B : Type 0} (f : A → B) (xs : List A) → length (map f xs) ≡ length xs
  length-map f [] = refl
  length-map f (x ∷ xs) = ap suc (length-map f xs)

  -- A schedule of a text whose specification the solver places, where nothing is reserved.
  schedule_first :
      (c : ClusterGraph G) (job : JobSpec) (spec : TopologySpec F) (found : List String)
      → parse std job.topology_dsl ≡ ok spec
      → WellTyped wrapping spec
      → solve std lib c spec ≡ placement found
      → schedule std lib c initial job
        ≡ (ok (answer (placement found)), taken {F = F} initial job.job_id (placement found))
  unfolding reserve
  schedule_first c job spec found good typed solved =
      let fine : is_empty (type_check spec) ≡ true =
        ap is_empty ((type_check-wrapping spec).1 typed) in
      schedule-reserve std lib c initial job spec good fine
      ∙ ap (λ r. (ok (reserve initial job.job_id r).0, (reserve initial job.job_id r).1)) solved
      ∙ rw (reserve, free_at_first found) refl

  held_first :
      (job_id : String) (found : List String)
      → get job_id (taken {F = F} initial job_id (placement found)).job_reservations ≡ some found
  held_first job_id found =
      get-insert_key job_id job_id found [] ∙ rw ((eq_iff job_id job_id).1 refl) refl

  module _ (ascii : ClassesAscii std) (show : F → Text) {A D E B R : Type 0}
      (channels : Broadcast E B R) (gpu_id : A → String) (W : ℕ) where
    -- Let the simulator start on a valid time scale, with all its GPUs, at most 92,682 of them, joined
    -- by NVLink, and let the build have overflow checks or not. Then the text
    -- of a tensor-parallel job, of a degree that is a power of two, at most 8 and at most the number
    -- of GPUs, with a bandwidth that is at most the configured one and is read back from its print,
    -- is the first call that the server answers with a placement on so many GPUs, which are then
    -- held by the job.
    pub first_job_placed :
        (overflow_checks : Bool) (positive is_finite : D → Bool) (gbps : ℕ → F)
        (cfg : SimConfig F D) (job_id : String) (n : ℕ) (bw : F)
        → positive cfg.time_scale ≡ true
        → is_finite cfg.time_scale ≡ true
        → cfg.cluster.topology ≡ nvlink_full
        → IsPowerOfTwo n
        → n ≤ 8
        → n ≤ cfg.cluster.gpu_count
        → cfg.cluster.gpu_count ≤ 92_682
        → Shown std show bw
        → std.ge cfg.cluster.nvlink_gbps bw ≡ true
        → (server : Server G A B) × (server' : Server G A B) × (found : List String)
          × (start_simulator lib channels gpu_id W positive is_finite gbps cfg ≡ some (ok server))
          × (serve std lib channels gpu_id W overflow_checks server (
                schedule_call (record {
                  job_id = job_id;
                  topology_dsl = render std show (tensor_parallel n bw);
                }))
              ≡ some (placement_answer (ok (answer (placement found))), server'))
          × (length found ≡ n)
          × (get job_id server'.scheduler.job_reservations ≡ some found)
    unfolding start_simulator serve_cluster serve counts_overflow check_overflows
    first_job_placed checks positive is_finite gbps cfg job_id n bw pos fin full power small fits
          few shown enough =
        let some_gpu : 1 ≤ cfg.cluster.gpu_count = omega (arith, power.1, pow_pos power.0) in
        let (sim, built, count, apart, known, h) =
          from_config_lem lib laws count_laws gbps cfg some_gpu few in
        let (found, clique) =
          from_config-clique lib laws count_laws edge_laws std.ge gbps cfg sim n bw some_gpu few
            full built fits enough in
        let (nodes, is_clique, ids) =
          find_nvlink_clique_sound lib std.ge sim.graph n bw found clique in
        let spec = tensor_parallel n bw in
        let job : JobSpec = record { job_id = job_id; topology_dsl = render std show spec } in
        let good =
          parse-render std ascii show spec tt (unfold Fits in (omega arith, (shown, tt))) in
        let placed =
          schedule_first sim.graph job spec found good (tp-WellTyped wrapping n _ power small)
            (solve-tensor_parallel sim.graph n bw found clique) in
        let calm : (checks && counts_overflow std job) ≡ false =
          rw (counts_overflow, good) (ground arith) in
        let server = serve_cluster lib channels gpu_id W cfg sim in
        (
          server,
          record server { scheduler = taken {F = F} initial job_id (placement found) },
          found,
          rw (start_simulator, pos, fin, built) refl,
          rw (calm)
              (ap (λ r. some (placement_answer r.0, record server { scheduler = r.1 })) placed),
          ap length ids ∙ length-map _ nodes ∙ is_clique.count,
          held_first job_id found,
        )
