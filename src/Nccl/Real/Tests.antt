-- ===== src/Nccl/Real/Tests.antt =====
-- A live communicator of four ranks, and how a call that takes two of them away can go.
use nemesis.Prelude.{
  ◌-◌, ◌≡◌, refl, ◌∷◌, [], decimal, trim, codes, true, false, length, All, ◌≤◌, ◌+◌, ◌++◌, arith,
}
use nemesis.Nccl.Backend.{ShrinkRequest, ShrinkMetrics, no_error}
use nemesis.Nccl.Sim.{as_u32}
use nemesis.Nccl.Real.{
  NcclReal, for_job, World, line, shrink, split_failed, nccl, sent, comm_split, safe_point_request,
  resume_request,
}
use nemesis.Nccl.Real.Phases.{Acknowledges, live_shrink_success}
use nemesis.Nccl.Real.Paused.{Failure, live_shrink_error}
use nemesis.Nccl.Real.Race.{ready, advance, success, GoesWell, shrinks_lose_update}
use nemesis.Nccl.Real.Handle.{SplitsOnly, shrinks, shrinks-SplitsOnly}

abbrev four : NcclReal
four = for_job 139_792 4 (codes "job-1")

abbrev drop_two : ShrinkRequest
drop_two = record {
  communicator_id = codes "job-1";
  job_id = codes "job-1";
  exclude_ranks = 1 ∷ 3 ∷ [];
}

abbrev goes_well : World
goes_well = record {
  safe_point = line (codes "SAFE_POINT_ACK" ++ b'\n' ∷ []);
  panics = false;
  status = 0;
  new_comm = 139_900;
  resume = line (codes "RESUMED" ++ b'\n' ∷ []);
  elapsed_ns = 5_000_000_000;
}

abbrev split_fails : World
split_fails = record goes_well { status = 5 }

abbrev shrunk : ShrinkMetrics
shrunk = record {
  success = true;
  duration_ns = 5_000_000_000;
  active_rank_count = 2;
  error = no_error;
}

request_text :
    safe_point_request (1 ∷ 13 ∷ []) ≡ codes "SAFE_POINT_REQUEST exclude=1,13" ++ b'\n' ∷ []
unfolding decimal
request_text = refl

socket_text : four.socket_path ≡ codes "/tmp/nemesis-hook-job-1.sock"
socket_text = refl

live_shrink_success_example :
    let (r, b', actions) = shrink four goes_well drop_two in
    Acknowledges (codes "SAFE_POINT_ACK") goes_well.safe_point
    × (goes_well.status ≡ 0)
    × Acknowledges (codes "RESUMED") goes_well.resume
    × (actions
        ≡ sent (safe_point_request drop_two.exclude_ranks)
          ∷ comm_split four.comm_ptr goes_well.new_comm
          ∷ sent resume_request
          ∷ [])
    × (b'.active_ranks + as_u32 (length drop_two.exclude_ranks) ≡ four.active_ranks)
    × (1 ≤ b'.active_ranks)
    × (shrunk.active_rank_count ≡ b'.active_ranks)
    × (b'.comm_ptr ≡ four.comm_ptr)
unfolding shrink trim
live_shrink_success_example = live_shrink_success four goes_well drop_two shrunk refl refl

live_shrink_error_example :
    Failure four split_fails drop_two
      (shrink four split_fails drop_two).1
      (shrink four split_fails drop_two).2
unfolding shrink trim
live_shrink_error_example = live_shrink_error four split_fails drop_two (split_failed (nccl 5)) refl

shrinks-SplitsOnly_example :
    let (b', actions) = shrinks four ((goes_well, drop_two) ∷ (split_fails, drop_two) ∷ []) in
    All (SplitsOnly four.comm_ptr) actions × (b'.comm_ptr ≡ four.comm_ptr)
shrinks-SplitsOnly_example =
    shrinks-SplitsOnly four ((goes_well, drop_two) ∷ (split_fails, drop_two) ∷ [])

goes_well-GoesWell : GoesWell goes_well
unfolding trim
goes_well-GoesWell = record { paused = refl; calm = refl; split = refl; resumed = refl }

abbrev drop_one : ShrinkRequest
drop_one = record {
  communicator_id = codes "job-1";
  job_id = codes "job-1";
  exclude_ranks = 0 ∷ [];
}

shrinks_lose_update_example :
    let (p, b1) = advance four goes_well drop_two ready in
    let (p', b2) = advance b1 goes_well drop_one ready in
    let (q, b3) = advance b2 goes_well drop_two p in
    let (q', b4) = advance b3 goes_well drop_one p' in
    (q ≡ success goes_well (four.active_ranks - as_u32 (length drop_two.exclude_ranks)))
    × (q' ≡ success goes_well (four.active_ranks - as_u32 (length drop_one.exclude_ranks)))
    × (b4.active_ranks ≡ four.active_ranks - as_u32 (length drop_one.exclude_ranks))
shrinks_lose_update_example =
    shrinks_lose_update four goes_well goes_well drop_two drop_one (omega arith) (omega arith)
      goes_well-GoesWell goes_well-GoesWell
