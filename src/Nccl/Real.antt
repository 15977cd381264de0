-- ===== src/Nccl/Real.antt =====
-- substrate/crates/nemesis-nccl/src/real.rs: the back end that shrinks a live communicator, over
-- the hook in the training process and the NCCL library. What these answer is an argument of a
-- call: the hook's socket in each of two exchanges, the status of `ncclCommSplit`, whether its
-- task panics, and the clock. A call returns what it did to them, in order.
pub mod Phases
pub mod Paused
pub mod Handle
pub mod Race
mod Tests
use nemesis.Prelude.{
  ℕ, ◌+◌, ◌-◌, ◌%◌, ◌^◌, Bool, true, false, List, [], ◌∷◌, ◌++◌, String, Result, ok, err, ◌>>=◌,
  leb, ◌==◌, length, map, if◌then◌else◌, Text, codes, text_eq, decimal, join, trim,
}
use nemesis.Nccl.Backend.{
  ShrinkRequest, ExpandRequest, ShrinkMetrics, ExpandMetrics, NcclBackend, no_error,
  real_cannot_exclude,
}
use nemesis.Nccl.Sim.{as_u32}

-- How far one exchange with the hook gets: a call of the socket fails, or a line is read.
pub data Reply : Type 0 where
  connect_failed timeout_failed write_failed flush_failed read_failed : Reply
  line : Text → Reply

-- The errors; a context is the constructor around another one.
pub data RealError : Type 0 where
  io : Reply → RealError
  unexpected_ack : Text → Text → RealError
  nccl : ℕ → RealError
  task_panicked : RealError
  handshake_failed resume_failed split_failed : RealError → RealError
  not_implemented : ℕ → Text → RealError

-- What reaches the hook and the library. A split has color 0 and key 0; it takes one handle and
-- returns another.
pub data Action : Type 0 where
  sent : Text → Action
  comm_split : ℕ → ℕ → Action

pub record NcclReal : Type 0 where
  pub comm_ptr : ℕ
  pub world_size : ℕ
  pub active_ranks : ℕ
  pub socket_path : Text

abbrev pub new : ℕ → ℕ → Text → NcclReal
new comm_ptr world_size socket_path = record {
  comm_ptr = comm_ptr;
  world_size = world_size;
  active_ranks = world_size;
  socket_path = socket_path;
}

abbrev pub for_job : ℕ → ℕ → Text → NcclReal
for_job comm_ptr world_size job_id =
    new comm_ptr world_size (codes "/tmp/nemesis-hook-" ++ (job_id ++ codes ".sock"))

-- The status of NCCL, the bits of its `c_int`; 0 is success.
abbrev pub nccl_check : ℕ → Result (Unit {0}) RealError
nccl_check rc = if rc == 0 then ok tt else err (nccl rc)

-- What is written in full before an exchange ends.
abbrev pub written : Text → Reply → List Action
written msg connect_failed = []
written msg timeout_failed = []
written msg write_failed = []
written msg _ = sent msg ∷ []

abbrev pub acknowledged : Text → Reply → Result (Unit {0}) RealError
acknowledged expected (line l) =
    if text_eq (trim l) expected then ok tt else err (unexpected_ack (trim l) expected)
acknowledged expected reply = err (io reply)

-- What the world answers in one call of `shrink`.
pub record World : Type 0 where
  pub safe_point : Reply
  pub panics : Bool
  pub status : ℕ
  pub new_comm : ℕ
  pub resume : Reply
  pub elapsed_ns : ℕ

abbrev pub safe_point_request : List ℕ → Text
safe_point_request ranks =
    codes "SAFE_POINT_REQUEST exclude=" ++ (join b',' (map decimal ranks) ++ b'\n' ∷ [])

abbrev pub resume_request : Text
resume_request = codes "RESUME" ++ b'\n' ∷ []

abbrev pub Outcome : Type 0
Outcome = Result ShrinkMetrics RealError × NcclReal × List Action

abbrev pub after : List Action → Outcome → Outcome
after actions (r, b, more) = (r, b, actions ++ more)

-- Phase 3, with the ranks already stored.
unfoldable pub resume_phase : NcclReal → World → Outcome
resume_phase b w =
    after (written resume_request w.resume) (elim (acknowledged (codes "RESUMED") w.resume) [
      | err e ↦ (err (resume_failed e), b, [])
      | ok u ↦ (
        ok (record {
          success = true;
          duration_ns = w.elapsed_ns % 2 ^ 64;
          active_rank_count = b.active_ranks;
          error = no_error;
        }),
        b,
        [],
      )
    ])

-- Phase 2. The handle that the split returns goes into the log, and nowhere else.
unfoldable pub split_phase : NcclReal → World → ℕ → ℕ → Outcome
unfolding resume_phase
split_phase b w current excluded = after (comm_split b.comm_ptr w.new_comm ∷ []) (
    if w.panics then (err task_panicked, b, []) else (elim (nccl_check w.status) [
      | err e ↦ (err (split_failed e), b, [])
      | ok u ↦ resume_phase (record b { active_ranks = current - excluded }) w
    ]))

-- `shrink` behind the check, whose `current` it has loaded.
unfoldable pub quiesce_phase : NcclReal → World → ShrinkRequest → ℕ → Outcome
unfolding split_phase
quiesce_phase b w req current =
    after (written (safe_point_request req.exclude_ranks) w.safe_point)
      (elim (acknowledged (codes "SAFE_POINT_ACK") w.safe_point) [
        | err e ↦ (err (handshake_failed e), b, [])
        | ok u ↦ split_phase b w current (as_u32 (length req.exclude_ranks))
      ])

unfoldable pub shrink : NcclReal → World → ShrinkRequest → Outcome
unfolding quiesce_phase
shrink b w req =
    let excluded = as_u32 (length req.exclude_ranks) in
    if leb b.active_ranks excluded
    then (
      ok (record {
        success = false;
        duration_ns = 0;
        active_rank_count = b.active_ranks;
        error = real_cannot_exclude excluded b.active_ranks;
      }),
      b,
      [],
    )
    else quiesce_phase b w req b.active_ranks

-- `expand` always fails.
unfoldable pub expand : NcclReal → ExpandRequest → Result ExpandMetrics RealError × NcclReal
expand b req = (err (not_implemented (length req.new_gpu_ids) req.communicator_id), b)

-- The trait, where the world is what it is at each call.
abbrev pub real_backend : (NcclReal → ShrinkRequest → World) → NcclBackend NcclReal RealError
real_backend world = record {
  shrink = λ b req. let (result, b', actions) = shrink b (world b req) req in (result, b');
  expand = expand;
}
