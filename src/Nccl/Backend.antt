-- ===== src/Nccl/Backend.antt =====
-- substrate/crates/nemesis-nccl/src/backend.rs: the trait and what a back end returns. A request is the part
-- of the protobuf message that a back end reads.
use nemesis.Prelude.{ℕ, String, List, Bool, Text, Result}

pub record ShrinkRequest : Type 0 where
  pub communicator_id : Text
  pub job_id : Text
  pub exclude_ranks : List ℕ

pub record ExpandRequest : Type 0 where
  pub communicator_id : Text
  pub job_id : Text
  pub new_gpu_ids : List String

-- The texts of `error`: none on success, else the message of the simulated or of the real back
-- end with the values put into it.
pub data BackendError : Type 0 where
  no_error : BackendError
  sim_cannot_exclude real_cannot_exclude : ℕ → ℕ → BackendError

pub record ShrinkMetrics : Type 0 where
  pub success : Bool
  pub duration_ns : ℕ
  pub active_rank_count : ℕ
  pub error : BackendError

pub record ExpandMetrics : Type 0 where
  pub success : Bool
  pub duration_ns : ℕ
  pub active_rank_count : ℕ
  pub error : BackendError

-- The trait: `S` is the state of a back end, `X` its errors. A call is one step.
pub record NcclBackend (S X : Type 0) : Type 0 where
  pub shrink : S → ShrinkRequest → Result ShrinkMetrics X × S
  pub expand : S → ExpandRequest → Result ExpandMetrics X × S
