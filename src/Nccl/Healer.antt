-- ===== src/Nccl/Healer.antt =====
-- substrate/crates/nemesis-nccl/src/service.rs: the healing service over a back end, which is a
-- parameter; `new_sim` builds it over the simulated one. An `err` is the status `internal`, and the
-- answers of the service carry the fields of the back end's.
pub mod Jobs
pub mod Playbook
mod Tests
use nemesis.Prelude.{text_insert, ℕ, List, [], Text, Result}
use nemesis.Nccl.Backend.{ShrinkRequest, ExpandRequest, ShrinkMetrics, ExpandMetrics, NcclBackend}
use nemesis.Nccl.Sim.{SimState, new}

pub record HealerService (S : Type 0) : Type 0 where
  pub backend : S
  pub job_comms : List (Text × Text)
  pub world_sizes : List (Text × ℕ)

abbrev pub new_sim : ℕ → ℕ → HealerService SimState
new_sim default_world_size seed = record {
  backend = new default_world_size seed;
  job_comms = [];
  world_sizes = [];
}

-- The fresh UUID is an argument; the answer is the communicator's id.
unfoldable pub register_job :
    {S : Type 0} → HealerService S → Text → Text → ℕ → Text × HealerService S
register_job s comm_id job_id world_size = (
  comm_id,
  record s {
    job_comms = text_insert job_id comm_id s.job_comms;
    world_sizes = text_insert job_id world_size s.world_sizes;
  },
)

module _ {S X : Type 0} (b : NcclBackend S X) where
  unfoldable pub shrink_communicator :
      HealerService S → ShrinkRequest → Result ShrinkMetrics X × HealerService S
  shrink_communicator s req =
      let (metrics, backend) = b.shrink s.backend req in (metrics, record s { backend = backend })

  unfoldable pub expand_communicator :
      HealerService S → ExpandRequest → Result ExpandMetrics X × HealerService S
  expand_communicator s req =
      let (metrics, backend) = b.expand s.backend req in (metrics, record s { backend = backend })
