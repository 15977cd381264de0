-- ===== src/Nccl/Healer/Jobs.antt =====
-- What the healing service knows of its jobs.
use nemesis.Prelude.{
  text_get, text_get-text_insert, Text, text_eq, ℕ, some, ◌≡◌, refl, if◌then◌else◌,
}
use nemesis.Nccl.Backend.{ShrinkRequest}
use nemesis.Nccl.Sim.{SimState, sim_backend, shrink}
use nemesis.Nccl.Healer.{HealerService, register_job, shrink_communicator}

-- A registered job has the new communicator and its world size, whatever it had before; every
-- other job has what it had, and the back end is left alone.
pub register_job_lem :
    {S : Type 0} (s : HealerService S) (comm_id job_id : Text) (world_size : ℕ) (other : Text)
    → let s' = (register_job s comm_id job_id world_size).1 in
      (text_get other s'.job_comms
        ≡ (if text_eq job_id other then some comm_id else text_get other s.job_comms))
      × (text_get other s'.world_sizes
          ≡ (if text_eq job_id other then some world_size else text_get other s.world_sizes))
      × (s'.backend ≡ s.backend)
unfolding register_job
register_job_lem s comm_id job_id world_size other = (
  text_get-text_insert job_id other comm_id s.job_comms,
  text_get-text_insert job_id other world_size s.world_sizes,
  refl,
)

-- All communicators share one count of ranks: on one state of the back end, two requests that
-- exclude the same ranks have one outcome, whatever their jobs and communicators, and whatever
-- jobs are registered.
pub communicators_share_ranks :
    (s t : HealerService SimState) (req req' : ShrinkRequest)
    → s.backend ≡ t.backend
    → req.exclude_ranks ≡ req'.exclude_ranks
    → ((shrink_communicator sim_backend s req).0 ≡ (shrink_communicator sim_backend t req').0)
      × ((shrink_communicator sim_backend s req).1.backend
          ≡ (shrink_communicator sim_backend t req').1.backend)
unfolding shrink_communicator shrink
communicators_share_ranks s t req req' same ranks = rw (same, ranks) (refl, refl)
