-- ===== src/Nccl/Healer/Tests.antt =====
-- Two jobs of the healing service.
use nemesis.Prelude.{Text, codes, [], ◌∷◌, ◌≡◌, refl}
use nemesis.Nccl.Backend.{ShrinkRequest}
use nemesis.Nccl.Sim.{SimState, sim_backend, shrink}
use nemesis.Nccl.Healer.{HealerService, new_sim, shrink_communicator}

abbrev c1 : Text
c1 = codes "c1"

abbrev j1 : Text
j1 = codes "j1"

abbrev fresh : HealerService SimState
fresh = new_sim 8 42

abbrev first_job : ShrinkRequest
first_job = record { communicator_id = c1; job_id = j1; exclude_ranks = 3 ∷ [] }

abbrev second_job : ShrinkRequest
second_job = record { communicator_id = codes "c2"; job_id = codes "j2"; exclude_ranks = 3 ∷ [] }

abbrev after_first : HealerService SimState
after_first = (shrink_communicator sim_backend fresh first_job).1

-- The second job is left with the ranks of both.
shared_ranks : (shrink_communicator sim_backend after_first second_job).1.backend.active_ranks ≡ 6
unfolding shrink_communicator shrink
shared_ranks = refl
