-- ===== src/Nccl/Contract/Tests.antt =====
-- The real back end where the hook goes away before the second of two shrinks.
use nemesis.Prelude.{
  ◌≤◌, ◌≡◌, refl, false, [], ◌∷◌, ◌++◌, ok, Text, codes, leb, if◌then◌else◌, arith, text_get, trim,
  split, parse_unsigned, value,
}
use nemesis.Nccl.Backend.{ShrinkRequest}
use nemesis.Nccl.Sim.{sim_backend}
use nemesis.Nccl.Sim.Ranks.{IsValid}
use nemesis.Nccl.Real.{NcclReal, for_job, World, read_failed, line, RealError, real_backend, shrink}
use nemesis.Nccl.Healer.{HealerService}
use nemesis.Nccl.Healer.Playbook.{PlaybookStep, PlaybookDef, execute_playbook}
use nemesis.Nccl.Contract.{Promises}
use nemesis.Nccl.Contract.BackEnds.{SomeActive, back_ends-Promises}
use nemesis.Nccl.Contract.Shrunk.{execute_playbook_le}

abbrev world : NcclReal → ShrinkRequest → World
world b req = record {
  safe_point =
      if leb 8 b.active_ranks then line (codes "SAFE_POINT_ACK" ++ b'\n' ∷ []) else read_failed;
  panics = false;
  status = 0;
  new_comm = 139_900;
  resume = line (codes "RESUMED" ++ b'\n' ∷ []);
  elapsed_ns = 5_000_000_000;
}

back_ends-Promises_example :
    Promises sim_backend (λ s. s.active_ranks) IsValid
    × Promises (real_backend world) (λ b. b.active_ranks) SomeActive
back_ends-Promises_example = back_ends-Promises world (λ b req. omega arith)

abbrev service : HealerService NcclReal
service = record { backend = for_job 139_792 8 (codes "j1"); job_comms = []; world_sizes = [] }

abbrev without : Text → PlaybookStep
without ranks = record {
  action = codes "shrink_communicator";
  description = [];
  params = (codes "exclude_ranks", ranks) ∷ [];
}

abbrev twice : PlaybookDef
twice = record {
  name = codes "twice";
  description = [];
  trigger = [];
  steps = without (codes "1,2") ∷ without (codes "3") ∷ [];
}

abbrev show : RealError → Text
show e = codes "failed"

execute_playbook_le_example :
    let (result, s') = execute_playbook (real_backend world) show service (ok twice) [] 9 in
    SomeActive s'.backend
    × (1 ≤ s'.backend.active_ranks)
    × (s'.backend.active_ranks ≤ service.backend.active_ranks)
execute_playbook_le_example =
    execute_playbook_le (real_backend world) (λ b. b.active_ranks) SomeActive
      (back_ends-Promises world (λ b req. omega arith)).1 show service (ok twice) [] 9 (omega arith)

-- The first shrink is done, the second is refused by the socket.
six_left :
    (execute_playbook (real_backend world) show service (ok twice) [] 9).1.backend.active_ranks ≡ 6
unfolding execute_playbook text_get trim split parse_unsigned value shrink
six_left = refl
