-- ===== src/Nccl/Healer/Playbook/Tests.antt =====
-- A playbook that takes the ranks of a failed node away, of two steps, and two files of playbooks.
use nemesis.Prelude.{
  ℕ, ◌≡◌, refl, true, List, [], ◌∷◌, Option, none, some, ok, map, join, decimal, Text, codes,
  length, inl, inr, split, parse_unsigned, trim, value, arith, text_get,
}
use nemesis.Nccl.Sim.{SimState, sim_backend, shrink}
use nemesis.Nccl.Sim.Ranks.{IsValid}
use nemesis.Nccl.Healer.{HealerService, new_sim, register_job}
use nemesis.Nccl.Healer.Playbook.{
  Params, PlaybookStep, PlaybookDef, parse_ranks, resolve, shrink_request, execute_playbook,
}
use nemesis.Nccl.Healer.Playbook.Templates.{WellKeyed}
use nemesis.Nccl.Healer.Playbook.Requests.{shrink_requests, shrunk_by, execute_playbook_lem}
use nemesis.Nccl.Healer.Playbook.Excluded.{shrink_request-ranks, missing_parameter}
use nemesis.Nccl.Healer.Playbook.Listing.{DirEntry, list_playbooks}

abbrev service : HealerService SimState
service = (register_job (new_sim 8 42) (codes "c1") (codes "j1") 8).1

abbrev take_away : PlaybookStep
take_away = record {
  action = codes "shrink_communicator";
  description = [];
  params = (codes "exclude_ranks", codes "{{failed_ranks}}") ∷ [];
}

abbrev tell : PlaybookStep
tell = record {
  action = codes "notify";
  description = [];
  params = (codes "event_kind", codes "NODE_DOWN") ∷ [];
}

abbrev node_down : PlaybookDef
node_down = record {
  name = codes "node_down";
  description = [];
  trigger = [];
  steps = take_away ∷ tell ∷ [];
}

abbrev ranks : List ℕ
ranks = 3 ∷ 14 ∷ []

abbrev given : Params
given = (codes "job_id", codes "j1") ∷ (codes "failed_ranks", join b',' (map decimal ranks)) ∷ []

-- A rank with a sign, with space around it, out of range and no number at all.
read_ranks : parse_ranks (codes "+3, 14,4294967296,x,") ≡ 3 ∷ 14 ∷ []
unfolding parse_ranks split parse_unsigned trim value
read_ranks = refl

-- The parameters of `given`, each of one key.
given-WellKeyed : WellKeyed given
given-WellKeyed = (ground arith)

execute_playbook_lem_example :
    let (result, s') = execute_playbook sim_backend (λ e. e) service (ok node_down) given 1_000 in
    (result.success ≡ true)
    × (length result.actions_taken ≡ length node_down.steps)
    × (s'.backend
        ≡ shrunk_by sim_backend service.backend (shrink_requests service given node_down.steps))
    × (s'.job_comms ≡ service.job_comms)
    × (s'.world_sizes ≡ service.world_sizes)
execute_playbook_lem_example =
    execute_playbook_lem sim_backend (λ e. e) service node_down given 1_000

service-IsValid : IsValid service.backend
unfolding register_job
service-IsValid = record { some_active = omega arith; in_range = omega arith }

shrink_request-ranks_example :
    (shrink_request service given (resolve take_away.params given)).exclude_ranks ≡ ranks
unfolding text_get
shrink_request-ranks_example =
    shrink_request-ranks service take_away given (codes "failed_ranks") refl ranks given-WellKeyed
      (inr (inl refl)) (ground arith)

abbrev job_only : Params
job_only = (codes "job_id", codes "j1") ∷ []

missing_parameter_example :
    let (m, s') =
      shrink service.backend
        (shrink_request service job_only (resolve take_away.params job_only)) in
    (m.success ≡ true) × (s'.active_ranks ≡ service.backend.active_ranks)
unfolding text_get
missing_parameter_example =
    missing_parameter service take_away job_only (codes "failed_ranks") refl service-IsValid
      (ground arith) (ground arith) (ground arith) (ground arith)

-- Two files of playbooks, one of another kind, and one that is gone when it is read.
abbrev named_by : Text → Option PlaybookDef
named_by content = some (record { name = content; description = []; trigger = []; steps = [] })

abbrev file : Text → Text → Option DirEntry
file extension content = some (record { extension = some extension; content = some content })

abbrev directory : List (Option DirEntry)
directory =
    file (codes "yaml") (codes "node_down")
    ∷ file (codes "md") (codes "readme")
    ∷ none
    ∷ file (codes "yaml") (codes "gpu_hot")
    ∷ []

names :
    map (λ p. p.name) (list_playbooks named_by (some (some directory)))
    ≡ codes "gpu_hot" ∷ codes "node_down" ∷ []
unfolding list_playbooks
names = refl
