-- ===== src/Nccl/Healer/Playbook/Requests.antt =====
-- What a playbook does to the back end: the shrinks that its steps ask for, and nothing else.
use nemesis.Prelude.{
  ℕ, true, List, [], ◌∷◌, ok, ◌≡◌, refl, ap, ◌∙◌, codes, text_eq, length, Text, if◌then◌else◌,
  Bool-cases, inl, inr, suc,
}
use nemesis.Nccl.Backend.{ShrinkRequest, NcclBackend}
use nemesis.Nccl.Healer.{HealerService, shrink_communicator}
use nemesis.Nccl.Healer.Playbook.Resolved.{requested, shrink_request-requested}
use nemesis.Nccl.Healer.Playbook.{
  Params, PlaybookStep, PlaybookDef, shrink_request, run_step, run_steps, execute_playbook,
}

module _ {S : Type 0} where
  -- The requests that the steps ask of the back end, by what is registered at the start.
  abbrev pub shrink_requests : HealerService S → Params → List PlaybookStep → List ShrinkRequest
  shrink_requests s parameters [] = []
  shrink_requests s parameters (step ∷ steps) =
      if text_eq step.action (codes "shrink_communicator")
      then requested s parameters step ∷ shrink_requests s parameters steps
      else shrink_requests s parameters steps

  -- The requests depend on nothing but the jobs' communicators.
  shrink_requests_same :
      (s t : HealerService S) (parameters : Params) (steps : List PlaybookStep)
      → s.job_comms ≡ t.job_comms
      → shrink_requests s parameters steps ≡ shrink_requests t parameters steps
  unfolding shrink_request
  shrink_requests_same s t parameters [] same = refl
  shrink_requests_same s t parameters (step ∷ steps) same =
      rw (same, shrink_requests_same s t parameters steps same)

  -- The jobs are left alone.
  abbrev SameJobs : HealerService S → HealerService S → Type 0
  SameJobs s t = (t.job_comms ≡ s.job_comms) × (t.world_sizes ≡ s.world_sizes)

module _ {S X : Type 0} (b : NcclBackend S X) where
  -- The shrinks of requests, one after another, those behind an error too.
  abbrev pub shrunk_by : S → List ShrinkRequest → S
  shrunk_by s [] = s
  shrunk_by s (req ∷ reqs) = shrunk_by (b.shrink s req).1 reqs

  module _ (show : X → Text) (s : HealerService S) (parameters : Params) (step : PlaybookStep) where
    abbrev asked : ShrinkRequest
    asked = requested s parameters step

    run_step-requests :
        (reqs : List ShrinkRequest)
        → shrunk_by (run_step b show s parameters step).1.backend reqs
          ≡ shrunk_by s.backend
              (if text_eq step.action (codes "shrink_communicator") then asked ∷ reqs else reqs)
    unfolding run_step shrink_communicator
    run_step-requests reqs = elim (Bool-cases (text_eq step.action (codes "shrink_communicator"))) [
      | inl e ↦ rw (e, shrink_request-requested s parameters step) refl
      | inr e ↦ rw (e) refl
    ]

    run_step-SameJobs : SameJobs s (run_step b show s parameters step).1
    unfolding run_step shrink_communicator
    run_step-SameJobs = elim (Bool-cases (text_eq step.action (codes "shrink_communicator"))) [
      | inl e ↦ rw (e) (refl, refl)
      | inr e ↦ rw (e) (refl, refl)
    ]

  module _ (show : X → Text) where
    run_steps-requests :
        (s : HealerService S) (parameters : Params) (steps : List PlaybookStep)
        → let (actions, s') = run_steps b show s parameters steps in
          (s'.backend ≡ shrunk_by s.backend (shrink_requests s parameters steps))
          × SameJobs s s'
          × (length actions ≡ length steps)
    unfolding run_steps
    run_steps-requests s parameters [] = (refl, (refl, refl), refl)
    run_steps-requests s parameters (step ∷ steps) =
        let next = (run_step b show s parameters step).1 in
        let rest = run_steps-requests next parameters steps in
        let jobs = run_step-SameJobs show s parameters step in
        let reqs = shrink_requests s parameters steps in
        (
          rest.0
              ∙ ap (shrunk_by next.backend) (shrink_requests_same next s parameters steps jobs.0)
              ∙ run_step-requests show s parameters step reqs,
          (rest.1.0 ∙ jobs.0, rest.1.1 ∙ jobs.1),
          ap suc rest.2,
        )

    -- Over any back end, a playbook that is loaded succeeds, whatever the back end answers, with one
    -- action on record for each step, and moves the back end as the shrinks that its steps ask for
    -- do, one after another. Each names the step's own communicator, or else that of the parameters,
    -- or else the one that the job had registered at the start, and the ranks that the step lists,
    -- with the parameters put into the step's texts. The jobs are left alone.
    pub execute_playbook_lem :
        (s : HealerService S) (playbook : PlaybookDef) (parameters : Params) (elapsed_ns : ℕ)
        → let (result, s') = execute_playbook b show s (ok playbook) parameters elapsed_ns in
          (result.success ≡ true)
          × (length result.actions_taken ≡ length playbook.steps)
          × (s'.backend ≡ shrunk_by s.backend (shrink_requests s parameters playbook.steps))
          × (s'.job_comms ≡ s.job_comms)
          × (s'.world_sizes ≡ s.world_sizes)
    unfolding execute_playbook
    execute_playbook_lem s playbook parameters elapsed_ns =
        let run = run_steps-requests s parameters playbook.steps in
        (refl, run.2, run.0, run.1.0, run.1.1)
