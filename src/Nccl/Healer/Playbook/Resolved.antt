-- ===== src/Nccl/Healer/Playbook/Resolved.antt =====
-- What a step `shrink_communicator` asks for, read off the step and the request.
use nemesis.Prelude.{
  ℕ, List, [], ◌∷◌, Option, none, some, ◌≡◌, refl, Text, codes, text_eq, text_get, Bool-cases, inl,
  inr, and_then,
}
use nemesis.Nccl.Backend.{ShrinkRequest}
use nemesis.Nccl.Healer.{HealerService}
use nemesis.Nccl.Healer.Playbook.{
  Params, PlaybookStep, expand_template, parse_ranks, resolve, or_else, unwrap_or, ranks_of,
  shrink_request,
}

abbrev pub expanded : Params → Option Text → Option Text
expanded parameters none = none
expanded parameters (some t) = some (expand_template t parameters)

-- The resolved parameters have the step's keys.
pub text_get-resolve :
    (k : Text) (params parameters : Params)
    → text_get k (resolve params parameters) ≡ expanded parameters (text_get k params)
unfolding text_get resolve
text_get-resolve k [] parameters = refl
text_get-resolve k ((j, v) ∷ params) parameters = elim (Bool-cases (text_eq j k)) [
  | inl e ↦ rw (text_get, resolve, e)
  | inr e ↦ rw (text_get, resolve, e, text_get-resolve k params parameters)
]

-- The step's own communicator comes first, then that of the parameters, then that of the job.
abbrev pub communicator : (own given registered : Option Text) → Text
communicator (some c) given registered = c
communicator none (some c) registered = c
communicator none none (some c) = c
communicator none none none = []

abbrev pub registered : {S : Type 0} → HealerService S → Option Text → Option Text
registered s none = none
registered s (some job_id) = text_get job_id s.job_comms

abbrev pub text_of : Option Text → Text
text_of (some t) = t
text_of none = []

abbrev pub listed : Option Text → List ℕ
listed none = []
listed (some t) = parse_ranks t

-- The communicator is named or that of the job; the ranks are the step's alone.
abbrev pub requested : {S : Type 0} → HealerService S → Params → PlaybookStep → ShrinkRequest
requested s parameters step =
    let own : Text → Option Text = λ k. expanded parameters (text_get k step.params) in
    let job = text_get (codes "job_id") parameters in
    record {
      communicator_id =
          communicator (own (codes "comm_id")) (text_get (codes "comm_id") parameters)
            (registered s job);
      job_id = text_of job;
      exclude_ranks = listed (own (codes "exclude_ranks"));
    }

communicator_lem :
    (own given job : Option Text)
    → unwrap_or (unwrap_or [] job) (or_else own given) ≡ communicator own given job
communicator_lem (some c) given job = refl
communicator_lem none (some c) job = refl
communicator_lem none none (some c) = refl
communicator_lem none none none = refl

registered_lem :
    {S : Type 0} (s : HealerService S) (job : Option Text)
    → and_then job (λ jid. text_get jid s.job_comms) ≡ registered s job
registered_lem s none = refl
registered_lem s (some job_id) = refl

text_of_lem : (job : Option Text) → unwrap_or [] job ≡ text_of job
text_of_lem none = refl
text_of_lem (some t) = refl

listed_lem : (ranks : Option Text) → ranks_of ranks ≡ listed ranks
listed_lem none = refl
listed_lem (some t) = refl

pub shrink_request-requested :
    {S : Type 0} (s : HealerService S) (parameters : Params) (step : PlaybookStep)
    → shrink_request s parameters (resolve step.params parameters) ≡ requested s parameters step
unfolding shrink_request
shrink_request-requested s parameters step =
    let own = text_get-resolve (codes "comm_id") step.params parameters in
    let ranks = text_get-resolve (codes "exclude_ranks") step.params parameters in
    let job = text_get (codes "job_id") parameters in
    let named = expanded parameters (text_get (codes "comm_id") step.params) in
    let given = text_get (codes "comm_id") parameters in
    rw
      (
        shrink_request,
        own,
        ranks,
        registered_lem s job,
        communicator_lem named given (registered s job),
        text_of_lem job,
        listed_lem (expanded parameters (text_get (codes "exclude_ranks") step.params)),
      )
      refl
