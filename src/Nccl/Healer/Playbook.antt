-- ===== src/Nccl/Healer/Playbook.antt =====
-- substrate/crates/nemesis-nccl/src/service.rs: the playbooks of the healing service, which are
-- templates of steps that a request fills in. The directory of the files and the parser of YAML are
-- arguments; a hash map is the list of its entries in the order of its iteration.
pub mod Ranks
pub mod Resolved
pub mod Templates
pub mod Requests
pub mod Excluded
pub mod Listing
mod Tests
use nemesis.Prelude.{
  ℕ, String, Bool, true, false, List, [], ◌∷◌, ◌++◌, Option, none, some, Result, ok, err, map, join,
  split, trim, replace, decimal, parse_unsigned, Text, codes, text_eq, text_get, and_then,
  if◌then◌else◌, ◌%◌, ◌^◌,
}
use nemesis.Nccl.Backend.{
  ShrinkRequest, ShrinkMetrics, NcclBackend, BackendError, no_error, sim_cannot_exclude,
  real_cannot_exclude,
}
use nemesis.Nccl.Healer.{HealerService, shrink_communicator}

abbrev pub Params : Type 0
Params = List (Text × Text)

pub record PlaybookStep : Type 0 where
  pub action : Text
  pub description : Text
  pub params : Params

pub record PlaybookDef : Type 0 where
  pub name : Text
  pub description : Text
  pub trigger : Text
  pub steps : List PlaybookStep

-- Why a playbook is not loaded.
pub data LoadError : Type 0 where
  no_directory : LoadError
  unreadable : Text → Text → LoadError
  malformed : Text → Text → LoadError

-- `read` answers for the file of that name in the directory, `from_str` is the YAML parser.
unfoldable pub load_playbook :
    Option (Text → Result Text Text)
    → (Text → Result PlaybookDef Text)
    → Text
    → Result PlaybookDef LoadError
load_playbook none from_str name = err no_directory
load_playbook (some read) from_str name = elim (read (name ++ codes ".yaml")) [
  | err e ↦ err (unreadable name e)
  | ok content ↦ elim (from_str content) [ err e ↦ err (malformed name e) | ok def ↦ ok def ]
]

-- The token of a key.
abbrev pub token : Text → Text
token k = codes "{{" ++ (k ++ codes "}}")

unfoldable pub expand_template : Text → Params → Text
expand_template s [] = s
expand_template s ((k, v) ∷ params) = expand_template (replace s (token k) v) params

-- `filter_map` over the parts.
abbrev pub parsed : List Text → List ℕ
parsed [] = []
parsed (p ∷ ps) = elim (parse_unsigned 32 (trim p)) [ some n ↦ n ∷ parsed ps | none ↦ parsed ps ]

unfoldable pub parse_ranks : Text → List ℕ
parse_ranks s = parsed (split b',' s)

unfoldable pub resolve : Params → Params → Params
unfolding expand_template
resolve [] parameters = []
resolve ((k, v) ∷ params) parameters = (k, expand_template v parameters) ∷ resolve params parameters

abbrev pub or_else : Option Text → Option Text → Option Text
or_else none o = o
or_else (some t) o = some t

abbrev pub unwrap_or : Text → Option Text → Text
unwrap_or d none = d
unwrap_or d (some t) = t

abbrev pub ranks_of : Option Text → List ℕ
ranks_of none = []
ranks_of (some s) = parse_ranks s

-- The request of a step `shrink_communicator`.
unfoldable pub shrink_request : {S : Type 0} → HealerService S → Params → Params → ShrinkRequest
unfolding text_get parse_ranks
shrink_request s parameters resolved =
    let named =
      or_else (text_get (codes "comm_id") resolved) (text_get (codes "comm_id") parameters) in
    let job = text_get (codes "job_id") parameters in
    record {
      communicator_id =
          unwrap_or (unwrap_or [] (and_then job (λ jid. text_get jid s.job_comms))) named;
      job_id = unwrap_or [] job;
      exclude_ranks = ranks_of (text_get (codes "exclude_ranks") resolved);
    }

abbrev pub error_text : BackendError → Text
error_text no_error = []
error_text (sim_cannot_exclude excluded active) =
    codes "cannot exclude "
    ++ (decimal excluded
        ++ (codes " ranks from a communicator with " ++ (decimal active ++ codes " active ranks")))
error_text (real_cannot_exclude excluded active) =
    codes "cannot exclude "
    ++ (decimal excluded
        ++ (codes " ranks from communicator with " ++ (decimal active ++ codes " active")))

-- `show` is the text of an error.
abbrev pub shrink_action : {X : Type 0} → (X → Text) → ShrinkRequest → Result ShrinkMetrics X → Text
shrink_action show req (ok m) =
    if m.success
    then codes "shrink_communicator comm="
      ++ (req.communicator_id
          ++ (codes " exclude="
              ++ (join b',' (map decimal req.exclude_ranks)
                  ++ (codes " active_after=" ++ decimal m.active_rank_count))))
    else codes "shrink_communicator FAILED: " ++ error_text m.error
shrink_action show req (err e) = codes "shrink_communicator ERROR: " ++ show e

-- What the other steps put on record, of the step's own parameters and the request's.
unfoldable pub log_action : PlaybookStep → Params → Params → Text
unfolding text_get
log_action step parameters resolved =
    let own : String → Option Text = λ k. text_get (codes k) resolved in
    let given : String → Option Text = λ k. text_get (codes k) parameters in
    let gpu = unwrap_or [] (or_else (own "gpu_id") (given "gpu_id")) in
    if text_eq step.action (codes "drain_gpu")
    then codes "drain_gpu gpu=" ++ (gpu ++ (codes ": " ++ step.description))
    else if text_eq step.action (codes "checkpoint_jobs")
    then codes "checkpoint_jobs jobs=["
      ++ (unwrap_or [] (or_else (own "job_ids") (given "active_job_ids"))
          ++ (codes "]: " ++ step.description))
    else if text_eq step.action (codes "notify")
    then codes "notify event="
      ++ (unwrap_or (codes "UNSPECIFIED") (own "event_kind") ++ (codes " gpu=" ++ gpu))
    else step.action ++ (codes ": " ++ step.description)

pub record PlaybookResult : Type 0 where
  pub success : Bool
  pub duration_ns : ℕ
  pub actions_taken : List Text
  pub error : Option LoadError

module _ {S X : Type 0} (b : NcclBackend S X) (show : X → Text) where
  -- One round of the loop: the action put on record.
  unfoldable pub run_step : HealerService S → Params → PlaybookStep → Text × HealerService S
  unfolding resolve shrink_request shrink_communicator log_action
  run_step s parameters step =
      let resolved = resolve step.params parameters in
      if text_eq step.action (codes "shrink_communicator")
      then (let req = shrink_request s parameters resolved in
          let (metrics, s') = shrink_communicator b s req in (shrink_action show req metrics, s'))
      else (log_action step parameters resolved, s)

  unfoldable pub run_steps :
      HealerService S → Params → List PlaybookStep → List Text × HealerService S
  unfolding run_step
  run_steps s parameters [] = ([], s)
  run_steps s parameters (step ∷ steps) =
      let (action, s') = run_step s parameters step in
      let (actions, s'') = run_steps s' parameters steps in (action ∷ actions, s'')

  -- The playbook as it was loaded, the request's parameters and the time that the call takes.
  unfoldable pub execute_playbook :
      HealerService S → Result PlaybookDef LoadError → Params → ℕ → PlaybookResult × HealerService S
  unfolding run_steps
  execute_playbook s (err e) parameters elapsed_ns = (
    record {
      success = false;
      duration_ns = elapsed_ns % 2 ^ 64;
      actions_taken = [];
      error = some e;
    },
    s,
  )
  execute_playbook s (ok playbook) parameters elapsed_ns =
      let (actions, s') = run_steps s parameters playbook.steps in
      (
        record {
          success = true;
          duration_ns = elapsed_ns % 2 ^ 64;
          actions_taken = actions;
          error = none;
        },
        s',
      )
