-- ===== src/Topology/Service.antt =====
-- substrate/crates/nemesis-topology/src/service.rs: the scheduler service over the pipeline of
-- parsing, checking and solving. `schedule` and `release` hold both locks from their first read
-- to their last write, so that each call is one step. The set and the map of the source are lists.
pub mod Held
pub mod Calls
pub mod Release
pub mod Pipeline
pub mod Reuse
pub mod Exact
pub mod Refused
pub mod Sets
pub mod Abstract
mod Tests
use text.Mathlib.Text.{◌==◌ as str_eq}
use nemesis.Prelude.{
  Text, get, has_id, insert_key, remove_key, ℕ, Bool, true, false, not, List, [], ◌∷◌, map, Option,
  none, some, String, if◌then◌else◌, any, filter_by, Result, ok, err,
}
use nemesis.Topology.Syntax.{TopologySpec}
use nemesis.Topology.RustStd.{RustStd}
use nemesis.Topology.Lexer.{LexError, lex}
use nemesis.Topology.Parser.{ParseError, parse_tokens}
use nemesis.Topology.Checker.{CheckError, type_check, check_overflows}
use nemesis.Topology.Solver.{Reason, empty, PlacementResult, solve}
use nemesis.Graph.Petgraph.{UnGraph}
use nemesis.Graph.Cluster.{GpuNode, Link, ClusterGraph, ClusterTopology, to_proto}

pub record JobSpec : Type 0 where
  pub job_id : String
  pub topology_dsl : Text

-- The error of `parse`, which is the lexer's or the parser's.
pub data DslError (F : Type 0) : Type 0 where
  lexical : LexError → DslError F
  syntactic : ParseError F → DslError F

-- The texts of `errors` and of `rejection_reason`.
pub data ValidationError (F : Type 0) : Type 0 where
  bad_dsl : DslError F → ValidationError F
  bad_spec : CheckError → ValidationError F

pub record ValidationResult (F : Type 0) : Type 0 where
  pub valid : Bool
  pub errors : List (ValidationError F)

pub data Rejection (F : Type 0) : Type 0 where
  type_errors : List CheckError → Rejection F
  already_reserved : Rejection F
  solver_reason : Reason F → Rejection F

-- The answer of `schedule`; its `subgraph` always is none.
pub record Placement (F : Type 0) : Type 0 where
  pub placed : Bool
  pub gpu_ids : List String
  pub rejection_reason : Rejection F

-- The graph is shared with other parts, and is an argument of the calls.
pub record ServiceState : Type 0 where
  pub reserved : List String
  pub job_reservations : List (String × List String)

abbrev pub initial : ServiceState
initial = record { reserved = []; job_reservations = [] }

-- `HashSet::insert` of each id, and `HashSet::remove` of each.
abbrev pub insert_all : List String → List String → List String
insert_all [] set = set
insert_all (id ∷ ids) set = insert_all ids (if has_id set id then set else id ∷ set)

abbrev pub remove_all : List String → List String → List String
remove_all ids set = filter_by (λ id. not (has_id ids id)) set

module _ {F : Type 0} where
  abbrev pub refused_by : Rejection F → Placement F
  refused_by reason = record { placed = false; gpu_ids = []; rejection_reason = reason }

  abbrev pub answer : PlacementResult F → Placement F
  answer r = record {
    placed = r.placed;
    gpu_ids = r.gpu_ids;
    rejection_reason = solver_reason r.rejection_reason;
  }

  -- What `schedule` does with the solver's result.
  unfoldable pub reserve : ServiceState → String → PlacementResult F → Placement F × ServiceState
  reserve s job_id r =
      if r.placed
      then (if any (has_id s.reserved) r.gpu_ids then (refused_by already_reserved, s) else (
        answer r,
        record {
          reserved = insert_all r.gpu_ids s.reserved;
          job_reservations = insert_key job_id r.gpu_ids s.job_reservations;
        },
      ))
      else (answer r, s)

-- A `release` of a job that holds nothing changes nothing.
unfoldable pub release : ServiceState → String → ServiceState
unfolding get
release s job_id = elim (get job_id s.job_reservations) [
  | none ↦ s
  | some gpu_ids ↦ record {
    reserved = remove_all gpu_ids s.reserved;
    job_reservations = remove_key job_id s.job_reservations;
  }
]

-- `Vec::is_empty`.
abbrev pub is_empty {ℓ} : {A : Type ℓ} → List A → Bool
is_empty [] = true
is_empty (x ∷ xs) = false

module _ {F : Type 0} (std : RustStd F) where
  unfoldable pub parse : Text → Result (TopologySpec F) (DslError F)
  parse input = elim (lex std input) [
    | err e ↦ err (lexical e)
    | ok tokens ↦ elim (parse_tokens tokens) [ err e ↦ err (syntactic e) | ok spec ↦ ok spec ]
  ]

  -- Whether a product overflows behind `type_check`, which both calls reach once the text parses.
  unfoldable pub counts_overflow : JobSpec → Bool
  unfolding parse
  counts_overflow job = elim (parse job.topology_dsl) [
    | err e ↦ false
    | ok spec ↦ check_overflows spec
  ]

  unfoldable pub validate : JobSpec → ValidationResult F
  unfolding parse
  validate job = elim (parse job.topology_dsl) [
    | err e ↦ record { valid = false; errors = bad_dsl e ∷ [] }
    | ok spec ↦
        let errors = type_check spec in
        record { valid = is_empty errors; errors = map bad_spec errors }
  ]

module _ {F G : Type 0} (std : RustStd F) (lib : UnGraph GpuNode (Link F) G) where
  -- An `err` is the status `invalid_argument`.
  unfoldable pub schedule :
      ClusterGraph G → ServiceState → JobSpec → Result (Placement F) (DslError F) × ServiceState
  unfolding parse reserve
  schedule c s job = elim (parse std job.topology_dsl) [
    | err e ↦ (err e, s)
    | ok spec ↦
        let errors = type_check spec in
        if is_empty errors
        then (let (answered, s') = reserve s job.job_id (solve std lib c spec) in (ok answered, s'))
        else (ok (refused_by (type_errors errors)), s)
  ]

  unfoldable pub get_topology : ClusterGraph G → ClusterTopology F
  unfolding to_proto
  get_topology c = to_proto lib c
