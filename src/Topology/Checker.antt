-- ===== src/Topology/Checker.antt =====
-- substrate/crates/nemesis-topology/src/checker.rs: the type rules. A message is a constructor
-- with the values put into its text.
pub mod Power
pub mod Counts
pub mod Sound
mod Tests
use Prim.Native.Nat.{bit_and}
use nemesis.Prelude.{
  ℕ, ◌-◌, Bool, true, false, not, ◌&&◌, ◌||◌, List, [], ◌∷◌, ◌++◌, ltb, ◌==◌, if◌then◌else◌,
}
use nemesis.Topology.Syntax.{
  ParallelDim, Constraint, TopologySpec, atom, conjunction, disjunction, Alts, nil, cons,
}
use nemesis.Topology.Parser.{gpu_count, overflows}

pub data CheckError : Type 0 where
  not_power_of_two : ℕ → CheckError
  exceeds_mesh : ℕ → CheckError
  mismatched_counts : List ℕ → CheckError

-- `*n == 0 || (*n & (*n - 1)) != 0`; the difference is not taken at 0.
unfoldable pub bad_degree : ℕ → Bool
bad_degree n = n == 0 || not (bit_and n (n - 1) == 0)

-- `windows(2).any(|w| w[0] != w[1])`
unfoldable pub some_differ : List ℕ → Bool
some_differ [] = false
some_differ (c ∷ []) = false
some_differ (c ∷ d ∷ cs) = not (c == d) || some_differ (d ∷ cs)

module _ {F : Type 0} where
  -- `matches!(c, Constraint::NvlMin(_))` for some `c`.
  unfoldable pub has_nvl : List (Constraint F) → Bool
  has_nvl [] = false
  has_nvl (Constraint.nvl_min bw ∷ cs) = true
  has_nvl (c ∷ cs) = has_nvl cs

  -- The errors that a call pushes, in order.
  unfoldable pub check_atom : ParallelDim → List (Constraint F) → List CheckError
  check_atom (ParallelDim.tp n) cs =
      (if bad_degree n then not_power_of_two n ∷ [] else [])
      ++ (if has_nvl cs && ltb 8 n then exceeds_mesh n ∷ [] else [])
  check_atom (ParallelDim.pp n) cs = []
  check_atom (ParallelDim.dp n) cs = []

  unfoldable pub counts : Alts F → List ℕ
  counts nil = []
  counts (cons alt alts) = gpu_count alt ∷ counts alts

  unfoldable mutual
    pub check : TopologySpec F → List CheckError
    check (atom dim cs) = check_atom dim cs
    check (conjunction l r) = check l ++ check r
    check (disjunction alts) =
        check_alts alts
        ++ (if some_differ (counts alts) then mismatched_counts (counts alts) ∷ [] else [])

    pub check_alts : Alts F → List CheckError
    check_alts nil = []
    check_alts (cons alt alts) = check alt ++ check_alts alts

  -- Whether a product overflows among the counts that `check` takes.
  unfoldable mutual
    unfolding overflows

    pub check_overflows : TopologySpec F → Bool
    check_overflows (atom dim cs) = false
    check_overflows (conjunction l r) = check_overflows l || check_overflows r
    check_overflows (disjunction alts) = some_overflows alts

    pub some_overflows : Alts F → Bool
    some_overflows nil = false
    some_overflows (cons alt alts) = (check_overflows alt || overflows alt) || some_overflows alts

  unfoldable pub type_check : TopologySpec F → List CheckError
  unfolding check
  type_check spec = check spec
