-- ===== src/Topology/Printer.antt =====
-- How a specification is written in the language of
-- substrate/crates/nemesis-topology/src/lexer.rs and parser.rs. The print of a bandwidth is a
-- parameter, since the code only reads them.
pub mod Runs
pub mod Pieces
pub mod RoundTrip
mod Tests
use nemesis.Prelude.{
  ℕ, ◌<◌, ◌^◌, List, [], ◌∷◌, ◌++◌, some, ◌≡◌, ◌≢◌, true, All, Text, codes, is_digit, decimal, leb,
  arith,
}
use nemesis.Topology.Syntax.{
  ParallelDim, Constraint, TopologySpec, atom, conjunction, disjunction, Alts, nil, cons,
}
use nemesis.Topology.RustStd.{RustStd, is_ascii_letter}

abbrev pub render_dim : ParallelDim → Text
render_dim (ParallelDim.tp n) = codes "TP" ++ decimal n
render_dim (ParallelDim.pp n) = codes "PP" ++ decimal n
render_dim (ParallelDim.dp n) = codes "DP" ++ decimal n

-- The degree is a `u32`.
abbrev pub DimFits : ParallelDim → Type 0
DimFits (ParallelDim.tp n) = n < 2 ^ 32
DimFits (ParallelDim.pp n) = n < 2 ^ 32
DimFits (ParallelDim.dp n) = n < 2 ^ 32

-- `char::is_alphabetic` on ASCII.
abbrev pub ClassesAscii : {F : Type 0} → RustStd F → Type 0
ClassesAscii std = (c : ℕ) → c < 128 → std.is_alphabetic c ≡ is_ascii_letter c

module _ {F : Type 0} (std : RustStd F) (show : F → Text) where
  -- A bandwidth that is printed by digits, from which it is read back.
  abbrev pub Shown : F → Type 0
  Shown bw =
      (show bw ≢ []) × All (λ c. is_digit c ≡ true) (show bw) × (std.parse_f32 (show bw) ≡ some bw)

  abbrev pub render_constraint : Constraint F → Text
  render_constraint (Constraint.nvl_min bw) = codes "_NVL" ++ show bw
  render_constraint (Constraint.ib_max h) = codes "_IB" ++ decimal h
  render_constraint Constraint.numa = codes "_NUMA"

  abbrev pub ConstraintFits : Constraint F → Type 0
  ConstraintFits (Constraint.nvl_min bw) = Shown bw
  ConstraintFits (Constraint.ib_max h) = h < 2 ^ 32
  ConstraintFits Constraint.numa = Unit

  abbrev pub render_constraints : List (Constraint F) → Text
  render_constraints [] = []
  render_constraints (c ∷ cs) = render_constraint c ++ render_constraints cs

  unfoldable mutual
    pub render : TopologySpec F → Text
    render (atom dim cs) = render_dim dim ++ render_constraints cs
    render (conjunction l r) = render l ++ (b'+' ∷ render r)
    render (disjunction alts) = render_alts alts

    pub render_alts : Alts F → Text
    render_alts nil = []
    render_alts (cons alt alts) = render alt ++ render_more alts

    pub render_more : Alts F → Text
    render_more nil = []
    render_more (cons alt alts) = b'|' ∷ (render alt ++ render_more alts)

  -- All numbers of the specification can be printed.
  unfoldable mutual
    pub Fits : TopologySpec F → Type 0
    Fits (atom dim cs) = DimFits dim × All ConstraintFits cs
    Fits (conjunction l r) = Fits l × Fits r
    Fits (disjunction alts) = AltsFit alts

    pub AltsFit : Alts F → Type 0
    AltsFit nil = Unit
    AltsFit (cons alt alts) = Fits alt × AltsFit alts
