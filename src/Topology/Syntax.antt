-- ===== src/Topology/Syntax.antt =====
-- The data types of substrate/crates/nemesis-topology/src/lexer.rs and parser.rs. A `u32` is a
-- number; `F` is the type of `f32`s.
use nemesis.Prelude.{ℕ, List}

pub data Token (F : Type 0) : Type 0 where
  tp pp dp : Token F
  number : ℕ → Token F
  nvl_min : F → Token F
  ib_max : ℕ → Token F
  numa : Token F
  plus pipe : Token F

pub data ParallelDim : Type 0 where
  tp pp dp : ℕ → ParallelDim

pub data Constraint (F : Type 0) : Type 0 where
  nvl_min : F → Constraint F
  ib_max : ℕ → Constraint F
  numa : Constraint F

-- `Alts` is the `Vec<TopologySpec>` of a disjunction.
mutual
  pub data TopologySpec (F : Type 0) : Type 0 where
    atom : ParallelDim → List (Constraint F) → TopologySpec F
    conjunction : TopologySpec F → TopologySpec F → TopologySpec F
    disjunction : Alts F → TopologySpec F

  pub data Alts (F : Type 0) : Type 0 where
    nil : Alts F
    cons : TopologySpec F → Alts F → Alts F
