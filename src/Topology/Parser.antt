-- ===== src/Topology/Parser.antt =====
-- The recursive descent of substrate/crates/nemesis-topology/src/parser.rs. The index `pos` into
-- the tokens is the list of the tokens from there on; a function that moves it returns what is
-- left.
pub mod Grammar
pub mod Complete
mod Tests
use nemesis.Prelude.{
  ℕ, zero, suc, ◌*◌, ◌%◌, ◌^◌, List, [], ◌∷◌, ◌++◌, Result, ok, err, ◌>>=◌, length, Option, none,
  some, Bool, false, ◌||◌, leb,
}
use nemesis.Topology.Syntax.{
  Token, ParallelDim, Constraint, TopologySpec, atom, conjunction, disjunction, Alts, nil, cons,
}

-- The messages. What the code shows of the rest of the input (`pos` and the token there) is that
-- rest. `out_of_fuel` belongs to the model only.
pub data ParseError (F : Type 0) : Type 0 where
  expected_dim : List (Token F) → ParseError F
  expected_degree : List (Token F) → ParseError F
  unexpected_tokens : List (Token F) → ParseError F
  out_of_fuel : ParseError F

abbrev pub Parser : Type 0 → Type 0 → Type 0
Parser F A = List (Token F) → Result (A × List (Token F)) (ParseError F)

module _ {F : Type 0} where
  unfoldable pub expect_number : Parser F ℕ
  expect_number (Token.number n ∷ rest) = ok (n, rest)
  expect_number ts = err (expected_degree ts)

  abbrev with_degree : (ℕ → ParallelDim) → Parser F ParallelDim
  with_degree dim ts = do (n, rest) ← expect_number ts; ok (dim n, rest)

  -- The dimension keyword and its degree.
  unfoldable pub parse_dim : Parser F ParallelDim
  unfolding expect_number
  parse_dim (Token.tp ∷ rest) = with_degree ParallelDim.tp rest
  parse_dim (Token.pp ∷ rest) = with_degree ParallelDim.pp rest
  parse_dim (Token.dp ∷ rest) = with_degree ParallelDim.dp rest
  parse_dim ts = err (expected_dim ts)

  -- The `while let` loop over constraints; it cannot fail.
  unfoldable pub constraints : List (Token F) → List (Constraint F) × List (Token F)
  constraints (Token.nvl_min bw ∷ rest) =
      let (cs, left) = constraints rest in (Constraint.nvl_min bw ∷ cs, left)
  constraints (Token.ib_max h ∷ rest) =
      let (cs, left) = constraints rest in (Constraint.ib_max h ∷ cs, left)
  constraints (Token.numa ∷ rest) =
      let (cs, left) = constraints rest in (Constraint.numa ∷ cs, left)
  constraints ts = ([], ts)

  unfoldable pub parse_atom : Parser F (TopologySpec F)
  unfolding parse_dim constraints
  parse_atom ts = do
    (dim, rest) ← parse_dim ts
    let (cs, left) = constraints rest
    ok (atom dim cs, left)

  -- What follows the first atom.
  unfoldable pub conjunction_tail : TopologySpec F → Parser F (TopologySpec F)
  unfolding parse_atom
  conjunction_tail first (Token.plus ∷ rest) = do
    (second, left) ← parse_atom rest
    ok (conjunction first second, left)
  conjunction_tail first ts = ok (first, ts)

  unfoldable pub parse_conjunction : Parser F (TopologySpec F)
  unfolding parse_atom conjunction_tail
  parse_conjunction ts = do (first, rest) ← parse_atom ts; conjunction_tail first rest

  -- The `while` loop of `parse_disjunction`. Each round takes tokens away, so that the number of
  -- tokens is enough fuel.
  unfoldable pub alternatives : ℕ → Parser F (Alts F)
  alternatives zero (Token.pipe ∷ rest) = err out_of_fuel
  alternatives (suc fuel) (Token.pipe ∷ rest) = do
    (alt, left) ← parse_conjunction rest
    (alts, left') ← alternatives fuel left
    ok (cons alt alts, left')
  alternatives fuel ts = ok (nil, ts)

  -- One alternative stands for itself.
  unfoldable pub from_alternatives : TopologySpec F → Alts F → TopologySpec F
  from_alternatives first nil = first
  from_alternatives first (cons alt alts) = disjunction (cons first (cons alt alts))

  unfoldable pub parse_disjunction : Parser F (TopologySpec F)
  unfolding alternatives from_alternatives
  parse_disjunction ts = do
    (first, rest) ← parse_conjunction ts
    (alts, left) ← alternatives (length rest) rest
    ok (from_alternatives first alts, left)

  -- `parse` behind the lexer: no token may be left.
  unfoldable pub finish : TopologySpec F → List (Token F) → Result (TopologySpec F) (ParseError F)
  finish spec [] = ok spec
  finish spec (t ∷ ts) = err (unexpected_tokens (t ∷ ts))

  unfoldable pub parse_tokens : List (Token F) → Result (TopologySpec F) (ParseError F)
  unfolding finish
  parse_tokens ts = do (spec, left) ← parse_disjunction ts; finish spec left

  -- `gpu_count` multiplies `u32`s with wrap-around, as a release build does.
  unfoldable mutual
    pub gpu_count : TopologySpec F → ℕ
    gpu_count (atom (ParallelDim.tp n) cs) = n
    gpu_count (atom (ParallelDim.pp n) cs) = n
    gpu_count (atom (ParallelDim.dp n) cs) = n
    gpu_count (conjunction l r) = gpu_count l * gpu_count r % 2 ^ 32
    gpu_count (disjunction alts) = first_gpu_count alts

    pub first_gpu_count : Alts F → ℕ
    first_gpu_count nil = 0
    first_gpu_count (cons alt alts) = gpu_count alt

  -- Whether a product in it does not fit a `u32`, where a debug build panics.
  unfoldable mutual
    unfolding gpu_count

    pub overflows : TopologySpec F → Bool
    overflows (atom dim cs) = false
    overflows (conjunction l r) =
        (overflows l || overflows r) || leb (2 ^ 32) (gpu_count l * gpu_count r)
    overflows (disjunction alts) = first_overflows alts

    pub first_overflows : Alts F → Bool
    first_overflows nil = false
    first_overflows (cons alt alts) = overflows alt
