-- ===== src/Topology/Parser/Tests.antt =====
-- Token lists that the parser accepts and refuses.
use nemesis.Prelude.{ℕ, List, [], ◌∷◌, ◌≡◌, ◌↔◌, ok}
use nemesis.Topology.Syntax.{Token, ParallelDim, Constraint, TopologySpec, atom, conjunction}
use nemesis.Topology.Parser.{parse_tokens}
use nemesis.Topology.Parser.Grammar.{IsSpec, emit}
use nemesis.Topology.Parser.Complete.{parse_tokens-eq-ok_iff}

abbrev two_axes : TopologySpec ℕ
two_axes =
    conjunction (atom (ParallelDim.tp 8) (Constraint.nvl_min 600 ∷ []))
      (atom (ParallelDim.pp 4) (Constraint.ib_max 1 ∷ []))

abbrev two_axes_tokens : List (Token ℕ)
two_axes_tokens =
    Token.tp
    ∷ Token.number 8
    ∷ Token.nvl_min 600
    ∷ Token.plus
    ∷ Token.pp
    ∷ Token.number 4
    ∷ Token.ib_max 1
    ∷ []

parse_tokens-eq-ok_iff_example :
    (parse_tokens two_axes_tokens ≡ ok two_axes)
    ↔ (IsSpec two_axes × (two_axes_tokens ≡ emit two_axes))
parse_tokens-eq-ok_iff_example = parse_tokens-eq-ok_iff two_axes_tokens two_axes
