-- ===== src/Topology/Printer/Tests.antt =====
-- A specification of two alternatives, and its print.
use nemesis.Prelude.{
  ℕ, ◌≡◌, refl, ap, ok, some, [], ◌∷◌, codes, decimal, decimal-digits, decimal-ne-nil,
  value-decimal, arith,
}
use nemesis.Topology.Syntax.{
  ParallelDim, Constraint, TopologySpec, atom, conjunction, disjunction, nil, cons,
}
use nemesis.Topology.Lexer.Whole.{whole_std}
use nemesis.Topology.Service.{parse}
use nemesis.Topology.Printer.{render, Fits, Shown}
use nemesis.Topology.Printer.RoundTrip.{parse-render}

abbrev sample : TopologySpec ℕ
sample = disjunction (
    cons
      (conjunction (atom (ParallelDim.tp 8) (Constraint.nvl_min 600 ∷ []))
        (atom (ParallelDim.pp 4) (Constraint.ib_max 1 ∷ [])))
      (cons (atom (ParallelDim.dp 64) (Constraint.numa ∷ [])) nil))

sample_text : render whole_std decimal sample ≡ codes "TP8_NVL600+PP4_IB1|DP64_NUMA"
unfolding render decimal
sample_text = refl

shown : (n : ℕ) → Shown whole_std decimal n
shown n = (decimal-ne-nil n, decimal-digits n, ap (λ k. some k) (value-decimal n))

sample-Fits : Fits whole_std decimal sample
unfolding Fits
sample-Fits = (
  ((omega arith, (shown 600, tt)), (omega arith, (omega arith, tt))),
  ((omega arith, (tt, tt)), tt),
)

parse-render_example : parse whole_std (render whole_std decimal sample) ≡ ok sample
parse-render_example =
    parse-render whole_std (λ c h. refl) decimal sample ((tt, tt), tt, tt) sample-Fits
