-- ===== src/Topology/Parser/Complete.antt =====
-- The parser accepts every specification of the grammar, and so exactly those.
use nemesis.Prelude.{
  ℕ, zero, suc, ◌≤◌, List, [], ◌∷◌, ◌++◌, ◌≡◌, refl, ◌≢◌, ◌↔◌, length, append_assoc, append-nil,
  arith, ap, sym, ◌∙◌, length-append, ok, err, Ensures-ok, Ensures-err,
}
use nemesis.Topology.Syntax.{
  Token, ParallelDim, Constraint, TopologySpec, atom, conjunction, disjunction, Alts, nil, cons,
}
use nemesis.Topology.Parser.{
  unexpected_tokens, out_of_fuel, parse_dim, constraints, parse_atom, conjunction_tail,
  parse_conjunction, alternatives, from_alternatives, parse_disjunction, parse_tokens,
}
use nemesis.Topology.Parser.Grammar.{
  emit_dim, emit_constraints, emit, emit_more, IsAtom, IsConjunction, AllConjunctions, IsSpec,
  parse_tokens-Ensures,
}

module _ {F : Type 0} where
  -- Input that ends a list of constraints: an operator, or nothing.
  abbrev EndsAtom : List (Token F) → Type 0
  EndsAtom [] = Unit
  EndsAtom (Token.plus ∷ ts) = Unit
  EndsAtom (Token.pipe ∷ ts) = Unit
  EndsAtom _ = ⊥

  -- Input that ends a conjunction.
  abbrev EndsConjunction : List (Token F) → Type 0
  EndsConjunction [] = Unit
  EndsConjunction (Token.pipe ∷ ts) = Unit
  EndsConjunction _ = ⊥

  constraints-nil : (rest : List (Token F)) → EndsAtom rest → constraints rest ≡ ([], rest)
  unfolding constraints
  constraints-nil [] h = refl
  constraints-nil (Token.plus ∷ ts) h = refl
  constraints-nil (Token.pipe ∷ ts) h = refl
  constraints-nil _ h = absurd h

  constraints-emit :
      (cs : List (Constraint F)) (rest : List (Token F))
      → EndsAtom rest
      → constraints (emit_constraints cs ++ rest) ≡ (cs, rest)
  unfolding constraints
  constraints-emit [] rest h = constraints-nil rest h
  constraints-emit (Constraint.nvl_min bw ∷ cs) rest h = cc (constraints-emit cs rest h)
  constraints-emit (Constraint.ib_max n ∷ cs) rest h = cc (constraints-emit cs rest h)
  constraints-emit (Constraint.numa ∷ cs) rest h = cc (constraints-emit cs rest h)

  parse_dim-emit :
      (dim : ParallelDim) (rest : List (Token F))
      → parse_dim (emit_dim dim ++ rest) ≡ ok (dim, rest)
  unfolding parse_dim
  parse_dim-emit (ParallelDim.tp n) rest = refl
  parse_dim-emit (ParallelDim.pp n) rest = refl
  parse_dim-emit (ParallelDim.dp n) rest = refl

  parse_atom-emit :
      (spec : TopologySpec F) (rest : List (Token F))
      → IsAtom spec
      → EndsAtom rest
      → parse_atom (emit spec ++ rest) ≡ ok (spec, rest)
  unfolding emit parse_atom
  parse_atom-emit (atom dim cs) rest shape h =
      rw (append_assoc, parse_atom, parse_dim-emit, constraints-emit cs rest h)
  parse_atom-emit (conjunction l r) rest shape h = elim shape [ ]
  parse_atom-emit (disjunction alts) rest shape h = elim shape [ ]

  EndsConjunction→EndsAtom : (rest : List (Token F)) → EndsConjunction rest → EndsAtom rest
  EndsConjunction→EndsAtom [] h = tt
  EndsConjunction→EndsAtom (Token.pipe ∷ ts) h = tt
  EndsConjunction→EndsAtom _ h = absurd h

  conjunction_tail-end :
      (first : TopologySpec F) (rest : List (Token F))
      → EndsConjunction rest
      → conjunction_tail first rest ≡ ok (first, rest)
  unfolding conjunction_tail
  conjunction_tail-end first [] h = refl
  conjunction_tail-end first (Token.pipe ∷ ts) h = refl
  conjunction_tail-end first _ h = absurd h

  conjunction_text :
      (l r : TopologySpec F) (rest : List (Token F))
      → emit (conjunction l r) ++ rest ≡ emit l ++ Token.plus ∷ (emit r ++ rest)
  unfolding emit
  conjunction_text l r rest = append_assoc (emit l) _ _

  parse_conjunction-emit :
      (spec : TopologySpec F) (rest : List (Token F))
      → IsConjunction spec
      → EndsConjunction rest
      → parse_conjunction (emit spec ++ rest) ≡ ok (spec, rest)
  unfolding parse_conjunction
  parse_conjunction-emit (atom dim cs) rest shape h =
      let read = parse_atom-emit (atom dim cs) rest tt (EndsConjunction→EndsAtom rest h) in
      rw (parse_conjunction, read) (conjunction_tail-end (atom dim cs) rest h)
  parse_conjunction-emit (conjunction l r) rest shape h =
      let first = parse_atom-emit l (Token.plus ∷ (emit r ++ rest)) shape.0 tt in
      let second = parse_atom-emit r rest shape.1 (EndsConjunction→EndsAtom rest h) in
      rw (conjunction_text l r rest, parse_conjunction, first, conjunction_tail, second)
  parse_conjunction-emit (disjunction alts) rest shape h = elim shape [ ]

  EndsConjunction-emit_more : (alts : Alts F) → EndsConjunction (emit_more alts)
  unfolding emit
  EndsConjunction-emit_more nil = tt
  EndsConjunction-emit_more (cons alt alts) = tt

  alternatives-emit :
      (fuel : ℕ) (alts : Alts F)
      → length (emit_more alts) ≤ fuel
      → AllConjunctions alts
      → alternatives fuel (emit_more alts) ≡ ok (alts, [])
  unfolding alternatives emit
  alternatives-emit zero nil enough shapes = refl
  alternatives-emit (suc fuel) nil enough shapes = refl
  alternatives-emit zero (cons alt alts) enough shapes = absurd (omega arith)
  alternatives-emit (suc fuel) (cons alt alts) enough shapes =
      let read =
        parse_conjunction-emit alt (emit_more alts) shapes.0 (EndsConjunction-emit_more alts) in
      let shorter : length (emit_more alts) ≤ fuel =
        omega (arith, length-append (emit alt) (emit_more alts)) in
      rw (read, alternatives-emit fuel alts shorter shapes.1)

  parse_disjunction-emit :
      (first : TopologySpec F) (alts : Alts F)
      → IsConjunction first
      → AllConjunctions alts
      → parse_tokens (emit first ++ emit_more alts) ≡ ok (from_alternatives first alts)
  unfolding parse_tokens parse_disjunction
  parse_disjunction-emit first alts shape shapes =
      let read =
        parse_conjunction-emit first (emit_more alts) shape (EndsConjunction-emit_more alts) in
      let more = alternatives-emit (length (emit_more alts)) alts (omega arith) shapes in
      rw (read, more)

  parse_tokens-conjunction :
      (spec : TopologySpec F) → IsConjunction spec → parse_tokens (emit spec) ≡ ok spec
  unfolding from_alternatives emit
  parse_tokens-conjunction spec shape =
      ap parse_tokens (sym (append-nil (emit spec))) ∙ parse_disjunction-emit spec nil shape tt

  pub parse_tokens-emit : (spec : TopologySpec F) → IsSpec spec → parse_tokens (emit spec) ≡ ok spec
  unfolding from_alternatives emit
  parse_tokens-emit (atom dim cs) shape = parse_tokens-conjunction (atom dim cs) shape
  parse_tokens-emit (conjunction l r) shape = parse_tokens-conjunction (conjunction l r) shape
  parse_tokens-emit (disjunction nil) shape = elim shape [ ]
  parse_tokens-emit (disjunction (cons alt nil)) shape = elim shape [ ]
  parse_tokens-emit (disjunction (cons alt (cons alt' alts))) shape =
      parse_disjunction-emit alt (cons alt' alts) shape.0 (shape.1, shape.2)

  -- The parser accepts a list of tokens with a specification exactly when the grammar derives the
  -- specification and these are its tokens.
  pub parse_tokens-eq-ok_iff :
      (ts : List (Token F)) (spec : TopologySpec F)
      → (parse_tokens ts ≡ ok spec) ↔ (IsSpec spec × (ts ≡ emit spec))
  parse_tokens-eq-ok_iff ts spec =
      (Ensures-ok (parse_tokens-Ensures ts), λ h. rw (h.1) (parse_tokens-emit spec h.0))

  -- The parser always answers: the fuel of its loop never runs out.
  pub parse_tokens-ne-out_of_fuel : (ts : List (Token F)) → parse_tokens ts ≢ err out_of_fuel
  parse_tokens-ne-out_of_fuel ts e = Ensures-err (parse_tokens-Ensures ts) e refl

  -- A third axis is refused: of `a + b + more` the parser reads `a + b`, and reports the second
  -- plus and what follows as unexpected.
  pub third_axis_refused :
      (a b : TopologySpec F) (more : List (Token F))
      → IsAtom a
      → IsAtom b
      → parse_tokens (emit a ++ Token.plus ∷ (emit b ++ Token.plus ∷ more))
        ≡ err (unexpected_tokens (Token.plus ∷ more))
  unfolding parse_tokens parse_disjunction parse_conjunction
  third_axis_refused a b more ha hb =
      let first = parse_atom-emit a (Token.plus ∷ (emit b ++ Token.plus ∷ more)) ha tt in
      let second = parse_atom-emit b (Token.plus ∷ more) hb tt in
      rw (first, conjunction_tail, second)
