-- ===== src/Topology/Parser/Grammar.antt =====
-- The grammar of topology specifications, independent of the parser: the tokens that spell a
-- specification, and which specifications the grammar derives.
use nemesis.Prelude.{
  ℕ, zero, suc, ◌≤◌, List, [], ◌∷◌, ◌++◌, ◌≡◌, refl, ◌≢◌, length, append_assoc, append-nil, arith,
  length-append, Result, holds, Ensures->>=, Ensures, fails, ap, sym, ◌∙◌,
}
use nemesis.Topology.Syntax.{
  Token, ParallelDim, Constraint, TopologySpec, atom, conjunction, disjunction, Alts, nil, cons,
}
use nemesis.Topology.Parser.{
  ParseError, out_of_fuel, expect_number, parse_dim, constraints, parse_atom, conjunction_tail,
  parse_conjunction, alternatives, from_alternatives, parse_disjunction, finish, parse_tokens,
}

module _ {F : Type 0} where
  abbrev pub emit_dim : ParallelDim → List (Token F)
  emit_dim (ParallelDim.tp n) = Token.tp ∷ Token.number n ∷ []
  emit_dim (ParallelDim.pp n) = Token.pp ∷ Token.number n ∷ []
  emit_dim (ParallelDim.dp n) = Token.dp ∷ Token.number n ∷ []

  abbrev pub emit_constraint : Constraint F → Token F
  emit_constraint (Constraint.nvl_min bw) = Token.nvl_min bw
  emit_constraint (Constraint.ib_max h) = Token.ib_max h
  emit_constraint Constraint.numa = Token.numa

  abbrev pub emit_constraints : List (Constraint F) → List (Token F)
  emit_constraints [] = []
  emit_constraints (c ∷ cs) = emit_constraint c ∷ emit_constraints cs

  unfoldable mutual
    pub emit : TopologySpec F → List (Token F)
    emit (atom dim cs) = emit_dim dim ++ emit_constraints cs
    emit (conjunction l r) = emit l ++ (Token.plus ∷ emit r)
    emit (disjunction alts) = emit_alts alts

    pub emit_alts : Alts F → List (Token F)
    emit_alts nil = []
    emit_alts (cons alt alts) = emit alt ++ emit_more alts

    -- alternatives behind the first
    pub emit_more : Alts F → List (Token F)
    emit_more nil = []
    emit_more (cons alt alts) = Token.pipe ∷ (emit alt ++ emit_more alts)

  abbrev pub IsAtom : TopologySpec F → Type 0
  IsAtom (atom dim cs) = Unit
  IsAtom _ = ⊥

  -- `conjunction := atom ('+' atom)?`
  abbrev pub IsConjunction : TopologySpec F → Type 0
  IsConjunction (conjunction l r) = IsAtom l × IsAtom r
  IsConjunction (atom dim cs) = Unit
  IsConjunction (disjunction alts) = ⊥

  abbrev pub AllConjunctions : Alts F → Type 0
  AllConjunctions nil = Unit
  AllConjunctions (cons alt alts) = IsConjunction alt × AllConjunctions alts

  -- `disjunction := conjunction ('|' conjunction)*`, where one alternative is no disjunction.
  abbrev pub IsSpec : TopologySpec F → Type 0
  IsSpec (disjunction (cons alt (cons alt' alts))) =
      IsConjunction alt × IsConjunction alt' × AllConjunctions alts
  IsSpec (disjunction _) = ⊥
  IsSpec spec = IsConjunction spec

  -- An error of the program, and none of the model.
  abbrev pub IsReal : ParseError F → Type 0
  IsReal e = e ≢ out_of_fuel

  -- What a function reads is what its result spells, and `Shape` holds of the result.
  abbrev pub Reads :
      {A : Type 0} (Shape : A → Type 0) (spell : A → List (Token F))
      → List (Token F)
      → Result (A × List (Token F)) (ParseError F)
      → Type 0
  Reads {A} Shape spell ts r =
      Ensures {A = A × List (Token F)} (λ p. Shape p.0 × (ts ≡ spell p.0 ++ p.1)) IsReal r

  expect_number-Reads :
      (ts : List (Token F)) → Reads (λ n. Unit) (λ n. Token.number n ∷ []) ts (expect_number ts)
  unfolding expect_number
  expect_number-Reads (Token.number n ∷ ts) = holds (tt, refl)
  expect_number-Reads _ = fails (λ e. cc)

  parse_dim-Reads : (ts : List (Token F)) → Reads (λ dim. Unit) emit_dim ts (parse_dim ts)
  unfolding parse_dim
  parse_dim-Reads (Token.tp ∷ ts) =
      Ensures->>= (expect_number-Reads ts) λ (n, left) (u, e). holds (tt, ap (◌∷◌ Token.tp) e)
  parse_dim-Reads (Token.pp ∷ ts) =
      Ensures->>= (expect_number-Reads ts) λ (n, left) (u, e). holds (tt, ap (◌∷◌ Token.pp) e)
  parse_dim-Reads (Token.dp ∷ ts) =
      Ensures->>= (expect_number-Reads ts) λ (n, left) (u, e). holds (tt, ap (◌∷◌ Token.dp) e)
  parse_dim-Reads _ = fails (λ e. cc)

  constraints_sound :
      (ts : List (Token F)) → let (cs, left) = constraints ts in ts ≡ emit_constraints cs ++ left
  unfolding constraints
  constraints_sound (Token.nvl_min bw ∷ ts) = cc (constraints_sound ts)
  constraints_sound (Token.ib_max h ∷ ts) = cc (constraints_sound ts)
  constraints_sound (Token.numa ∷ ts) = cc (constraints_sound ts)
  constraints_sound _ = refl

  pub parse_atom-Reads : (ts : List (Token F)) → Reads IsAtom emit ts (parse_atom ts)
  unfolding parse_atom emit
  parse_atom-Reads ts = Ensures->>= (parse_dim-Reads ts) λ (dim, rest) (u, e). holds (
    tt,
    e
        ∙ ap (λ l. emit_dim dim ++ l) (constraints_sound rest)
        ∙ sym (append_assoc (emit_dim dim) _ _),
  )

  IsAtom→IsConjunction : (spec : TopologySpec F) → IsAtom spec → IsConjunction spec
  IsAtom→IsConjunction (atom dim cs) shape = tt
  IsAtom→IsConjunction (conjunction l r) shape = elim shape [ ]
  IsAtom→IsConjunction (disjunction alts) shape = elim shape [ ]

  conjunction_tail-Reads :
      (first : TopologySpec F) (ts rest : List (Token F))
      → IsAtom first
      → ts ≡ emit first ++ rest
      → Reads IsConjunction emit ts (conjunction_tail first rest)
  unfolding conjunction_tail emit
  conjunction_tail-Reads first ts (Token.plus ∷ rest) shape e =
      Ensures->>= (parse_atom-Reads rest) λ (second, left) (shape', e'). holds (
        (shape, shape'),
        e ∙ ap (λ l. emit first ++ Token.plus ∷ l) e' ∙ sym (append_assoc (emit first) _ _),
      )
  conjunction_tail-Reads first ts _ shape e = holds (IsAtom→IsConjunction first shape, e)

  parse_conjunction-Reads :
      (ts : List (Token F)) → Reads IsConjunction emit ts (parse_conjunction ts)
  unfolding parse_conjunction
  parse_conjunction-Reads ts =
      Ensures->>= (parse_atom-Reads ts)
        λ (first, rest) (shape, e). conjunction_tail-Reads first ts rest shape e

  alternatives-Reads :
      (fuel : ℕ) (ts : List (Token F))
      → length ts ≤ fuel
      → Reads AllConjunctions emit_more ts (alternatives fuel ts)
  unfolding alternatives emit
  alternatives-Reads zero (Token.pipe ∷ rest) enough = absurd (omega arith)
  alternatives-Reads (suc fuel) (Token.pipe ∷ rest) enough =
      Ensures->>= (parse_conjunction-Reads rest) λ (alt, left) (shape, e).
        let shorter : length left ≤ fuel =
          omega (arith, ap length e, length-append (emit alt) left) in
        Ensures->>= (alternatives-Reads fuel left shorter) λ (alts, left') (shape', e'). holds (
          (shape, shape'),
          ap (◌∷◌ Token.pipe) (e ∙ ap (λ l. emit alt ++ l) e' ∙ sym (append_assoc (emit alt) _ _)),
        )
  alternatives-Reads fuel _ enough = holds (tt, refl)

  IsConjunction→IsSpec : (spec : TopologySpec F) → IsConjunction spec → IsSpec spec
  IsConjunction→IsSpec (atom dim cs) shape = tt
  IsConjunction→IsSpec (conjunction l r) shape = shape
  IsConjunction→IsSpec (disjunction alts) shape = elim shape [ ]

  from_alternatives_lem :
      (first : TopologySpec F) (alts : Alts F)
      → IsConjunction first
      → AllConjunctions alts
      → IsSpec (from_alternatives first alts)
        × (emit (from_alternatives first alts) ≡ emit first ++ emit_more alts)
  unfolding from_alternatives emit
  from_alternatives_lem first nil shape shapes =
      (IsConjunction→IsSpec first shape, sym (append-nil (emit first)))
  from_alternatives_lem first (cons alt alts) shape shapes = ((shape, shapes.0, shapes.1), refl)

  parse_disjunction-Reads : (ts : List (Token F)) → Reads IsSpec emit ts (parse_disjunction ts)
  unfolding parse_disjunction
  parse_disjunction-Reads ts = Ensures->>= (parse_conjunction-Reads ts) λ (first, rest) (shape, e).
      Ensures->>= (alternatives-Reads (length rest) rest (omega arith)) λ (alts, left) (shapes, e').
        let (spec, spelt) = from_alternatives_lem first alts shape shapes in
        holds (
          spec,
          e
              ∙ ap (λ l. emit first ++ l) e'
              ∙ sym (append_assoc (emit first) _ _)
              ∙ ap (λ l. l ++ left) (sym spelt),
        )

  finish-Ensures :
      (ts left : List (Token F)) (spec : TopologySpec F)
      → IsSpec spec
      → ts ≡ emit spec ++ left
      → Ensures (λ s. IsSpec s × (ts ≡ emit s)) IsReal (finish spec left)
  unfolding finish
  finish-Ensures ts [] spec shape e = holds (shape, e ∙ append-nil (emit spec))
  finish-Ensures ts (t ∷ left) spec shape e = fails (λ e'. cc)

  -- What `parse_tokens` accepts is a specification of the grammar that spells the whole input,
  -- and its fuel never runs out.
  pub parse_tokens-Ensures :
      (ts : List (Token F))
      → Ensures (λ spec. IsSpec spec × (ts ≡ emit spec)) IsReal (parse_tokens ts)
  unfolding parse_tokens
  parse_tokens-Ensures ts =
      Ensures->>= (parse_disjunction-Reads ts)
        λ (spec, left) (shape, e). finish-Ensures ts left spec shape e
