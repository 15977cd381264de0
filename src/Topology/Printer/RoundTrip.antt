-- ===== src/Topology/Printer/RoundTrip.antt =====
-- Printing a specification and reading it back, by the lexer and the parser together.
use nemesis.Prelude.{
  ℕ, ◌<◌, List, [], ◌∷◌, ◌++◌, ok, ◌≡◌, refl, sym, ap, subst, length, All, arith, Text,
  append_assoc, append-nil, is_digit, false,
}
use nemesis.Topology.Syntax.{
  Token, Constraint, TopologySpec, atom, conjunction, disjunction, Alts, nil, cons,
}
use nemesis.Topology.RustStd.{RustStd}
use nemesis.Topology.Lexer.{lex, lex_loop}
use nemesis.Topology.Parser.Grammar.{emit_dim, emit_constraints, emit, emit_more, IsSpec}
use nemesis.Topology.Parser.Complete.{parse_tokens-emit}
use nemesis.Topology.Service.{parse}
use nemesis.Topology.Printer.{
  render_dim, ClassesAscii, render_constraint, ConstraintFits, render_constraints, render,
  render_more, Fits, AltsFit, is_ascii_letter,
}
use nemesis.Topology.Printer.Runs.{Stops, Lexes, other}
use nemesis.Topology.Printer.Pieces.{Lexes-dim, Lexes-constraint, Lexes-plus, Lexes-pipe}

module _ {F : Type 0} (std : RustStd F) (ascii : ClassesAscii std) (show : F → Text) where
  respell :
      {s s' : Text} {ts ts' : List (Token F)}
      → s ≡ s'
      → ts ≡ ts'
      → Lexes std ascii s' ts'
      → Lexes std ascii s ts
  respell {s' = s'} {ts = ts} e e' h =
      subst (λ t. Lexes std ascii t ts) (sym e) (subst (λ us. Lexes std ascii s' us) (sym e') h)

  -- What may follow a number or a keyword.
  Stops-separator :
      (c : ℕ) (s : Text)
      → c < 128
      → is_digit c ≡ false
      → is_ascii_letter c ≡ false
      → Stops std ascii (c ∷ s)
  Stops-separator c s small digit letter = (digit, other std ascii c small letter)

  Stops-constraints :
      (cs : List (Constraint F)) (rest : Text)
      → Stops std ascii rest
      → Stops std ascii (render_constraints std show cs ++ rest)
  Stops-constraints [] rest stop = stop
  Stops-constraints (Constraint.nvl_min bw ∷ cs) rest stop =
      Stops-separator b'_' [] (omega arith) refl refl
  Stops-constraints (Constraint.ib_max h ∷ cs) rest stop =
      Stops-separator b'_' [] (omega arith) refl refl
  Stops-constraints (Constraint.numa ∷ cs) rest stop =
      Stops-separator b'_' [] (omega arith) refl refl

  Lexes-constraints :
      (cs : List (Constraint F)) (rest : Text) (more : List (Token F))
      → All (ConstraintFits std show) cs
      → Stops std ascii rest
      → Lexes std ascii rest more
      → Lexes std ascii (render_constraints std show cs ++ rest) (emit_constraints cs ++ more)
  Lexes-constraints [] rest more fits stop h = h
  Lexes-constraints (c ∷ cs) rest more fits stop h =
      respell (append_assoc (render_constraint std show c) (render_constraints std show cs) rest)
        refl
        (Lexes-constraint std ascii show c (render_constraints std show cs ++ rest)
          (emit_constraints cs ++ more) fits.0 (Stops-constraints cs rest stop)
          (Lexes-constraints cs rest more fits.1 stop h))

  Stops-more :
      (alts : Alts F) (rest : Text)
      → Stops std ascii rest
      → Stops std ascii (render_more std show alts ++ rest)
  unfolding render
  Stops-more nil rest stop = stop
  Stops-more (cons alt alts) rest stop = Stops-separator b'|' [] (omega arith) refl refl

  mutual
    unfolding render emit Fits

    -- Whatever stops a number may follow the print.
    Lexes-render :
        (spec : TopologySpec F) (rest : Text) (more : List (Token F))
        → Fits std show spec
        → Stops std ascii rest
        → Lexes std ascii rest more
        → Lexes std ascii (render std show spec ++ rest) (emit spec ++ more)
    Lexes-render (atom dim cs) rest more fits stop h =
        respell (append_assoc (render_dim dim) (render_constraints std show cs) rest)
          (append_assoc (emit_dim dim) (emit_constraints cs) more)
          (Lexes-dim std ascii dim (render_constraints std show cs ++ rest)
            (emit_constraints cs ++ more) fits.0 (Stops-constraints cs rest stop)
            (Lexes-constraints cs rest more fits.1 stop h))
    Lexes-render (conjunction l r) rest more fits stop h =
        respell (append_assoc (render std show l) (b'+' ∷ render std show r) rest)
          (append_assoc (emit l) (Token.plus ∷ emit r) more)
          (Lexes-render l (b'+' ∷ (render std show r ++ rest)) (Token.plus ∷ (emit r ++ more))
            fits.0 (Stops-separator b'+' [] (omega arith) refl refl)
            (Lexes-plus std ascii (render std show r ++ rest) (emit r ++ more)
              (Lexes-render r rest more fits.1 stop h)))
    Lexes-render (disjunction nil) rest more fits stop h = h
    Lexes-render (disjunction (cons alt alts)) rest more fits stop h =
        respell (append_assoc (render std show alt) (render_more std show alts) rest)
          (append_assoc (emit alt) (emit_more alts) more)
          (Lexes-render alt (render_more std show alts ++ rest) (emit_more alts ++ more) fits.0
            (Stops-more alts rest stop) (Lexes-more alts rest more fits.1 stop h))

    Lexes-more :
        (alts : Alts F) (rest : Text) (more : List (Token F))
        → AltsFit std show alts
        → Stops std ascii rest
        → Lexes std ascii rest more
        → Lexes std ascii (render_more std show alts ++ rest) (emit_more alts ++ more)
    Lexes-more nil rest more fits stop h = h
    Lexes-more (cons alt alts) rest more fits stop h =
        respell
          (ap (λ s. b'|' ∷ s) (append_assoc (render std show alt) (render_more std show alts) rest))
          (ap (λ ts. Token.pipe ∷ ts) (append_assoc (emit alt) (emit_more alts) more))
          (Lexes-pipe std ascii (render std show alt ++ (render_more std show alts ++ rest))
            (emit alt ++ (emit_more alts ++ more))
            (Lexes-render alt (render_more std show alts ++ rest) (emit_more alts ++ more) fits.0
              (Stops-more alts rest stop) (Lexes-more alts rest more fits.1 stop h)))

  Lexes-nil : Lexes std ascii [] []
  unfolding lex_loop
  Lexes-nil fuel h = refl

  -- Let characters of ASCII be classed as letters as in ASCII. Then a specification of the grammar
  -- is read back from its print, if its degrees and hop counts are below 2^32 and each bandwidth is
  -- read back from its digits.
  pub parse-render :
      (spec : TopologySpec F)
      → IsSpec spec
      → Fits std show spec
      → parse std (render std show spec) ≡ ok spec
  unfolding parse lex
  parse-render spec shape fits =
      let text = render std show spec in
      let all =
        respell (sym (append-nil text)) (sym (append-nil (emit spec)))
          (Lexes-render spec [] [] fits tt Lexes-nil) in
      rw (parse, lex, all (length text) (omega arith), parse_tokens-emit spec shape) refl
