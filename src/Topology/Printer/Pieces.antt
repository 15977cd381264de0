-- ===== src/Topology/Printer/Pieces.antt =====
-- What the lexer makes of one printed piece, whatever follows it.
use nemesis.Prelude.{
  ℕ, ◌<◌, ◌^◌, true, false, List, [], ◌∷◌, ◌++◌, ok, ◌≡◌, refl, ◌∙◌, All, arith, Text, codes,
  decimal, decimal-digits, decimal-ne-nil, ◌==◌,
}
use nemesis.Topology.Syntax.{Token, ParallelDim, Constraint}
use nemesis.Topology.RustStd.{RustStd}
use nemesis.Topology.Lexer.{
  nvl, ib, constraint, dim_tokens, dim, piece, expected_number, nvl_without_number,
  ib_without_number,
}
use nemesis.Topology.Parser.Grammar.{emit_dim, emit_constraint}
use nemesis.Topology.Printer.{
  render_dim, DimFits, ClassesAscii, Shown, render_constraint, ConstraintFits,
}
use nemesis.Topology.Printer.Runs.{
  Stops, StopsAlpha, Lexes, collect_digits-append, collect_alpha-append, letter, StopsAlpha-Digits,
  guard_empty-ne-nil, parse_u32-decimal, Lexes-piece, letters, shorter,
}

module _ {F : Type 0} (std : RustStd F) (ascii : ClassesAscii std) where
  open std use {parse_f32, is_alphabetic}

  dim-decimal :
      (kw : Text) (n : ℕ) (rest : Text)
      → All (λ c. is_alphabetic c ≡ true) kw
      → n < 2 ^ 32
      → Stops std ascii rest
      → dim std (kw ++ (decimal n ++ rest)) ≡ dim_tokens std kw n rest
  unfolding dim
  dim-decimal kw n rest alpha small stop =
      let word =
        collect_alpha-append std ascii kw (decimal n ++ rest) alpha
          (StopsAlpha-Digits std ascii (decimal n) rest (decimal-digits n) stop) in
      let number = collect_digits-append std ascii (decimal n) rest (decimal-digits n) stop in
      let some_digit =
        guard_empty-ne-nil std ascii (decimal n) (expected_number kw) (decimal-ne-nil n) in
      rw (dim, word, number, some_digit, parse_u32-decimal std ascii n small) refl

  piece-alphabetic :
      (c : ℕ) (s : Text)
      → (c == b'+') ≡ false
      → (c == b'|') ≡ false
      → (c == b'_') ≡ false
      → is_alphabetic c ≡ true
      → piece std c s ≡ dim std (c ∷ s)
  unfolding piece
  piece-alphabetic c s plus pipe underscore alpha = rw (piece, plus, pipe, underscore, alpha) refl

  pub Lexes-dim :
      (d : ParallelDim) (rest : Text) (more : List (Token F))
      → DimFits d
      → Stops std ascii rest
      → Lexes std ascii rest more
      → Lexes std ascii (render_dim d ++ rest) (emit_dim d ++ more)
  Lexes-dim (ParallelDim.tp n) rest more small stop h =
      let start =
        piece-alphabetic b'T' (b'P' ∷ (decimal n ++ rest)) refl refl refl
          (letter std ascii b'T' (omega arith) refl) in
      let read = dim-decimal (codes "TP") n rest (letters std ascii (codes "TP") refl) small stop in
      Lexes-piece std ascii b'T' (b'P' ∷ (decimal n ++ rest)) (Token.tp ∷ Token.number n ∷ []) rest
        more (start ∙ read) (shorter std ascii (b'P' ∷ []) (decimal n) rest) h
  Lexes-dim (ParallelDim.pp n) rest more small stop h =
      let start =
        piece-alphabetic b'P' (b'P' ∷ (decimal n ++ rest)) refl refl refl
          (letter std ascii b'P' (omega arith) refl) in
      let read = dim-decimal (codes "PP") n rest (letters std ascii (codes "PP") refl) small stop in
      Lexes-piece std ascii b'P' (b'P' ∷ (decimal n ++ rest)) (Token.pp ∷ Token.number n ∷ []) rest
        more (start ∙ read) (shorter std ascii (b'P' ∷ []) (decimal n) rest) h
  Lexes-dim (ParallelDim.dp n) rest more small stop h =
      let start =
        piece-alphabetic b'D' (b'P' ∷ (decimal n ++ rest)) refl refl refl
          (letter std ascii b'D' (omega arith) refl) in
      let read = dim-decimal (codes "DP") n rest (letters std ascii (codes "DP") refl) small stop in
      Lexes-piece std ascii b'D' (b'P' ∷ (decimal n ++ rest)) (Token.dp ∷ Token.number n ∷ []) rest
        more (start ∙ read) (shorter std ascii (b'P' ∷ []) (decimal n) rest) h

  module _ (show : F → Text) where
    constraint-nvl :
        (bw : F) (rest : Text)
        → Shown std show bw
        → Stops std ascii rest
        → constraint std (codes "NVL" ++ (show bw ++ rest)) ≡ ok (Token.nvl_min bw ∷ [], rest)
    unfolding constraint nvl
    constraint-nvl bw rest shown stop =
        let word =
          collect_alpha-append std ascii (codes "NVL") (show bw ++ rest)
            (letters std ascii (codes "NVL") refl)
            (StopsAlpha-Digits std ascii (show bw) rest shown.1 stop) in
        let number = collect_digits-append std ascii (show bw) rest shown.1 stop in
        let some_digit = guard_empty-ne-nil std ascii (show bw) nvl_without_number shown.0 in
        rw (constraint, word, nvl, number, some_digit, shown.2) refl

    constraint-ib :
        (h : ℕ) (rest : Text)
        → h < 2 ^ 32
        → Stops std ascii rest
        → constraint std (codes "IB" ++ (decimal h ++ rest)) ≡ ok (Token.ib_max h ∷ [], rest)
    unfolding constraint ib
    constraint-ib h rest small stop =
        let word =
          collect_alpha-append std ascii (codes "IB") (decimal h ++ rest)
            (letters std ascii (codes "IB") refl)
            (StopsAlpha-Digits std ascii (decimal h) rest (decimal-digits h) stop) in
        let number = collect_digits-append std ascii (decimal h) rest (decimal-digits h) stop in
        let some_digit =
          guard_empty-ne-nil std ascii (decimal h) ib_without_number (decimal-ne-nil h) in
        rw (constraint, word, ib, number, some_digit, parse_u32-decimal std ascii h small) refl

    Stops→StopsAlpha : (rest : Text) → Stops std ascii rest → StopsAlpha std ascii rest
    Stops→StopsAlpha [] stop = tt
    Stops→StopsAlpha (c ∷ rest) stop = stop.1

    constraint-numa :
        (rest : Text)
        → Stops std ascii rest
        → constraint std (codes "NUMA" ++ rest) ≡ ok (Token.numa ∷ [], rest)
    unfolding constraint
    constraint-numa rest stop =
        let word =
          collect_alpha-append std ascii (codes "NUMA") rest (letters std ascii (codes "NUMA") refl)
            (Stops→StopsAlpha rest stop) in
        rw (constraint, word) refl

    piece-constraint : (s : Text) → piece std b'_' s ≡ constraint std s
    unfolding piece
    piece-constraint s = refl

    pub Lexes-constraint :
        (c : Constraint F) (rest : Text) (more : List (Token F))
        → ConstraintFits std show c
        → Stops std ascii rest
        → Lexes std ascii rest more
        → Lexes std ascii (render_constraint std show c ++ rest) (emit_constraint c ∷ more)
    Lexes-constraint (Constraint.nvl_min bw) rest more fits stop h =
        let read = constraint-nvl bw rest fits stop in
        let s = codes "NVL" ++ (show bw ++ rest) in
        Lexes-piece std ascii b'_' s (Token.nvl_min bw ∷ []) rest more (piece-constraint s ∙ read)
          (shorter std ascii (codes "NVL") (show bw) rest) h
    Lexes-constraint (Constraint.ib_max hops) rest more fits stop h =
        let read = constraint-ib hops rest fits stop in
        let s = codes "IB" ++ (decimal hops ++ rest) in
        Lexes-piece std ascii b'_' s (Token.ib_max hops ∷ []) rest more (piece-constraint s ∙ read)
          (shorter std ascii (codes "IB") (decimal hops) rest) h
    Lexes-constraint Constraint.numa rest more fits stop h =
        let read = constraint-numa rest stop in
        let s = codes "NUMA" ++ rest in
        Lexes-piece std ascii b'_' s (Token.numa ∷ []) rest more (piece-constraint s ∙ read)
          (shorter std ascii (codes "NUMA") [] rest) h

  piece-plus : (s : Text) → piece std b'+' s ≡ ok (Token.plus ∷ [], s)
  unfolding piece
  piece-plus s = refl

  piece-pipe : (s : Text) → piece std b'|' s ≡ ok (Token.pipe ∷ [], s)
  unfolding piece
  piece-pipe s = refl

  pub Lexes-plus :
      (rest : Text) (more : List (Token F))
      → Lexes std ascii rest more
      → Lexes std ascii (b'+' ∷ rest) (Token.plus ∷ more)
  Lexes-plus rest more h =
      Lexes-piece std ascii b'+' rest (Token.plus ∷ []) rest more (piece-plus rest) (omega arith) h

  pub Lexes-pipe :
      (rest : Text) (more : List (Token F))
      → Lexes std ascii rest more
      → Lexes std ascii (b'|' ∷ rest) (Token.pipe ∷ more)
  Lexes-pipe rest more h =
      Lexes-piece std ascii b'|' rest (Token.pipe ∷ []) rest more (piece-pipe rest) (omega arith) h
