-- ===== src/Topology/Printer/Runs.antt =====
-- What the lexer makes of a run of digits or letters, and one round of its loop.
use nemesis.Prelude.{
  ℕ, zero, suc, ◌<◌, ◌≤◌, ◌^◌, true, false, List, [], ◌∷◌, ◌++◌, some, ok, ◌≡◌, ◌≢◌, refl, ◌∙◌,
  length, length-append, All, arith, Text, is_digit, decimal, value-decimal, ltb, lt→ltb, all, ◌&&◌,
}
use nemesis.Topology.Syntax.{Token}
use nemesis.Topology.RustStd.{RustStd, is_ascii_letter}
use nemesis.Topology.Lexer.{
  LexError, collect_digits, parse_u32, guard_empty, collect_alpha, piece, lex_loop,
}
use nemesis.Topology.Printer.{ClassesAscii}

abbrev pub Digits : Text → Type 0
Digits = All (λ c. is_digit c ≡ true)

module _ {F : Type 0} (std : RustStd F) (ascii : ClassesAscii std) where
  open std use {parse_f32, is_alphabetic}

  -- No number and no keyword goes on here.
  abbrev pub Stops : Text → Type 0
  Stops [] = Unit
  Stops (c ∷ s) = (is_digit c ≡ false) × (is_alphabetic c ≡ false)

  abbrev pub StopsAlpha : Text → Type 0
  StopsAlpha [] = Unit
  StopsAlpha (c ∷ s) = is_alphabetic c ≡ false

  -- With enough fuel the loop reads the tokens.
  abbrev pub Lexes : Text → List (Token F) → Type 0
  Lexes s ts = (fuel : ℕ) → length s ≤ fuel → lex_loop std fuel s ≡ ok ts

  pub collect_digits-append :
      (ds rest : Text) → Digits ds → Stops rest → collect_digits (ds ++ rest) ≡ (ds, rest)
  unfolding collect_digits
  collect_digits-append [] [] h stop = refl
  collect_digits-append [] (c ∷ rest) h stop = rw (stop.0) refl
  collect_digits-append (d ∷ ds) rest h stop =
      rw (collect_digits, collect_digits-append ds rest h.1 stop, h.0) refl

  pub collect_alpha-append :
      (kw rest : Text)
      → All (λ c. is_alphabetic c ≡ true) kw
      → StopsAlpha rest
      → collect_alpha std (kw ++ rest) ≡ (kw, rest)
  unfolding collect_alpha
  collect_alpha-append [] [] h stop = refl
  collect_alpha-append [] (c ∷ rest) h stop = rw (stop) refl
  collect_alpha-append (k ∷ kw) rest h stop =
      rw (collect_alpha, collect_alpha-append kw rest h.1 stop, h.0) refl

  pub letter : (c : ℕ) → c < 128 → is_ascii_letter c ≡ true → is_alphabetic c ≡ true
  letter c small h = ascii c small ∙ h

  pub other : (c : ℕ) → c < 128 → is_ascii_letter c ≡ false → is_alphabetic c ≡ false
  other c small h = ascii c small ∙ h

  -- Digits end a keyword, as does what ends a number.
  pub StopsAlpha-Digits : (ds rest : Text) → Digits ds → Stops rest → StopsAlpha (ds ++ rest)
  StopsAlpha-Digits [] [] h stop = tt
  StopsAlpha-Digits [] (c ∷ rest) h stop = stop.1
  StopsAlpha-Digits (d ∷ ds) rest h stop = let digit = h.0 in other d (ground arith) (ground arith)

  pub guard_empty-ne-nil : (s : Text) (e : LexError) → s ≢ [] → guard_empty s e ≡ ok tt
  guard_empty-ne-nil [] e h = absurd (h refl)
  guard_empty-ne-nil (c ∷ s) e h = refl

  pub parse_u32-decimal : (n : ℕ) → n < 2 ^ 32 → parse_u32 (decimal n) ≡ some n
  unfolding parse_u32
  parse_u32-decimal n small = rw (parse_u32, value-decimal n, lt→ltb n (2 ^ 32) small) refl

  -- One round of the loop.
  pub Lexes-piece :
      (c : ℕ) (s : Text) (ts : List (Token F)) (rest : Text) (more : List (Token F))
      → piece std c s ≡ ok (ts, rest)
      → length rest ≤ length s
      → Lexes rest more
      → Lexes (c ∷ s) (ts ++ more)
  unfolding lex_loop
  Lexes-piece c s ts rest more round shorter h zero enough = absurd (omega arith)
  Lexes-piece c s ts rest more round shorter h (suc fuel) enough =
      rw (lex_loop, round, h fuel (omega arith)) refl

  -- A keyword in ASCII.
  pub letters :
      (s : Text)
      → all (λ c. ltb c 128 && is_ascii_letter c) s ≡ true
      → All (λ c. is_alphabetic c ≡ true) s
  letters [] h = tt
  letters (c ∷ s) h = (letter c (ground arith) (ground arith), letters s (ground arith))

  pub shorter : (kw p s : Text) → length s ≤ length (kw ++ (p ++ s))
  shorter kw p s = omega (arith, length-append kw (p ++ s), length-append p s)
