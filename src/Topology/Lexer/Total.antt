-- ===== src/Topology/Lexer/Total.antt =====
-- The lexer always answers, and the numbers in its tokens are `u32`s.
use nemesis.Prelude.{
  Text, codes, text_eq, ℕ, zero, suc, ◌^◌, ◌≤◌, ◌<◌, ◌≡◌, refl, ◌≢◌, arith, true, List, [], ◌∷◌,
  ◌++◌, Option, none, some, Result, length, Ensures, holds, fails, Ensures->>=, Ensures-if, ◌==◌,
}
use nemesis.Topology.Syntax.{Token}
use nemesis.Topology.RustStd.{RustStd}
use nemesis.Topology.Lexer.{
  LexError, nvl_without_number, bad_nvl_number, ib_without_number, bad_ib_number, expected_number,
  out_of_fuel, collect_digits, parse_u32, expect_some, guard_empty, collect_alpha, nvl, ib,
  constraint, dim_tokens, dim, piece, lex_loop, lex,
}

abbrev pub IsReal : LexError → Type 0
IsReal e = e ≢ out_of_fuel

collect_digits-length : (s : Text) → length (collect_digits s).1 ≤ length s
unfolding collect_digits
collect_digits-length [] = omega arith
collect_digits-length (c ∷ s) = ground (arith, collect_digits-length s)

guard_empty-Ensures :
    (n : Text) (e : LexError) → IsReal e → Ensures (λ u. Unit {0}) IsReal (guard_empty n e)
guard_empty-Ensures [] e real = fails real
guard_empty-Ensures (c ∷ n) e real = holds tt

expect_some-Ensures :
    {A : Type 0} (o : Option A) (e : LexError)
    → IsReal e
    → Ensures (λ a. o ≡ some a) IsReal (expect_some o e)
expect_some-Ensures none e real = fails real
expect_some-Ensures (some a) e real = holds refl

parse_u32-lt : (s : Text) {n : ℕ} → parse_u32 s ≡ some n → n < 2 ^ 32
unfolding parse_u32
parse_u32-lt s h = ground arith

module _ {F : Type 0} where
  abbrev pub IsU32 : Token F → Type 0
  IsU32 (Token.number n) = n < 2 ^ 32
  IsU32 (Token.ib_max n) = n < 2 ^ 32
  IsU32 _ = Unit

  abbrev pub AllU32 : List (Token F) → Type 0
  AllU32 [] = Unit
  AllU32 (t ∷ ts) = IsU32 t × AllU32 ts

  AllU32-append : (ts us : List (Token F)) → AllU32 ts → AllU32 us → AllU32 (ts ++ us)
  AllU32-append [] us h k = k
  AllU32-append (t ∷ ts) us h k = (h.0, AllU32-append ts us h.1 k)

module _ {F : Type 0} (std : RustStd F) where
  open std use {parse_f32, is_alphabetic}

  collect_alpha-length : (s : Text) → length (collect_alpha std s).1 ≤ length s
  unfolding collect_alpha
  collect_alpha-length [] = omega arith
  collect_alpha-length (c ∷ s) = ground (arith, collect_alpha-length s)

  collect_alpha-first :
      (c : ℕ) (s : Text) → is_alphabetic c ≡ true → length (collect_alpha std (c ∷ s)).1 ≤ length s
  unfolding collect_alpha
  collect_alpha-first c s h = rw h (collect_alpha-length s)

  -- The tokens are in range, and no more than `n` characters are left.
  abbrev Takes : ℕ → Result (List (Token F) × Text) LexError → Type 0
  Takes n r = Ensures {A = List (Token F) × Text} (λ p. AllU32 p.0 × (length p.1 ≤ n)) IsReal r

  weaken : {n m : ℕ} {r : Result (List (Token F) × Text) LexError} → n ≤ m → Takes n r → Takes m r
  weaken h (holds p) = holds (p.0, omega arith)
  weaken h (fails real) = fails real

  nvl-Takes : (s : Text) → Takes (length s) (nvl std s)
  unfolding nvl
  nvl-Takes s =
      Ensures->>= (guard_empty-Ensures (collect_digits s).0 nvl_without_number (λ e. cc)) λ u v.
        Ensures->>= (expect_some-Ensures (parse_f32 (collect_digits s).0) bad_nvl_number (λ e. cc))
          λ bw e. holds ((tt, tt), collect_digits-length s)

  ib-Takes : (s : Text) → Takes (length s) (ib std s)
  unfolding ib
  ib-Takes s =
      Ensures->>= (guard_empty-Ensures (collect_digits s).0 ib_without_number (λ e. cc)) λ u v.
        Ensures->>= (expect_some-Ensures (parse_u32 (collect_digits s).0) bad_ib_number (λ e. cc))
          λ hops e. holds ((parse_u32-lt (collect_digits s).0 e, tt), collect_digits-length s)

  constraint-Takes : (s : Text) → Takes (length s) (constraint std s)
  unfolding constraint
  constraint-Takes s =
      let (kw, rest) = collect_alpha std s in
      let shorter = collect_alpha-length s in
      Ensures-if (text_eq kw (codes "NVL")) (λ e. weaken shorter (nvl-Takes rest))
        λ e.
          Ensures-if (text_eq kw (codes "IB")) (λ e. weaken shorter (ib-Takes rest))
            λ e.
              Ensures-if (text_eq kw (codes "NUMA")) (λ e. holds ((tt, tt), shorter))
                λ e. fails (λ e. cc)

  dim_tokens-Takes :
      (kw : Text) (n : ℕ) (rest : Text)
      → n < 2 ^ 32
      → Takes (length rest) (dim_tokens std kw n rest)
  dim_tokens-Takes kw n rest small =
      Ensures-if (text_eq kw (codes "TP")) (λ e. holds ((tt, (small, tt)), omega arith))
        λ e.
          Ensures-if (text_eq kw (codes "PP")) (λ e. holds ((tt, (small, tt)), omega arith))
            λ e.
              Ensures-if (text_eq kw (codes "DP")) (λ e. holds ((tt, (small, tt)), omega arith))
                λ e. fails (λ e. cc)

  dim-Takes : (c : ℕ) (s : Text) → is_alphabetic c ≡ true → Takes (length s) (dim std (c ∷ s))
  unfolding dim
  dim-Takes c s alpha =
      let (kw, rest) = collect_alpha std (c ∷ s) in
      let (digits, left) = collect_digits rest in
      Ensures->>= (guard_empty-Ensures digits (expected_number kw) (λ e. cc)) λ u v.
        Ensures->>= (expect_some-Ensures (parse_u32 digits) (expected_number kw) (λ e. cc)) λ n e.
          weaken (omega (arith, collect_digits-length rest, collect_alpha-first c s alpha))
            (dim_tokens-Takes kw n left (parse_u32-lt digits e))

  piece-Takes : (c : ℕ) (s : Text) → Takes (length s) (piece std c s)
  unfolding piece
  piece-Takes c s =
      Ensures-if (c == b'+') (λ e. holds ((tt, tt), omega arith))
        λ e.
          Ensures-if (c == b'|') (λ e. holds ((tt, tt), omega arith))
            λ e.
              Ensures-if (c == b'_') (λ e. constraint-Takes s)
                λ e.
                  Ensures-if (is_alphabetic c) (λ alpha. dim-Takes c s alpha) λ e. fails (λ e. cc)

  lex_loop-Ensures :
      (fuel : ℕ) (s : Text) → length s ≤ fuel → Ensures AllU32 IsReal (lex_loop std fuel s)
  unfolding lex_loop
  lex_loop-Ensures zero [] h = holds tt
  lex_loop-Ensures (suc fuel) [] h = holds tt
  lex_loop-Ensures zero (c ∷ s) h = absurd (omega arith)
  lex_loop-Ensures (suc fuel) (c ∷ s) h =
      Ensures->>= (piece-Takes c s) λ (ts, rest) (small, shorter).
        Ensures->>= (lex_loop-Ensures fuel rest (omega arith))
          λ more smalls. holds (AllU32-append ts more small smalls)

  -- Whatever the text, the lexer's fuel does not run out: it returns tokens or a message. The
  -- degrees and hop counts of the tokens are below 2^32.
  pub lex-Ensures : (s : Text) → Ensures AllU32 IsReal (lex std s)
  unfolding lex
  lex-Ensures s = lex_loop-Ensures (length s) s (omega arith)
