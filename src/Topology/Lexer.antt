-- ===== src/Topology/Lexer.antt =====
-- substrate/crates/nemesis-topology/src/lexer.rs over a text of code points. The iterator `chars`
-- is the text from there on, and each function returns what it leaves.
pub mod Total
pub mod Whole
mod Tests
use Prim.Native.Char.{code}
use Prim.Native.String.{String as Literal}
use nemesis.Prelude.{
  Text, codes, text_eq, is_digit, value, ℕ, zero, suc, ◌+◌, ◌-◌, ◌*◌, ◌^◌, Bool, true, false, ◌&&◌,
  List, [], ◌∷◌, ◌++◌, Option, none, some, Result, ok, err, ◌>>=◌, length, ltb, leb, ◌==◌,
  if◌then◌else◌,
}
use nemesis.Topology.Syntax.{Token}
use nemesis.Topology.RustStd.{RustStd}

-- The messages, each with the value put into it; `out_of_fuel` belongs to the model only.
pub data LexError : Type 0 where
  nvl_without_number bad_nvl_number ib_without_number bad_ib_number : LexError
  unknown_constraint expected_number unknown_dim : Text → LexError
  unexpected_character : ℕ → LexError
  out_of_fuel : LexError

unfoldable pub collect_digits : Text → Text × Text
collect_digits [] = ([], [])
collect_digits (c ∷ s) =
    let (run, rest) = collect_digits s in if is_digit c then (c ∷ run, rest) else ([], c ∷ s)

-- `parse::<u32>` on a run of digits that is not empty: it fails on overflow alone.
unfoldable pub parse_u32 : Text → Option ℕ
unfolding value
parse_u32 s = if ltb (value 0 s) (2 ^ 32) then some (value 0 s) else none

abbrev pub expect_some {ℓ} : {A : Type ℓ} → Option A → LexError → Result A LexError
expect_some none e = err e
expect_some (some a) e = ok a

abbrev pub guard_empty : Text → LexError → Result (Unit {0}) LexError
guard_empty [] e = err e
guard_empty (c ∷ s) e = ok tt

module _ {F : Type 0} (std : RustStd F) where
  open std use {parse_f32, is_alphabetic}

  unfoldable pub collect_alpha : Text → Text × Text
  collect_alpha [] = ([], [])
  collect_alpha (c ∷ s) =
      let (run, rest) = collect_alpha s in if is_alphabetic c then (c ∷ run, rest) else ([], c ∷ s)

  abbrev pub Piece : Type 0
  Piece = Result (List (Token F) × Text) LexError

  unfoldable pub nvl : Text → Piece
  nvl s = do
    let (n, rest) = collect_digits s
    _ ← guard_empty n nvl_without_number
    bw ← expect_some (parse_f32 n) bad_nvl_number
    ok (Token.nvl_min bw ∷ [], rest)

  unfoldable pub ib : Text → Piece
  ib s = do
    let (n, rest) = collect_digits s
    _ ← guard_empty n ib_without_number
    hops ← expect_some (parse_u32 n) bad_ib_number
    ok (Token.ib_max hops ∷ [], rest)

  -- The arm of `'_'`, behind the underscore.
  unfoldable pub constraint : Text → Piece
  constraint s =
      let (kw, rest) = collect_alpha s in
      if text_eq kw (codes "NVL")
      then nvl rest
      else if text_eq kw (codes "IB")
      then ib rest
      else if text_eq kw (codes "NUMA")
      then ok (Token.numa ∷ [], rest)
      else err (unknown_constraint kw)

  abbrev pub dim_tokens : Text → ℕ → Text → Piece
  dim_tokens kw n rest =
      if text_eq kw (codes "TP")
      then ok (Token.tp ∷ Token.number n ∷ [], rest)
      else if text_eq kw (codes "PP")
      then ok (Token.pp ∷ Token.number n ∷ [], rest)
      else if text_eq kw (codes "DP")
      then ok (Token.dp ∷ Token.number n ∷ [], rest)
      else err (unknown_dim kw)

  -- The arm of an alphabetic character, which is the first of the text.
  unfoldable pub dim : Text → Piece
  dim s = do
    let (kw, rest) = collect_alpha s
    let (digits, left) = collect_digits rest
    _ ← guard_empty digits (expected_number kw)
    n ← expect_some (parse_u32 digits) (expected_number kw)
    dim_tokens kw n left

  -- One round of the loop, at the character `c` before `s`.
  unfoldable pub piece : ℕ → Text → Piece
  piece c s =
      if c == b'+'
      then ok (Token.plus ∷ [], s)
      else if c == b'|'
      then ok (Token.pipe ∷ [], s)
      else if c == b'_'
      then constraint s
      else if is_alphabetic c
      then dim (c ∷ s)
      else err (unexpected_character c)

  -- Each round takes a character or more, so that the length of the text is enough fuel.
  unfoldable pub lex_loop : ℕ → Text → Result (List (Token F)) LexError
  lex_loop fuel [] = ok []
  lex_loop zero (c ∷ s) = err out_of_fuel
  lex_loop (suc fuel) (c ∷ s) = do
    (ts, rest) ← piece c s
    more ← lex_loop fuel rest
    ok (ts ++ more)

  unfoldable pub lex : Text → Result (List (Token F)) LexError
  lex s = lex_loop (length s) s
