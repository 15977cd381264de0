-- ===== src/Prelude/Strings.antt =====
-- More of Rust's `str`: trimming, splitting and joining, and `replace`.
use Prim.Native.Nat.{ℕ, zero, suc, ◌-◌}
use mathlib.Core.Path.{◌≡◌, refl, ap, ◌∙◌}
use mathlib.Core.Bool.{Bool, true, false, ◌&&◌, ◌||◌}
use mathlib.Core.List.{List, [], ◌∷◌, ◌++◌, append-nil}
use native.Mathlib.Omega.{arith}
use nemesis.Prelude.Tests.{leb, ◌==◌, if◌then◌else◌}
use nemesis.Prelude.Lists.{length}
use nemesis.Prelude.Predicates.{All}
use nemesis.Prelude.Texts.{Text}

-- `char::is_whitespace`, the property White_Space of Unicode.
abbrev pub is_whitespace : ℕ → Bool
is_whitespace c =
    leb 9 c && leb c 13
    || c == 32
    || c == 133
    || c == 160
    || c == 5760
    || leb 8192 c && leb c 8202
    || c == 8232
    || c == 8233
    || c == 8239
    || c == 8287
    || c == 12288

-- `str::trim`.
abbrev pub trim_start : Text → Text
trim_start [] = []
trim_start (c ∷ s) = elim (is_whitespace c) [ true ↦ trim_start s | false ↦ c ∷ s ]

abbrev pub keep_end : ℕ → Text → Text
keep_end c [] = if is_whitespace c then [] else c ∷ []
keep_end c (d ∷ s) = c ∷ d ∷ s

abbrev pub trim_end : Text → Text
trim_end [] = []
trim_end (c ∷ s) = keep_end c (trim_end s)

unfoldable pub trim : Text → Text
trim s = trim_end (trim_start s)

-- `str::split` at one character: the first part, and those behind it.
abbrev pub add_to_first : ℕ → List Text → List Text
add_to_first c [] = (c ∷ []) ∷ []
add_to_first c (p ∷ ps) = (c ∷ p) ∷ ps

unfoldable pub split : ℕ → Text → List Text
split sep [] = [] ∷ []
split sep (c ∷ s) = if c == sep then [] ∷ split sep s else add_to_first c (split sep s)

-- `join` with one character.
abbrev pub behind : ℕ → List Text → Text
behind sep [] = []
behind sep (p ∷ ps) = sep ∷ (p ++ behind sep ps)

abbrev pub join : ℕ → List Text → Text
join sep [] = []
join sep (p ∷ ps) = p ++ behind sep ps

abbrev pub starts_with : Text → Text → Bool
starts_with [] s = true
starts_with (a ∷ t) [] = false
starts_with (a ∷ t) (b ∷ s) = a == b && starts_with t s

-- `str::replace` for a pattern that is not empty; `skip` characters belong to an occurrence.
unfoldable pub replace_from : Text → Text → ℕ → Text → Text
replace_from pat by skip [] = []
replace_from pat by (suc skip) (c ∷ s) = replace_from pat by skip s
replace_from pat by zero (c ∷ s) = elim (starts_with pat (c ∷ s)) [
  | true ↦ by ++ replace_from pat by (length pat - 1) s
  | false ↦ c ∷ replace_from pat by zero s
]

abbrev pub replace : Text → Text → Text → Text
replace s pat by = replace_from pat by zero s

abbrev pub Lacks : ℕ → Text → Type 0
Lacks sep = All (λ c. (c == sep) ≡ false)

-- A part without the separator is read up to the separator behind it, or to the end.
pub split-part_end : (sep : ℕ) (p : Text) → Lacks sep p → split sep p ≡ p ∷ []
unfolding split
split-part_end sep [] h = refl
split-part_end sep (c ∷ p) h = rw (split, h.0, split-part_end sep p h.1)

split-part : (sep : ℕ) (p s : Text) → Lacks sep p → split sep (p ++ sep ∷ s) ≡ p ∷ split sep s
unfolding split
split-part sep [] s h = let same : (sep == sep) ≡ true = ground arith in rw (split, same)
split-part sep (c ∷ p) s h = rw (split, h.0, split-part sep p s h.1)

-- Splitting a join gives the parts back, if there is one and none has the separator.
pub split-join :
    (sep : ℕ) (p : Text) (ps : List Text)
    → Lacks sep p
    → All (Lacks sep) ps
    → split sep (join sep (p ∷ ps)) ≡ p ∷ ps
split-join sep p [] h hs = ap (split sep) (append-nil p) ∙ split-part_end sep p h
split-join sep p (q ∷ ps) h hs =
    split-part sep p (q ++ behind sep ps) h ∙ ap (λ l. p ∷ l) (split-join sep q ps hs.0 hs.1)

abbrev NoSpace : Text → Type 0
NoSpace = All (λ c. is_whitespace c ≡ false)

trim_end-NoSpace : (s : Text) → NoSpace s → trim_end s ≡ s
trim_end-NoSpace [] h = refl
trim_end-NoSpace (c ∷ []) h = rw (h.0)
trim_end-NoSpace (c ∷ d ∷ s) h = ap (keep_end c) (trim_end-NoSpace (d ∷ s) h.1)

trim_start-NoSpace : (s : Text) → NoSpace s → trim_start s ≡ s
trim_start-NoSpace [] h = refl
trim_start-NoSpace (c ∷ s) h = rw (h.0, trim_start)

-- A text without white space is left as it is.
pub trim-NoSpace : (s : Text) → All (λ c. is_whitespace c ≡ false) s → trim s ≡ s
unfolding trim
trim-NoSpace s h = ap trim_end (trim_start-NoSpace s h) ∙ trim_end-NoSpace s h
