-- ===== src/Simulator/Scenario.antt =====
-- sim/crates/nemesis-sim/src/scenario.rs: scenarios of faults. The file and the YAML parser are
-- arguments, and `F` is the type of `f32`s.
use nemesis.Prelude.{
  ℕ, zero, suc, ◌<◌, ◌^◌, true, false, List, [], ◌∷◌, ◌++◌, Option, some, Result, ok, err, ◌≡◌,
  refl, ap, if◌then◌else◌, ◌==◌, Text, All-map, Lacks, arith, is_digit, decimal, decimal-digits,
  parse_unsigned, parse_unsigned-decimal,
}

pub record TimelineEvent (F : Type 0) : Type 0 where
  pub t : Text
  pub gpu : Option Text
  pub action : Text
  pub rate : Option F

pub record Scenario (F : Type 0) : Type 0 where
  pub scenario : Text
  pub description : Text
  pub timeline : List (TimelineEvent F)

-- `trim_end_matches` for one character.
abbrev keep_unless : ℕ → ℕ → Text → Text
keep_unless sep c [] = if c == sep then [] else c ∷ []
keep_unless sep c (d ∷ s) = c ∷ d ∷ s

unfoldable pub trim_end_matches : ℕ → Text → Text
trim_end_matches sep [] = []
trim_end_matches sep (c ∷ s) = keep_unless sep c (trim_end_matches sep s)

unfoldable pub t_seconds : {F : Type 0} → TimelineEvent F → Option ℕ
unfolding trim_end_matches
t_seconds e = parse_unsigned 64 (trim_end_matches b's' e.t)

-- The error is that of the file or of the parser.
unfoldable pub load_scenario :
    {F P E : Type 0}
    → (P → Result Text E)
    → (Text → Result (Scenario F) E)
    → P
    → Result (Scenario F) E
load_scenario read from_str path = elim (read path) [
  | err e ↦ err e
  | ok content ↦ from_str content
]

abbrev pub repeated : ℕ → ℕ → Text
repeated c zero = []
repeated c (suc k) = c ∷ repeated c k

trim_end_matches-repeated : (sep k : ℕ) → trim_end_matches sep (repeated sep k) ≡ []
unfolding trim_end_matches
trim_end_matches-repeated sep zero = refl
trim_end_matches-repeated sep (suc k) =
    let same : (sep == sep) ≡ true = ground arith in
    rw (trim_end_matches, trim_end_matches-repeated sep k, same) refl

trim_end_matches-Lacks :
    (sep k : ℕ) (s : Text) → Lacks sep s → trim_end_matches sep (s ++ repeated sep k) ≡ s
unfolding trim_end_matches
trim_end_matches-Lacks sep k [] h = trim_end_matches-repeated sep k
trim_end_matches-Lacks sep k (c ∷ []) h =
    rw (trim_end_matches, trim_end_matches-repeated sep k, h.0) refl
trim_end_matches-Lacks sep k (c ∷ d ∷ s) h =
    ap (keep_unless sep c) (trim_end_matches-Lacks sep k (d ∷ s) h.1)

digit-s : (c : ℕ) → is_digit c ≡ true → (c == b's') ≡ false
digit-s c h = ground arith

-- A time of whole seconds, a 64-bit number in decimal, is read back whether one letter `s` stands
-- behind it, or none, or several.
pub t_seconds_lem :
    {F : Type 0} (e : TimelineEvent F) (n k : ℕ)
    → n < 2 ^ 64
    → e.t ≡ decimal n ++ repeated b's' k
    → t_seconds e ≡ some n
unfolding t_seconds
t_seconds_lem e n k small written =
    let bare = All-map _ _ (decimal n) digit-s (decimal-digits n) in
    rw (written, trim_end_matches-Lacks b's' k (decimal n) bare) (parse_unsigned-decimal 64 n small)
