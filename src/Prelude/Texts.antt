-- ===== src/Prelude/Texts.antt =====
-- Texts as lists of code points, and what Rust's library does with them: trimming, splitting,
-- joining, replacing, and numbers in decimal.
use Prim.Native.Char.{code}
use Prim.Native.String.{String as Literal}
use Prim.Native.Nat.{ℕ, zero, suc, ◌+◌, ◌-◌, ◌*◌, ◌/◌, ◌%◌, ◌^◌, ◌<◌}
use mathlib.Core.Path.{◌≡◌, refl, ap, ◌∙◌}
use mathlib.Core.Bool.{Bool, true, false, ◌&&◌}
use mathlib.Core.Logic.{◌≢◌, inl, inr}
use mathlib.Core.Option.{Option, none, some}
use mathlib.Core.List.{List, [], ◌∷◌}
use native.Mathlib.Omega.{arith}
use nemesis.Prelude.Tests.{ltb, leb, ◌==◌, if◌then◌else◌, Bool-cases}
use nemesis.Prelude.Predicates.{All}

abbrev pub Text : Type 0
Text = List ℕ

abbrev pub codes : Literal → Text
codes Literal.[] = []
codes (Literal.◌∷◌ c s) = code c ∷ codes s

abbrev pub text_eq : Text → Text → Bool
text_eq [] [] = true
text_eq (a ∷ s) (b ∷ t) = a == b && text_eq s t
text_eq _ _ = false

pub text_eq_refl : (s : Text) → text_eq s s ≡ true
text_eq_refl [] = refl
text_eq_refl (c ∷ s) = ground (arith, text_eq_refl s)

pub text_eq_sound : (s t : Text) → text_eq s t ≡ true → s ≡ t
text_eq_sound [] [] h = refl
text_eq_sound [] (b ∷ t) h = cc
text_eq_sound (a ∷ s) [] h = cc
text_eq_sound (a ∷ s) (b ∷ t) h = ground (arith, text_eq_sound s t)

abbrev pub is_digit : ℕ → Bool
is_digit c = leb b'0' c && leb c b'9'

-- The number that digits stand for, read on from `acc`.
unfoldable pub value : ℕ → Text → ℕ
value acc [] = acc
value acc (c ∷ s) = value (10 * acc + (c - b'0')) s

abbrev pub all_digits : Text → Bool
all_digits [] = true
all_digits (c ∷ s) = is_digit c && all_digits s

-- `str::parse` of an unsigned type with `bits` bits: a plus sign may stand first.
unfoldable pub parse_digits : ℕ → Text → Option ℕ
unfolding value
parse_digits bits [] = none
parse_digits bits (c ∷ s) =
    if all_digits (c ∷ s) && ltb (value 0 (c ∷ s)) (2 ^ bits) then some (value 0 (c ∷ s)) else none

unfoldable pub parse_unsigned : ℕ → Text → Option ℕ
unfolding parse_digits
parse_unsigned bits [] = none
parse_unsigned bits (c ∷ s) = if c == b'+' then parse_digits bits s else parse_digits bits (c ∷ s)

-- `to_string` of an unsigned number. A round takes one digit, so that `suc n` rounds are enough.
unfoldable pub decimal_from : ℕ → ℕ → Text → Text
decimal_from zero n out = out
decimal_from (suc fuel) n out = elim (ltb n 10) [
  | true ↦ (b'0' + n % 10) ∷ out
  | false ↦ decimal_from fuel (n / 10) ((b'0' + n % 10) ∷ out)
]

unfoldable pub decimal : ℕ → Text
unfolding decimal_from
decimal n = decimal_from (suc n) n []

value-decimal_from :
    (fuel n : ℕ) (out : Text) → n < fuel → value 0 (decimal_from fuel n out) ≡ value n out
unfolding decimal_from value
value-decimal_from zero n out h = absurd (omega arith)
value-decimal_from (suc fuel) n out h = elim (Bool-cases (ltb n 10)) [
  | inl small ↦
      let digit : 10 * 0 + (b'0' + n % 10 - b'0') ≡ n = ground arith in
      rw (decimal_from, small) (ap (λ k. value k out) digit)
  | inr large ↦
      let last : 10 * (n / 10) + (b'0' + n % 10 - b'0') ≡ n = omega arith in
      rw (decimal_from, large)
        (value-decimal_from fuel (n / 10) ((b'0' + n % 10) ∷ out) (ground arith)
          ∙ ap (λ k. value k out) last)
]

-- The decimal print stands for its number.
pub value-decimal : (n : ℕ) → value 0 (decimal n) ≡ n
unfolding decimal value
value-decimal n = value-decimal_from (suc n) n [] (omega arith)

decimal_from-digits :
    (fuel n : ℕ) (out : Text)
    → All (λ c. is_digit c ≡ true) out
    → All (λ c. is_digit c ≡ true) (decimal_from fuel n out)
unfolding decimal_from
decimal_from-digits zero n out h = h
decimal_from-digits (suc fuel) n out h =
    let digit : is_digit (b'0' + n % 10) ≡ true = ground arith in
    elim (Bool-cases (ltb n 10)) [
      | inl small ↦ rw (decimal_from, small) (digit, h)
      | inr large ↦
          rw (decimal_from, large)
            (decimal_from-digits fuel (n / 10) ((b'0' + n % 10) ∷ out) (digit, h))
    ]

pub decimal-digits : (n : ℕ) → All (λ c. is_digit c ≡ true) (decimal n)
unfolding decimal
decimal-digits n = decimal_from-digits (suc n) n [] tt

decimal_from-ne-nil : (fuel n : ℕ) (c : ℕ) (out : Text) → decimal_from fuel n (c ∷ out) ≢ []
unfolding decimal_from
decimal_from-ne-nil zero n c out h = cc
decimal_from-ne-nil (suc fuel) n c out h = elim (Bool-cases (ltb n 10)) [
  | inl small ↦ cc (rw (decimal_from, small) at h)
  | inr large ↦
      decimal_from-ne-nil fuel (n / 10) (b'0' + n % 10) (c ∷ out) (rw (decimal_from, large) at h)
]

pub decimal-ne-nil : (n : ℕ) → decimal n ≢ []
unfolding decimal decimal_from
decimal-ne-nil n h = elim (Bool-cases (ltb n 10)) [
  | inl small ↦ cc (rw (decimal_from, small) at h)
  | inr large ↦ decimal_from-ne-nil n (n / 10) (b'0' + n % 10) [] (rw (decimal_from, large) at h)
]

pub all_digits_of_All : (s : Text) → All (λ c. is_digit c ≡ true) s → all_digits s ≡ true
all_digits_of_All [] h = refl
all_digits_of_All (c ∷ s) h = rw (h.0, all_digits_of_All s h.1)

parse_digits-All :
    (bits : ℕ) (s : Text)
    → s ≢ []
    → All (λ c. is_digit c ≡ true) s
    → value 0 s < 2 ^ bits
    → parse_unsigned bits s ≡ some (value 0 s)
unfolding parse_unsigned parse_digits
parse_digits-All bits [] ne h small = absurd (ne refl)
parse_digits-All bits (c ∷ s) ne h small = elim (Bool-cases (c == b'+')) [
  | inl plus ↦ let digit = h.0 in ground arith
  | inr other ↦ rw (other, parse_digits, h.0, all_digits_of_All s h.1) (ground arith)
]

-- A number below the bound is read back from its print.
pub parse_unsigned-decimal : (bits n : ℕ) → n < 2 ^ bits → parse_unsigned bits (decimal n) ≡ some n
parse_unsigned-decimal bits n small =
    let exact = value-decimal n in
    parse_digits-All bits (decimal n) (decimal-ne-nil n) (decimal-digits n) (rw exact small)
    ∙ ap some exact
