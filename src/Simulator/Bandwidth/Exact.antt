-- ===== src/Simulator/Bandwidth/Exact.antt =====
-- Numbers without fractions in place of `f64`, for which the laws hold.
use native.Mathlib.Nat.{
  div-mul-le_self, le-div_iff_mul-le, div-le_self, div-le_of_le-mul, mul-le-mul_left,
}
use nemesis.Prelude.{ℕ, ◌+◌, ◌-◌, ◌*◌, ◌/◌, ◌^◌, ◌≤◌, ◌<◌, min, refl, arith}
use nemesis.Simulator.Bandwidth.{Doubles}
use nemesis.Simulator.Bandwidth.Faster.{DoubleLaws}

abbrev pub whole_numbers : Doubles ℕ
whole_numbers = record {
  of_nat = λ n. n;
  plus = λ a b. a + b;
  times = λ a b. a * b;
  over = λ a b. a / b;
  as_u64 = λ a. min a (2 ^ 64 - 1);
}

pub over_mono_lem : (a b c : ℕ) → 0 < c → a ≤ b → a / c ≤ b / c
over_mono_lem a b c pos h =
    (le-div_iff_mul-le {k = c} {x = a / c} {y = b} pos).1 (omega (arith, div-mul-le_self a c))

pub over_anti_lem : (x a b : ℕ) → 0 < a → a ≤ b → x / b ≤ x / a
over_anti_lem x a b pos h =
    (le-div_iff_mul-le {k = a} {x = x / b} {y = x} pos).1
      (omega (arith, div-mul-le_self x b, mul-le-mul_left (x / b) h))

unfoldable pub whole_numbers-DoubleLaws : DoubleLaws whole_numbers
whole_numbers-DoubleLaws = record {
  Le = λ a b. a ≤ b;
  Pos = λ a. 0 < a;
  NonNeg = λ a. Unit;
  le_trans = λ a b c h k. omega arith;
  of_nat_mono = λ m n h k. h;
  of_nat_nonneg = λ n h. tt;
  times_exact = λ m n h. refl;
  times_nonneg = λ a n h k l. tt;
  over_nonneg = λ a n h k l. tt;
  over_smaller = λ a n h k l. div-le_self a n;
  over_mono = over_mono_lem;
  over_anti = λ x a b h pos pos' k. over_anti_lem x a b pos k;
  over_at_most = λ a b h pos k. div-le_of_le-mul b (omega arith);
  of_nat_pos = λ n h k. h;
  pos_nonneg = λ a h. tt;
  plus_pos = λ a n h k. omega arith;
  plus_larger = λ a n h k. omega arith;
  plus_mono = λ a b c h k. omega arith;
  as_u64_mono = λ a b h. omega arith;
  as_u64_range = λ a. omega arith;
}
