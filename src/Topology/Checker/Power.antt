-- ===== src/Topology/Checker/Power.antt =====
-- Rule 1 of the checker: `n & (n - 1)` is zero for the powers of two, and for no other positive
-- number.
use Prim.Native.Nat.{bit_and, bit_and-bitwise, digits}
use native.Mathlib.Nat.{pow-suc}
use native.Mathlib.Decide.{ℕ_discrete}
use nemesis.Prelude.{
  ℕ, zero, suc, ◌-◌, ◌*◌, ◌/◌, ◌%◌, ◌^◌, ◌≤◌, ◌<◌, min, ◌≡◌, refl, ◌↔◌, arith, false, sym, ◌∙◌, ap,
}
use nemesis.Topology.Checker.{bad_degree}

abbrev pub IsPowerOfTwo : ℕ → Type 0
IsPowerOfTwo n = (k : ℕ) × (n ≡ 2 ^ k)

-- The conjunction of digits, with `fuel` digits to go.
abbrev and_below : ℕ → ℕ → ℕ → ℕ
and_below fuel a b = digits (λ _. 0) min fuel a b

and_below_zero : (fuel b : ℕ) → and_below fuel 0 b ≡ 0
and_below_zero zero b = refl
and_below_zero (suc fuel) b = refl

and_below_self : (fuel a : ℕ) → a ≤ fuel → and_below fuel a a ≡ a
and_below_self zero zero h = refl
and_below_self zero (suc a) h = absurd (omega arith)
and_below_self (suc fuel) zero h = refl
and_below_self (suc fuel) (suc a) h = omega (arith, and_below_self fuel (suc a / 2) (omega arith))

pub pow_pos : (k : ℕ) → 0 < 2 ^ k
pow_pos zero = omega arith
pow_pos (suc k) = omega (arith, pow-suc 2 k, pow_pos k)

-- The lowest digit of an even number and its predecessor; of an odd one.
and_below_even :
    (fuel a : ℕ)
    → suc a % 2 ≡ 0
    → and_below (suc fuel) (suc a) a ≡ and_below fuel (suc (a / 2)) (a / 2) * 2
and_below_even fuel a even =
    let half : suc a / 2 ≡ suc (a / 2) = omega arith in rw half (omega arith)

and_below_odd :
    (fuel a : ℕ) → suc a % 2 ≡ 1 → suc a ≤ suc fuel → and_below (suc fuel) (suc a) a ≡ suc a / 2 * 2
and_below_odd fuel a odd h =
    let half : a / 2 ≡ suc a / 2 = omega arith in
    rw half (omega (arith, and_below_self fuel (suc a / 2) (omega arith)))

power_of_and_below :
    (fuel a : ℕ) → suc a ≤ fuel → and_below fuel (suc a) a ≡ 0 → IsPowerOfTwo (suc a)
power_of_and_below zero a h e = absurd (omega arith)
power_of_and_below (suc fuel) a h e = elim (ℕ_discrete (suc a % 2) 0) [
  | yes even ↦
      let half =
        power_of_and_below fuel (a / 2) (omega arith) (omega (arith, and_below_even fuel a even)) in
      (suc half.0, omega (arith, pow-suc 2 half.0, half.1))
  | no odd ↦ (0, omega (arith, and_below_odd fuel a (omega arith) h))
]

and_below_of_power : (k fuel a : ℕ) → suc a ≤ fuel → suc a ≡ 2 ^ k → and_below fuel (suc a) a ≡ 0
and_below_of_power k zero a h e = absurd (omega arith)
and_below_of_power zero (suc fuel) a h e = omega (arith, and_below_odd fuel a (omega arith) h)
and_below_of_power (suc k) (suc fuel) a h e =
    let double = pow-suc 2 k in
    let half = and_below_of_power k fuel (a / 2) (omega arith) (omega arith) in
    omega (arith, and_below_even fuel a (omega arith), half)

bit_and-pred : (n : ℕ) → bit_and (suc n) (suc n - 1) ≡ and_below (suc n) (suc n) n
bit_and-pred n =
    let pred : suc n - 1 ≡ n = omega arith in
    bit_and-bitwise (suc n) (suc n - 1) ∙ ap (λ b. and_below (suc n) (suc n) b) pred

degree_test : (n : ℕ) → (bad_degree (suc n) ≡ false) ↔ (bit_and (suc n) (suc n - 1) ≡ 0)
unfolding bad_degree
degree_test n = (λ h. ground arith, λ h. ground arith)

-- The test of rule 1 passes exactly at the powers of two.
pub bad_degree_iff : (n : ℕ) → (bad_degree n ≡ false) ↔ IsPowerOfTwo n
unfolding bad_degree
bad_degree_iff zero = (λ h. cc, λ (k, e). absurd (omega (arith, pow_pos k)))
bad_degree_iff (suc n) = (
  λ h. power_of_and_below (suc n) n (omega arith) (sym (bit_and-pred n) ∙ (degree_test n).0 h),
  λ (k, e). (degree_test n).1 (bit_and-pred n ∙ and_below_of_power k (suc n) n (omega arith) e),
)
