-- ===== src/Simulator/Cluster/Names.antt =====
-- The ids that the simulator gives to its GPUs.
use nemesis.Prelude.{
  Bool, true, false, if◌then◌else◌, ℕ, zero, suc, ◌<◌, [], ◌∷◌, String, ◌≡◌, ◌≢◌, refl, sym, ap,
  ◌∙◌, All, Distinct, arith, Text, codes, is_digit, decimal, decimal-digits, value, value-decimal,
  drop,
}
use Prim.Native.Char.{Char, code}
use nemesis.Simulator.Cluster.{digit_char, digits_string, gpu_name, names_from}

code-if : (b : Bool) (x y : Char) → code (if b then x else y) ≡ (if b then code x else code y)
code-if true x y = refl
code-if false x y = refl

code-digit_char : (c : ℕ) → is_digit c ≡ true → code (digit_char c) ≡ c
code-digit_char c h =
    rw (digit_char, code-if, code-if, code-if, code-if, code-if, code-if, code-if, code-if, code-if)
      (ground arith)

codes-digits_string : (s : Text) → All (λ c. is_digit c ≡ true) s → codes (digits_string s) ≡ s
codes-digits_string [] h = refl
codes-digits_string (c ∷ s) h = rw (code-digit_char c h.0, codes-digits_string s h.1) refl

-- The digits behind `gpu-`, read as a number.
abbrev number_of : String → ℕ
number_of s = value 0 (drop 4 (codes s))

number_of-gpu_name : (i : ℕ) → number_of (gpu_name i) ≡ i
unfolding gpu_name
number_of-gpu_name i =
    ap (value 0) (codes-digits_string (decimal i) (decimal-digits i)) ∙ value-decimal i

-- Two numbers have two names.
gpu_name-inj : (i j : ℕ) → gpu_name i ≡ gpu_name j → i ≡ j
gpu_name-inj i j e = sym (number_of-gpu_name i) ∙ ap number_of e ∙ number_of-gpu_name j

names_from-apart : (i k n : ℕ) → i < k → All (λ id. gpu_name i ≢ id) (names_from k n)
names_from-apart i k zero h = tt
names_from-apart i k (suc n) h = (
  (λ e. let same = gpu_name-inj i k e in omega arith),
  names_from-apart i (suc k) n (omega arith),
)

pub names_from-Distinct : (i n : ℕ) → Distinct (names_from i n)
names_from-Distinct i zero = tt
names_from-Distinct i (suc n) =
    (names_from-apart i (suc i) n (omega arith), names_from-Distinct (suc i) n)
