-- ===== src/Prelude/Chains.antt =====
-- Paths as lists of numbers: consecutive items, membership tests, and how many distinct items a
-- list can have.
use Prim.Native.Nat.{ℕ, suc, ◌≤◌}
use mathlib.Core.Path.{◌≡◌, refl}
use mathlib.Core.Bool.{Bool, false, ◌||◌}
use mathlib.Core.Logic.{inl, inr, ◌≢◌, ◌↔◌}
use mathlib.Core.List.{List, [], ◌∷◌, ◌++◌}
use native.Mathlib.Omega.{arith}
use nemesis.Prelude.Tests.{◌==◌, if◌then◌else◌, Bool-cases}
use nemesis.Prelude.Lists.{length}
use nemesis.Prelude.Predicates.{Mem, All, Distinct}

-- Each item is related to the next one.
abbrev pub Chain {ℓ κ} : {A : Type ℓ} → (A → A → Type κ) → List A → Type κ
Chain R [] = Unit
Chain R (x ∷ []) = Unit
Chain R (x ∷ y ∷ xs) = R x y × Chain R (y ∷ xs)

pub Chain-snoc {ℓ κ} :
    {A : Type ℓ} (R : A → A → Type κ) (xs : List A) (a b : A)
    → Chain R (xs ++ a ∷ [])
    → R a b
    → Chain R ((xs ++ a ∷ []) ++ b ∷ [])
Chain-snoc R [] a b h r = (r, tt)
Chain-snoc R (x ∷ []) a b h r = (h.0, (r, tt))
Chain-snoc R (x ∷ y ∷ xs) a b h r = (h.0, Chain-snoc R (y ∷ xs) a b h.1 r)

pub Chain-at {ℓ κ} :
    {A : Type ℓ} (R : A → A → Type κ) (xs : List A) (a b : A) (ys : List A)
    → Chain R (xs ++ a ∷ b ∷ ys)
    → R a b
Chain-at R [] a b ys h = h.0
Chain-at R (x ∷ []) a b ys h = h.1.0
Chain-at R (x ∷ y ∷ xs) a b ys h = Chain-at R (y ∷ xs) a b ys h.1

-- `slice::contains` on numbers.
abbrev pub contains : List ℕ → ℕ → Bool
contains [] a = false
contains (x ∷ xs) a = x == a || contains xs a

pub not_contains_iff : (xs : List ℕ) (a : ℕ) → (contains xs a ≡ false) ↔ All (λ x. x ≢ a) xs
not_contains_iff [] a = (λ h. tt, λ h. refl)
not_contains_iff (x ∷ xs) a = (
  λ h. (ground arith, (not_contains_iff xs a).0 (ground arith)),
  λ h. let rest = (not_contains_iff xs a).1 h.1 in let apart = h.0 in ground arith,
)

-- A list without one occurrence of a number.
abbrev erase : ℕ → List ℕ → List ℕ
erase a [] = []
erase a (x ∷ xs) = if x == a then xs else x ∷ erase a xs

length-erase : (a : ℕ) (xs : List ℕ) → Mem a xs → suc (length (erase a xs)) ≡ length xs
length-erase a [] m = absurd m
length-erase a (x ∷ xs) (inl e) = ground arith
length-erase a (x ∷ xs) (inr m) = ground (arith, length-erase a xs m)

Mem-erase : (a b : ℕ) (xs : List ℕ) → Mem b xs → a ≢ b → Mem b (erase a xs)
Mem-erase a b [] m h = m
Mem-erase a b (x ∷ xs) m h = elim (Bool-cases (x == a)) [
  | inl e ↦ rw e (elim m [ inl at ↦ absurd (h (ground arith)) | inr m' ↦ m' ])
  | inr e ↦ rw e (elim m [ inl at ↦ inl at | inr m' ↦ inr (Mem-erase a b xs m' h) ])
]

All-erase :
    (a : ℕ) (ys xs : List ℕ)
    → All (λ x. Mem x ys) xs
    → All (λ x. a ≢ x) xs
    → All (λ x. Mem x (erase a ys)) xs
All-erase a ys [] h k = tt
All-erase a ys (x ∷ xs) h k = (Mem-erase a x ys h.0 k.0, All-erase a ys xs h.1 k.1)

-- Distinct members of a list are no more than its items.
pub pigeonhole : (xs ys : List ℕ) → Distinct xs → All (λ x. Mem x ys) xs → length xs ≤ length ys
pigeonhole [] ys d h = omega arith
pigeonhole (x ∷ xs) ys d h =
    let fewer = pigeonhole xs (erase x ys) d.1 (All-erase x ys xs h.1 d.0) in
    omega (arith, fewer, length-erase x ys h.0)
