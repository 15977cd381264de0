-- ===== src/Prelude/Predicates.antt =====
-- Predicates on lists by recursion, which compute to tuples.
use Prim.Native.Nat.{◌≤◌}
use mathlib.Core.Path.{◌≡◌, refl, sym, subst}
use mathlib.Core.Bool.{Bool, true, false, ◌&&◌, ◌||◌}
use nemesis.Prelude.Tests.{if◌then◌else◌, Bool-cases}
use mathlib.Core.Logic.{◌⊎◌, inl, inr, ◌≢◌, ◌↔◌}
use mathlib.Core.List.{List, [], ◌∷◌, ◌++◌}
use native.Mathlib.Omega.{arith}
use nemesis.Prelude.Lists.{length}

abbrev pub Mem : {A : Type 0} → A → List A → Type 0
Mem a [] = ⊥
Mem a (x ∷ xs) = (a ≡ x) ⊎ Mem a xs

module _ {ℓ} {A : Type ℓ} where
  abbrev pub All {κ} : (A → Type κ) → List A → Type κ
  All P [] = Unit
  All P (x ∷ xs) = P x × All P xs

  -- `R` holds of each two items, the earlier one first.
  abbrev pub Pairs {κ} : (A → A → Type κ) → List A → Type κ
  Pairs R [] = Unit
  Pairs R (x ∷ xs) = All (R x) xs × Pairs R xs

  abbrev pub Distinct : List A → Type ℓ
  Distinct = Pairs ◌≢◌

  -- `xs` is what is left of `ys` when some items are dropped.
  pub data Sub : List A → List A → Type ℓ where
    none_left : Sub [] []
    keep : {xs ys : List A} (x : A) → Sub xs ys → Sub (x ∷ xs) (x ∷ ys)
    skip : {xs ys : List A} (y : A) → Sub xs ys → Sub xs (y ∷ ys)

  pub length-Sub : {xs ys : List A} → Sub xs ys → length xs ≤ length ys
  length-Sub none_left = omega arith
  length-Sub (keep x s) = omega (arith, length-Sub s)
  length-Sub (skip y s) = omega (arith, length-Sub s)

  pub Sub-trans : {ys zs : List A} → Sub ys zs → {xs : List A} → Sub xs ys → Sub xs zs
  Sub-trans none_left s = s
  Sub-trans (keep x t) (keep _ s) = keep x (Sub-trans t s)
  Sub-trans (keep x t) (skip _ s) = skip x (Sub-trans t s)
  Sub-trans (skip y t) s = skip y (Sub-trans t s)

  pub Sub-nil : (ys : List A) → Sub [] ys
  Sub-nil [] = none_left
  Sub-nil (y ∷ ys) = skip y (Sub-nil ys)

module _ {ℓ κ} {A : Type ℓ} (P : A → Type κ) where
  pub All-append : (xs ys : List A) → All P xs → All P ys → All P (xs ++ ys)
  All-append [] ys h k = k
  All-append (x ∷ xs) ys h k = (h.0, All-append xs ys h.1 k)

  pub All-left : (xs ys : List A) → All P (xs ++ ys) → All P xs
  All-left [] ys h = tt
  All-left (x ∷ xs) ys h = (h.0, All-left xs ys h.1)

  pub All-right : (xs ys : List A) → All P (xs ++ ys) → All P ys
  All-right [] ys h = h
  All-right (x ∷ xs) ys h = All-right xs ys h.1

  pub All-Sub : {xs ys : List A} → Sub xs ys → All P ys → All P xs
  All-Sub none_left h = tt
  All-Sub (keep x s) h = (h.0, All-Sub s h.1)
  All-Sub (skip y s) h = All-Sub s h.1

pub All-map {ℓ κ ι} :
    {A : Type ℓ} (P : A → Type κ) (Q : A → Type ι) (xs : List A)
    → ((x : A) → P x → Q x)
    → All P xs
    → All Q xs
All-map P Q [] f h = tt
All-map P Q (x ∷ xs) f h = (f x h.0, All-map P Q xs f h.1)

module _ {ℓ κ} {A : Type ℓ} (R : A → A → Type κ) where
  pub Pairs-Sub : {xs ys : List A} → Sub xs ys → Pairs R ys → Pairs R xs
  Pairs-Sub none_left h = tt
  Pairs-Sub (keep x s) h = (All-Sub (R x) s h.0, Pairs-Sub s h.1)
  Pairs-Sub (skip y s) h = Pairs-Sub s h.1

  -- One more item at the end.
  pub Pairs-snoc : (xs : List A) (a : A) → Pairs R xs → All (λ x. R x a) xs → Pairs R (xs ++ a ∷ [])
  Pairs-snoc [] a h k = (tt, tt)
  Pairs-snoc (x ∷ xs) a h k = (All-append (R x) xs (a ∷ []) h.0 (k.0, tt), Pairs-snoc xs a h.1 k.1)

  -- In a longer list, each item of the front is related to the first one behind it.
  pub Pairs-next :
      (xs : List A) (a : A) (ys : List A) → Pairs R (xs ++ a ∷ ys) → All (λ x. R x a) xs
  Pairs-next [] a ys h = tt
  Pairs-next (x ∷ xs) a ys h = ((All-right (R x) xs (a ∷ ys) h.0).0, Pairs-next xs a ys h.1)

-- `Iterator::filter`.
abbrev pub filter_by {ℓ} : {A : Type ℓ} → (A → Bool) → List A → List A
filter_by p [] = []
filter_by p (x ∷ xs) = if p x then x ∷ filter_by p xs else filter_by p xs

-- `Iterator::any` and `Iterator::all`.
abbrev pub any {ℓ} : {A : Type ℓ} → (A → Bool) → List A → Bool
any p [] = false
any p (x ∷ xs) = p x || any p xs

abbrev pub all {ℓ} : {A : Type ℓ} → (A → Bool) → List A → Bool
all p [] = true
all p (x ∷ xs) = p x && all p xs

module _ {ℓ} {A : Type ℓ} (p : A → Bool) where
  pub all_iff : (xs : List A) → (all p xs ≡ true) ↔ All (λ x. p x ≡ true) xs
  all_iff [] = (λ h. tt, λ h. refl)
  all_iff (x ∷ xs) = elim (Bool-cases (p x)) [
    | inl e ↦ (λ h. (e, (all_iff xs).0 (rw e at h)), λ h. rw e ((all_iff xs).1 h.1))
    | inr e ↦ (λ h. cc (rw e at h), λ h. cc (h.0))
  ]

  pub Sub-filter_by : (xs : List A) → Sub (filter_by p xs) xs
  Sub-filter_by [] = none_left
  Sub-filter_by (x ∷ xs) = elim (Bool-cases (p x)) [
    | inl e ↦ rw e (keep x (Sub-filter_by xs))
    | inr e ↦ rw e (skip x (Sub-filter_by xs))
  ]

  pub Sub-filter_by_of_All :
      {xs ys : List A} → Sub xs ys → All (λ x. p x ≡ true) xs → Sub xs (filter_by p ys)
  Sub-filter_by_of_All none_left h = none_left
  Sub-filter_by_of_All (keep x s) h = rw h.0 (keep x (Sub-filter_by_of_All s h.1))
  Sub-filter_by_of_All (skip y s) h = elim (Bool-cases (p y)) [
    | inl e ↦ rw e (skip y (Sub-filter_by_of_All s h))
    | inr e ↦ rw e (Sub-filter_by_of_All s h)
  ]

  pub All-filter_by : (xs : List A) → All (λ x. p x ≡ true) (filter_by p xs)
  All-filter_by [] = tt
  All-filter_by (x ∷ xs) = elim (Bool-cases (p x)) [
    | inl e ↦ rw e (e, All-filter_by xs)
    | inr e ↦ rw e (All-filter_by xs)
  ]

pub Mem-filter_by :
    {A : Type 0} (p : A → Bool) (a : A) (xs : List A)
    → Mem a xs
    → p a ≡ true
    → Mem a (filter_by p xs)
Mem-filter_by p a [] m h = m
Mem-filter_by p a (x ∷ xs) (inl e) h = let test : p x ≡ true = rw e at h in rw test (inl e)
Mem-filter_by p a (x ∷ xs) (inr m) h = elim (Bool-cases (p x)) [
  | inl e ↦ rw e (inr (Mem-filter_by p a xs m h))
  | inr e ↦ rw e (Mem-filter_by p a xs m h)
]

pub All→Mem {κ} : {A : Type 0} (P : A → Type κ) (a : A) (xs : List A) → All P xs → Mem a xs → P a
All→Mem P a (x ∷ xs) h (inl e) = subst P (sym e) h.0
All→Mem P a (x ∷ xs) h (inr m) = All→Mem P a xs h.1 m
All→Mem P a [] h m = absurd m
