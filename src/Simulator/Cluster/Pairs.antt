-- ===== src/Simulator/Cluster/Pairs.antt =====
-- Each two of several items, as the loops of the simulator take them.
use nemesis.Prelude.{
  ℕ, zero, suc, List, [], ◌∷◌, String, ◌≢◌, refl, sym, ap, ◌∙◌, subst, All, All-left, All-right,
  All→Mem, Sub, keep, none_left, Sub-nil, Mem, Pairs, Distinct, inl, inr, take, All-append,
}
use nemesis.Simulator.Cluster.{pairs_with, all_pairs, neighbours}

pub Sub-take : {A : Type 0} (n : ℕ) (xs : List A) → Sub (take n xs) xs
Sub-take zero xs = Sub-nil xs
Sub-take (suc n) [] = none_left
Sub-take (suc n) (x ∷ xs) = keep x (Sub-take n xs)

-- Two members of a list are a pair of its loops, the earlier one first.
pairs_with-Mem : (a b : String) (ids : List String) → Mem b ids → Mem (a, b) (pairs_with a ids)
pairs_with-Mem a b [] m = absurd m
pairs_with-Mem a b (c ∷ ids) (inl e) = inl (ap (λ s. (a, s)) e)
pairs_with-Mem a b (c ∷ ids) (inr m) = inr (pairs_with-Mem a b ids m)

pub All-all_pairs :
    (P : String × String → Type 0) (a b : String) (ids : List String)
    → ((x y : String) → P (x, y) → P (y, x))
    → Mem a ids
    → Mem b ids
    → a ≢ b
    → All P (all_pairs ids)
    → P (a, b)
All-all_pairs P a b [] flip m k apart h = absurd m
All-all_pairs P a b (c ∷ ids) flip (inl e) (inl e') apart h = absurd (apart (e ∙ sym e'))
All-all_pairs P a b (c ∷ ids) flip (inl e) (inr k) apart h =
    let own = All-left P (pairs_with c ids) (all_pairs ids) h in
    subst (λ s. P (s, b)) (sym e)
      (All→Mem P (c, b) (pairs_with c ids) own (pairs_with-Mem c b ids k))
All-all_pairs P a b (c ∷ ids) flip (inr m) (inl e) apart h =
    let own = All-left P (pairs_with c ids) (all_pairs ids) h in
    flip b a (
      subst (λ s. P (s, a)) (sym e)
        (All→Mem P (c, a) (pairs_with c ids) own (pairs_with-Mem c a ids m)))
All-all_pairs P a b (c ∷ ids) flip (inr m) (inr k) apart h =
    All-all_pairs P a b ids flip m k apart (All-right P (pairs_with c ids) (all_pairs ids) h)

related_to :
    {A : Type 0} (P : A → Type 0) (R : A → A → Type 0) (x : A) (xs : List A)
    → ((x y : A) → P x → P y → x ≢ y → R x y)
    → P x
    → All P xs
    → All (λ y. x ≢ y) xs
    → All (λ y. R x y) xs
related_to P R x [] f h hs d = tt
related_to P R x (y ∷ ys) f h hs d = (f x y h hs.0 d.0, related_to P R x ys f h hs.1 d.1)

-- Distinct items of which `P` holds are related two by two.
pub Pairs-of :
    {A : Type 0} (P : A → Type 0) (R : A → A → Type 0) (xs : List A)
    → ((x y : A) → P x → P y → x ≢ y → R x y)
    → All P xs
    → Distinct xs
    → Pairs R xs
Pairs-of P R [] f h d = tt
Pairs-of P R (x ∷ xs) f h d = (related_to P R x xs f h.0 h.1 d.0, Pairs-of P R xs f h.1 d.1)

pub All_of_Mem : {A : Type 0} (P : A → Type 0) (xs : List A) → ((x : A) → Mem x xs → P x) → All P xs
All_of_Mem P [] f = tt
All_of_Mem P (x ∷ xs) f = (f x (inl refl), All_of_Mem P xs (λ y m. f y (inr m)))

-- A property of all ids holds of both ends of each pair.
module _ (P : String → Type 0) where
  abbrev pub Both : String × String → Type 0
  Both (a, b) = P a × P b

  pairs_with-Both : (a : String) (ids : List String) → P a → All P ids → All Both (pairs_with a ids)
  pairs_with-Both a [] h hs = tt
  pairs_with-Both a (b ∷ ids) h hs = ((h, hs.0), pairs_with-Both a ids h hs.1)

  pub all_pairs-Both : (ids : List String) → All P ids → All Both (all_pairs ids)
  all_pairs-Both [] hs = tt
  all_pairs-Both (a ∷ ids) hs =
      All-append Both (pairs_with a ids) (all_pairs ids) (pairs_with-Both a ids hs.0 hs.1)
        (all_pairs-Both ids hs.1)

  pub neighbours-Both : (ids : List String) → All P ids → All Both (neighbours ids)
  neighbours-Both [] hs = tt
  neighbours-Both (a ∷ []) hs = tt
  neighbours-Both (a ∷ b ∷ ids) hs = ((hs.0, hs.1.0), neighbours-Both (b ∷ ids) hs.1)
