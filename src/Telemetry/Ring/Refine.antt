-- ===== src/Telemetry/Ring/Refine.antt =====
-- What a reader of the ring sees, in terms of all that was ever pushed.
use native.Mathlib.Nat.{mod-add-mod, add-mod_right}
use nemesis.Prelude.{
  ℕ, zero, suc, ◌+◌, ◌-◌, ◌%◌, ◌≤◌, ◌<◌, min, ◌≡◌, refl, sym, ap, ◌∙◌, Option, none, some, List, [],
  ◌∷◌, ◌++◌, arith, get_elem?, length, drop, drop_step, drop_all, get_elem?-total, append-nil,
  append_assoc, Bool-cases, ◌==◌, inl, inr, ==_iff,
}
use nemesis.Telemetry.Ring.{MetricRing, new, push, collect, window}
use nemesis.Telemetry.Ring.Inv.{Holds, Holds-new, Holds-push}

-- The last `n` items of a list, in their order.
abbrev pub last_n {ℓ} : {A : Type ℓ} → ℕ → List A → List A
last_n n xs = drop (length xs - n) xs

module _ {ℓ} {A : Type ℓ} (W : ℕ) where
  -- Samples pushed one after another; `none` if a push panics.
  unfoldable pub push_all : MetricRing A → List A → Option (MetricRing A)
  push_all r [] = some r
  push_all r (x ∷ xs) = elim (push W r x) [ none ↦ none | some r' ↦ push_all r' xs ]

  -- A history of pushes, then a query.
  unfoldable pub query : List A → ℕ → Option (List A)
  query hist n = elim (push_all (new W) hist) [ none ↦ none | some r ↦ window W r n ]

module _ {ℓ} {A : Type ℓ} (W : ℕ) (pos : 0 < W) where
  module _ (hist : List A) (r : MetricRing A) (h : Holds W hist r) where
    open h use {slots, next, count, stored}

    collect_lem :
        (n from j : ℕ)
        → from % W ≡ j % W
        → j + n ≡ length hist
        → length hist ≤ j + W
        → collect W r.buf from n ≡ some (drop j hist)
    unfolding collect
    collect_lem zero from j e all near =
        let at_end : j ≡ length hist = omega arith in rw (at_end, drop_all hist)
    collect_lem (suc n) from j e all near =
        let (x, at) = get_elem?-total hist j (omega arith) in
        let shifted : (from + 1) % W ≡ suc j % W =
          sym (mod-add-mod from W 1)
          ∙ ap (λ k. (k + 1) % W) e
          ∙ mod-add-mod j W 1
          ∙ ap (λ k. k % W) (omega arith) in
        let read = ap (get_elem? r.buf) e ∙ stored j (omega arith) near ∙ ap some at in
        rw (read, collect)
          (rw (
            collect_lem n (from + 1) (suc j) shifted (omega arith) (omega arith),
            drop_step hist j at,
          ))

    aligned :
        (n : ℕ)
        → ((r.head + W - r.len) % W + (r.len - min n r.len)) % W ≡ (length hist - min n W) % W
    aligned n =
        let taken = min n r.len in
        let unskip : r.head + W - r.len + (r.len - taken) ≡ length hist % W + (W - taken) =
          omega arith in
        let shift : length hist + (W - taken) ≡ length hist - min n W + W = omega arith in
        mod-add-mod (r.head + W - r.len) W (r.len - taken)
        ∙ ap (λ k. k % W) unskip
        ∙ mod-add-mod (length hist) W (W - taken)
        ∙ ap (λ k. k % W) shift
        ∙ add-mod_right (length hist - min n W) W

    pub window_lem : (n : ℕ) → window W r n ≡ some (last_n (min n W) hist)
    unfolding window
    window_lem n = elim (Bool-cases (min n r.len == 0)) [
      | inl e ↦
          let nothing : length hist - min n W ≡ length hist =
            omega (arith, (==_iff (min n r.len) 0).0 e) in
          rw e (ap some (sym (ap (λ k. drop k hist) nothing ∙ drop_all hist)))
      | inr e ↦ rw e (
          collect_lem (min n r.len) _ (length hist - min n W) (aligned n) (omega arith)
            (omega arith))
    ]

  push_all_lem :
      (xs hist : List A) (r : MetricRing A)
      → Holds W hist r
      → (r' : MetricRing A) × (push_all W r xs ≡ some r') × Holds W (hist ++ xs) r'
  unfolding push_all
  push_all_lem [] hist r h = (r, refl, rw append-nil h)
  push_all_lem (x ∷ xs) hist r h =
      let (r', pushed, h') = Holds-push W pos hist x r h in
      let (r'', rest, h'') = push_all_lem xs (hist ++ x ∷ []) r' h' in
      (r'', rw (pushed, push_all) rest, rw append_assoc at h'')

  -- After any sequence of pushes into a new ring of at least one slot, none of which panics,
  -- `window n` returns the last `min n W` samples pushed, oldest first (all of them if there are
  -- fewer).
  pub query_lem : (hist : List A) (n : ℕ) → query W hist n ≡ some (last_n (min n W) hist)
  unfolding query
  query_lem hist n =
      let (r, pushed, h) = push_all_lem hist [] (new W) (Holds-new W pos) in
      rw (pushed, query) (window_lem hist r h n)
