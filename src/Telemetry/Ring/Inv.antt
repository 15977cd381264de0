-- ===== src/Telemetry/Ring/Inv.antt =====
-- A ring and the samples pushed into it: the sample of number `j` lies in the slot `j % W` until
-- `W` more have come.
use native.Mathlib.Nat.{mod-add-mod, mod-lt, mod-eq_of_lt, mod-eq-sub-mod}
use native.Mathlib.Decide.{dec_lt}
use nemesis.Prelude.{
  ℕ, suc, ◌+◌, ◌-◌, ◌%◌, ◌≤◌, ◌<◌, min, ◌≡◌, sym, ◌≢◌, ap, ◌∙◌, none, some, List, [], ◌∷◌, ◌++◌,
  arith, get_elem?, set, length, ltb, lt→ltb, if◌then◌else◌, length-append, length-set,
  length-replicate, get_elem?-set_self, get_elem?-set_ne, get_elem?-append_left,
  get_elem?-append_last,
}
use nemesis.Telemetry.Ring.{MetricRing, new, push}

pub record Holds {ℓ} {A : Type ℓ} (W : ℕ) (hist : List A) (r : MetricRing A) : Type ℓ where
  pub slots : length r.buf ≡ W
  pub next : r.head ≡ length hist % W
  pub count : r.len ≡ min (length hist) W
  pub stored :
      (j : ℕ)
      → j < length hist
      → length hist ≤ j + W
      → get_elem? r.buf (j % W) ≡ some (get_elem? hist j)

-- Numbers less than `W` apart have different slots.
add-mod-ne : (W a d : ℕ) → a < W → 0 < d → d < W → (a + d) % W ≢ a
add-mod-ne W a d ha pos hd = elim (dec_lt (a + d) W) [
  | yes p ↦ omega (arith, mod-eq_of_lt p)
  | no p ↦ omega (
    arith,
    mod-eq-sub-mod {n = a + d} {m = W} (omega arith),
    mod-eq_of_lt {n = a + d - W} {m = W} (omega arith),
  )
]

mod-ne : (W j k : ℕ) → j < k → k < j + W → j % W ≢ k % W
mod-ne W j k lt near e =
    add-mod-ne W (j % W) (k - j) (mod-lt j (omega arith)) (omega arith) (omega arith)
      (mod-add-mod j W (k - j) ∙ ap (λ n. n % W) (omega arith) ∙ sym e)

module _ {ℓ} {A : Type ℓ} (W : ℕ) (pos : 0 < W) where
  pub Holds-new : Holds {A = A} W [] (new W)
  unfolding new
  Holds-new = record {
    slots = length-replicate W none;
    next = omega (arith, mod-eq_of_lt pos);
    count = omega arith;
    stored = λ j lt h. absurd (omega arith);
  }

  module _ (hist : List A) (x : A) (r : MetricRing A) (h : Holds W hist r) where
    open h use {slots, next, count, stored}

    abbrev grown : List A
    grown = hist ++ x ∷ []

    length-grown : length grown ≡ suc (length hist)
    length-grown = omega (arith, length-append {ℓ} hist (x ∷ []))

    head_in : r.head < length r.buf
    head_in = omega (arith, mod-lt (length hist) pos)

    stored_grown :
        (j : ℕ)
        → j < length grown
        → length grown ≤ j + W
        → get_elem? (set r.buf r.head (some x)) (j % W) ≡ some (get_elem? grown j)
    stored_grown j lt near = elim (dec_lt j (length hist)) [
      | yes old ↦
          get_elem?-set_ne r.buf (some x)
            (λ e. mod-ne W j (length hist) old (omega (arith, length-grown)) (sym e ∙ next))
          ∙ stored j old (omega (arith, length-grown))
          ∙ ap some (sym (get_elem?-append_left hist (x ∷ []) j old))
      | no last ↦
          let e : j ≡ length hist = omega (arith, length-grown) in
          rw (e, ← next)
            (get_elem?-set_self r.buf r.head (some x) head_in
              ∙ ap some (sym (get_elem?-append_last hist x)))
    ]

    -- A push does not panic, and the ring then holds the longer history.
    pub Holds-push : (r' : MetricRing A) × (push W r x ≡ some r') × Holds W grown r'
    unfolding push
    Holds-push = (
      record {
        buf = set r.buf r.head (some x);
        head = (r.head + 1) % W;
        len = if ltb r.len W then r.len + 1 else r.len;
      },
      rw (lt→ltb r.head (length r.buf) head_in),
      record {
        slots = length-set r.buf r.head (some x) ∙ slots;
        next =
            ap (λ n. (n + 1) % W) next
            ∙ mod-add-mod (length hist) W 1
            ∙ ap (λ n. n % W) (omega (arith, length-grown));
        count = ground (arith, length-grown);
        stored = stored_grown;
      },
    )
