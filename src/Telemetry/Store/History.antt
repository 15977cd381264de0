-- ===== src/Telemetry/Store/History.antt =====
-- The store answers as the history of all samples does.
use text.Mathlib.Text.{◌==◌ as str_eq}
use text.Mathlib.TextEquality.{eq_iff}
use nemesis.Prelude.{
  and_then, get, ℕ, zero, suc, drop, ◌-◌, ◌<◌, min, List, [], ◌∷◌, ◌++◌, Option, none, some, String,
  Bool, true, false, ◌≡◌, refl, sym, ap, ◌∙◌, filter_by, Bool-cases, Option-cases, inl, inr,
  append_assoc, append-nil, subst,
}
use nemesis.Telemetry.Ring.{MetricRing}
use nemesis.Telemetry.Ring.Inv.{Holds, Holds-new, Holds-push}
use nemesis.Telemetry.Ring.Refine.{last_n, window_lem}
use nemesis.Telemetry.Store.{
  TelemetryStore, empty_store, push_entry, ingest, gpu_window, ingest_all,
}

pub filter_by-append :
    {A : Type 0} (p : A → Bool) (xs ys : List A)
    → filter_by p (xs ++ ys) ≡ filter_by p xs ++ filter_by p ys
filter_by-append p [] ys = refl
filter_by-append p (x ∷ xs) ys = elim (Bool-cases (p x)) [
  | inl e ↦ rw e (ap (λ l. x ∷ l) (filter_by-append p xs ys))
  | inr e ↦ rw e (filter_by-append p xs ys)
]

drop-nil : {A : Type 0} (k : ℕ) → drop {A = A} k [] ≡ []
drop-nil zero = refl
drop-nil (suc k) = refl

last_n_nil : {A : Type 0} (n : ℕ) → last_n {A = A} n [] ≡ []
last_n_nil n = drop-nil (0 - n)

module _ {A : Type 0} (gpu_id : A → String) (W : ℕ) (pos : 0 < W) where
  -- The samples of one GPU.
  abbrev pub of_gpu : String → List A → List A
  of_gpu id = filter_by (λ x. str_eq (gpu_id x) id)

  abbrev pub Kept : List A → Option (MetricRing A) → Type 0
  Kept hist none = hist ≡ []
  Kept hist (some r) = Holds W hist r

  push_entry_lem :
      (id : String) (x : A) (hist : List A) (m : List (String × MetricRing A))
      → Kept hist (get id m)
      → (m' : List (String × MetricRing A)) × (push_entry gpu_id W id x m ≡ some m')
        × Kept (hist ++ x ∷ []) (get id m')
        × ((k : String) → str_eq id k ≡ false → get k m' ≡ get k m)
  unfolding push_entry get
  push_entry_lem id x hist [] none_yet =
      let (r, pushed, h) = Holds-push W pos [] x _ (Holds-new W pos) in
      let self : str_eq id id ≡ true = (eq_iff id id).1 refl in
      ((id, r) ∷ [], rw pushed, rw (get, self, none_yet) h, λ k apart. rw (get, apart))
  push_entry_lem id x hist ((j, r) ∷ m) kept = elim (Bool-cases (str_eq j id)) [
    | inl same ↦
        let at : j ≡ id = (eq_iff j id).0 same in
        let (r', pushed, h) = Holds-push W pos hist x r (rw same at kept) in
        (
          (j, r') ∷ m,
          rw (push_entry, same, pushed),
          rw (get, same) h,
          λ k apart. let other : str_eq j k ≡ false = rw at apart in rw (get, other),
        )
    | inr other ↦
        let (m', pushed, h, rest) = push_entry_lem id x hist m (rw other at kept) in
        (
          (j, r) ∷ m',
          rw (push_entry, other, pushed),
          rw (get, other) h,
          λ k apart. elim (Bool-cases (str_eq j k)) [
            | inl e ↦ rw (get, e)
            | inr e ↦ rw (get, e) (rest k apart)
          ],
        )
  ]

  abbrev pub Keeps : List A → TelemetryStore A → Type 0
  Keeps hist s = (id : String) → Kept (of_gpu id hist) (get id s.rings)

  pub ingest_lem :
      (hist : List A) (x : A) (s : TelemetryStore A)
      → Keeps hist s
      → (s' : TelemetryStore A) × (ingest gpu_id W s x ≡ some s') × Keeps (hist ++ x ∷ []) s'
  unfolding ingest
  ingest_lem hist x s keeps =
      let own = gpu_id x in
      let (m', pushed, h, rest) = push_entry_lem own x (of_gpu own hist) s.rings (keeps own) in
      let split : (k : String) → of_gpu k (hist ++ x ∷ []) ≡ of_gpu k hist ++ of_gpu k (x ∷ []) =
        λ k. filter_by-append (λ y. str_eq (gpu_id y) k) hist (x ∷ []) in
      (
        record { rings = m' },
        rw pushed,
        λ k. elim (Bool-cases (str_eq own k)) [
          | inl e ↦
              let at : own ≡ k = (eq_iff own k).0 e in
              subst (λ l. Kept l (get k m')) (sym (split k ∙ rw e))
                (subst (λ i. Kept (of_gpu i hist ++ x ∷ []) (get i m')) at h)
          | inr e ↦
              subst (λ l. Kept l (get k m')) (sym (split k ∙ rw (e, append-nil)))
                (subst (Kept (of_gpu k hist)) (sym (rest k e)) (keeps k))
        ],
      )

  pub ingest_all_lem :
      (xs hist : List A) (s : TelemetryStore A)
      → Keeps hist s
      → (s' : TelemetryStore A) × (ingest_all gpu_id W s xs ≡ some s') × Keeps (hist ++ xs) s'
  unfolding ingest_all
  ingest_all_lem [] hist s keeps = (s, refl, rw append-nil keeps)
  ingest_all_lem (x ∷ xs) hist s keeps =
      let (s', one, keeps') = ingest_lem hist x s keeps in
      let (s'', more, keeps'') = ingest_all_lem xs (hist ++ x ∷ []) s' keeps' in
      (s'', rw (ingest_all, one) more, rw append_assoc at keeps'')

  pub window-Kept :
      (hist : List A) (s : TelemetryStore A) (id : String) (n : ℕ)
      → Kept hist (get id s.rings)
      → gpu_window gpu_id W s id n ≡ some (last_n (min n W) hist)
  unfolding gpu_window
  window-Kept hist s id n kept = elim (Option-cases (get id s.rings)) [
    | inl e ↦
        let nothing : hist ≡ [] = rw e at kept in
        rw (gpu_window, e, nothing) (ap some (sym (last_n_nil (min n W))))
    | inr (r, e) ↦ rw (gpu_window, e) (window_lem W pos hist r (rw e at kept) n)
  ]

  -- With at least one slot in a ring, after any sequence of samples of any GPUs, none of which
  -- panics, a query for a GPU returns the last `min n W` samples of that GPU, oldest first.
  pub store_window :
      (hist : List A) (id : String) (n : ℕ)
      → and_then (ingest_all gpu_id W (empty_store gpu_id W) hist) (λ s. gpu_window gpu_id W s id n)
        ≡ some (last_n (min n W) (of_gpu id hist))
  unfolding get
  store_window hist id n =
      let (s, all, keeps) = ingest_all_lem hist [] (empty_store gpu_id W) (λ k. refl) in
      ap (λ o. and_then o (λ t. gpu_window gpu_id W t id n)) all
      ∙ window-Kept (of_gpu id hist) s id n (keeps id)
