-- ===== src/Telemetry/Store/Keys.antt =====
-- The store has one ring for each GPU.
use text.Mathlib.Text.{◌==◌ as str_eq}
use text.Mathlib.TextEquality.{eq_iff}
use nemesis.Prelude.{
  ℕ, List, [], ◌∷◌, none, some, String, ◌≡◌, ◌≢◌, refl, sym, Bool-cases, Option-cases, inl, inr,
  All, Distinct, Mem, map, get,
}
use nemesis.Telemetry.Ring.{MetricRing, new, push}
use nemesis.Telemetry.Store.{TelemetryStore, push_entry, ingest, ingest_all, gpu_ids}

module _ {A : Type 0} (gpu_id : A → String) (W : ℕ) where
  abbrev Rings : Type 0
  Rings = List (String × MetricRing A)

  abbrev pub keys : Rings → List String
  keys m = map (λ e. e.0) m

  push_entry-others :
      (id k : String) (x : A) (m m' : Rings)
      → k ≢ id
      → push_entry gpu_id W id x m ≡ some m'
      → All (λ j. k ≢ j) (keys m)
      → All (λ j. k ≢ j) (keys m')
  unfolding push_entry
  push_entry-others id k x [] m' apart e h = elim (Option-cases (push W (new W) x)) [
    | inl bad ↦ cc (rw (bad, push_entry) at e)
    | inr (r, good) ↦
        let at : (id, r) ∷ [] ≡ m' = cc (rw (good, push_entry) at e) in rw (← at) (apart, tt)
  ]
  push_entry-others id k x ((j, r) ∷ m) m' apart e h = elim (Bool-cases (str_eq j id)) [
    | inl same ↦ elim (Option-cases (push W r x)) [
      | inl bad ↦ cc (rw (same, bad, push_entry) at e)
      | inr (r', good) ↦
          let at : (j, r') ∷ m ≡ m' = cc (rw (same, good, push_entry) at e) in rw (← at) h
    ]
    | inr other ↦ elim (Option-cases (push_entry gpu_id W id x m)) [
      | inl bad ↦ cc (rw (other, bad, push_entry) at e)
      | inr (n, good) ↦
          let at : (j, r) ∷ n ≡ m' = cc (rw (other, good, push_entry) at e) in
          rw (← at) (h.0, push_entry-others id k x m n apart good h.1)
    ]
  ]

  push_entry-Distinct :
      (id : String) (x : A) (m m' : Rings)
      → push_entry gpu_id W id x m ≡ some m'
      → Distinct (keys m)
      → Distinct (keys m')
  unfolding push_entry
  push_entry-Distinct id x [] m' e d = elim (Option-cases (push W (new W) x)) [
    | inl bad ↦ cc (rw (bad, push_entry) at e)
    | inr (r, good) ↦
        let at : (id, r) ∷ [] ≡ m' = cc (rw (good, push_entry) at e) in rw (← at) (tt, tt)
  ]
  push_entry-Distinct id x ((j, r) ∷ m) m' e d = elim (Bool-cases (str_eq j id)) [
    | inl same ↦ elim (Option-cases (push W r x)) [
      | inl bad ↦ cc (rw (same, bad, push_entry) at e)
      | inr (r', good) ↦
          let at : (j, r') ∷ m ≡ m' = cc (rw (same, good, push_entry) at e) in rw (← at) d
    ]
    | inr other ↦ elim (Option-cases (push_entry gpu_id W id x m)) [
      | inl bad ↦ cc (rw (other, bad, push_entry) at e)
      | inr (n, good) ↦
          let at : (j, r) ∷ n ≡ m' = cc (rw (other, good, push_entry) at e) in
          let apart : j ≢ id = λ p. cc ((eq_iff j id).1 p) in
          rw (← at)
            (push_entry-others id j x m n apart good d.0, push_entry-Distinct id x m n good d.1)
    ]
  ]

  pub ingest_all-Distinct :
      (xs : List A) (s t : TelemetryStore A)
      → ingest_all gpu_id W s xs ≡ some t
      → Distinct (gpu_ids gpu_id W s)
      → Distinct (gpu_ids gpu_id W t)
  unfolding ingest_all ingest
  ingest_all-Distinct [] s t e d = let at : s ≡ t = cc in rw (← at) d
  ingest_all-Distinct (x ∷ xs) s t e d =
      elim (Option-cases (push_entry gpu_id W (gpu_id x) x s.rings)) [
        | inl bad ↦ cc (rw (bad, ingest_all, ingest) at e)
        | inr (m, good) ↦
            ingest_all-Distinct xs (record { rings = m }) t (rw (good, ingest_all, ingest) at e)
              (push_entry-Distinct (gpu_id x) x s.rings m good d)
      ]

  -- A GPU with a ring is among the keys.
  pub get-keys : (id : String) (m : Rings) → get id m ≢ none → Mem id (keys m)
  unfolding get
  get-keys id [] h = h refl
  get-keys id ((j, r) ∷ m) h = elim (Bool-cases (str_eq j id)) [
    | inl same ↦ inl (sym ((eq_iff j id).0 same))
    | inr other ↦ inr (get-keys id m (rw other at h))
  ]
