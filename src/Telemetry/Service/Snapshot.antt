-- ===== src/Telemetry/Service/Snapshot.antt =====
-- What a snapshot of the cluster holds, in terms of all samples that were ingested.
use text.Mathlib.Text.{◌==◌ as str_eq}
use text.Mathlib.TextEquality.{eq_iff}
use nemesis.Prelude.{
  ℕ, suc, ◌-◌, ◌<◌, min, List, [], ◌∷◌, Option, none, some, String, true, ◌≡◌, ◌≢◌, ◌↔◌, refl, sym,
  ap, ◌∙◌, subst, All, Mem, Distinct, Sub, none_left, keep, skip, Pairs-Sub, map, length, drop,
  arith, get, and_then, first, Option-cases, inl, inr, All-filter_by,
}
use nemesis.Graph.Petgraph.{UnGraph}
use nemesis.Graph.Cluster.{GpuNode, Link, ClusterGraph, to_proto}
use nemesis.Telemetry.Ring.Refine.{last_n}
use nemesis.Telemetry.Store.{TelemetryStore, empty_store, ingest_all, gpu_window, gpu_ids}
use nemesis.Telemetry.Store.History.{of_gpu, Keeps, ingest_all_lem, window-Kept}
use nemesis.Telemetry.Store.Keys.{ingest_all-Distinct, get-keys}
use nemesis.Telemetry.Service.{latest_of, cons_some, ClusterSnapshot, get_cluster_state}

module _ {A : Type 0} where
  abbrev pub last : List A → Option A
  last [] = none
  last (x ∷ []) = some x
  last (x ∷ y ∷ ys) = last (y ∷ ys)

  first-last_n : (ys : List A) → first (last_n 1 ys) ≡ last ys
  first-last_n [] = refl
  first-last_n (x ∷ []) = refl
  first-last_n (x ∷ y ∷ ys) =
      let one_more : suc (suc (length ys)) - 1 ≡ suc (suc (length ys) - 1) = omega arith in
      ap (λ k. first (drop k (x ∷ y ∷ ys))) one_more ∙ first-last_n (y ∷ ys)

  last-All : (P : A → Type 0) (ys : List A) {x : A} → All P ys → last ys ≡ some x → P x
  last-All P [] h e = cc
  last-All P (y ∷ []) h e = subst P (cc) h.0
  last-All P (y ∷ z ∷ ys) h e = last-All P (z ∷ ys) h.1 e

module _ {A : Type 0} (gpu_id : A → String) (W : ℕ) (pos : 0 < W) (hist : List A) where
  -- The last sample of a GPU.
  abbrev pub newest : String → Option A
  newest id = last (of_gpu gpu_id W pos id hist)

  abbrev pub newest_of : List String → List A
  newest_of [] = []
  newest_of (id ∷ ids) = cons_some gpu_id W (newest id) (newest_of ids)

  newest-gpu_id : (id : String) {x : A} → newest id ≡ some x → gpu_id x ≡ id
  newest-gpu_id id {x} e = (eq_iff (gpu_id x) id).0 (
      last-All (λ y. str_eq (gpu_id y) id ≡ true) (of_gpu gpu_id W pos id hist)
        (All-filter_by (λ y. str_eq (gpu_id y) id) hist) e)

  Sub-newest_of : (ids : List String) → Sub (map gpu_id (newest_of ids)) ids
  Sub-newest_of [] = none_left
  Sub-newest_of (id ∷ ids) = elim (Option-cases (newest id)) [
    | inl e ↦ rw e (skip id (Sub-newest_of ids))
    | inr (x, e) ↦ rw (e, newest-gpu_id id e) (keep id (Sub-newest_of ids))
  ]

  newest_of-Mem : (ids : List String) (x : A) → Mem x (newest_of ids) → newest (gpu_id x) ≡ some x
  newest_of-Mem [] x m = absurd m
  newest_of-Mem (id ∷ ids) x m = elim (Option-cases (newest id)) [
    | inl e ↦ newest_of-Mem ids x (rw e at m)
    | inr (y, e) ↦
        let m' : Mem x (y ∷ newest_of ids) = rw e at m in
        elim m' [ inl at ↦ rw (at, newest-gpu_id id e) e | inr k ↦ newest_of-Mem ids x k ]
  ]

  Mem-newest_of :
      (ids : List String) (id : String) (x : A)
      → Mem id ids
      → newest id ≡ some x
      → Mem x (newest_of ids)
  Mem-newest_of [] id x m e = absurd m
  Mem-newest_of (j ∷ ids) id x (inl at) e =
      let here : newest j ≡ some x = ap newest (sym at) ∙ e in rw here (inl refl)
  Mem-newest_of (j ∷ ids) id x (inr m) e =
      let rest = Mem-newest_of ids id x m e in
      elim (Option-cases (newest j)) [ inl e' ↦ rw e' rest | inr (y, e') ↦ rw e' (inr rest) ]

  module _ (s : TelemetryStore A) (keeps : Keeps gpu_id W pos hist s) where
    window_newest :
        (id : String) → (w : List A) × (gpu_window gpu_id W s id 1 ≡ some w) × (first w ≡ newest id)
    window_newest id =
        let own = of_gpu gpu_id W pos id hist in
        let one : min 1 W ≡ 1 = omega arith in
        (
          last_n 1 own,
          window-Kept gpu_id W pos own s id 1 (keeps id) ∙ ap (λ n. some (last_n n own)) one,
          first-last_n own,
        )

    pub latest_of_lem : (ids : List String) → latest_of gpu_id W s ids ≡ some (newest_of ids)
    unfolding latest_of
    latest_of_lem [] = refl
    latest_of_lem (id ∷ ids) =
        let (w, read, at) = window_newest id in rw (latest_of, read, latest_of_lem ids, at)

    has_ring : (x : A) → newest (gpu_id x) ≡ some x → get (gpu_id x) s.rings ≢ none
    has_ring x e nothing =
        let own = of_gpu gpu_id W pos (gpu_id x) hist in
        let empty : own ≡ [] = rw nothing at (keeps (gpu_id x)) in
        let none_left' : newest (gpu_id x) ≡ none = ap last empty in cc

module _ {F G A : Type 0} (lib : UnGraph GpuNode (Link F) G) (gpu_id : A → String) (W : ℕ)
    (pos : 0 < W) where
  -- After any samples, with at least one slot in a ring, the snapshot does not panic. It holds the
  -- graph and the time, at most one sample of a GPU, and exactly the last sample of each.
  pub get_cluster_state_lem :
      (hist : List A) (c : ClusterGraph G) (now : ℕ) (x : A)
      → (snap : ClusterSnapshot F A) × (and_then
            (ingest_all gpu_id W (empty_store gpu_id W) hist)
            (λ s. get_cluster_state lib gpu_id W s c now)
          ≡ some snap)
        × (snap.topology ≡ to_proto lib c)
        × (snap.taken_ns ≡ now)
        × Distinct (map gpu_id snap.latest)
        × (Mem x snap.latest ↔ (newest gpu_id W pos hist (gpu_id x) ≡ some x))
  unfolding get_cluster_state get
  get_cluster_state_lem hist c now x =
      let (s, all, keeps) =
        ingest_all_lem gpu_id W pos hist [] (empty_store gpu_id W) (λ k. refl) in
      let ids = gpu_ids gpu_id W s in
      let latest = newest_of gpu_id W pos hist ids in
      let distinct : Distinct ids =
        ingest_all-Distinct gpu_id W hist (empty_store gpu_id W) s all tt in
      (
        record { topology = to_proto lib c; latest = latest; taken_ns = now },
        rw (all, get_cluster_state, latest_of_lem gpu_id W pos hist s keeps ids),
        refl,
        refl,
        Pairs-Sub ◌≢◌ (Sub-newest_of gpu_id W pos hist ids) distinct,
        (
          newest_of-Mem gpu_id W pos hist ids x,
          λ e.
              Mem-newest_of gpu_id W pos hist ids (gpu_id x) x
                (get-keys gpu_id W (gpu_id x) s.rings (has_ring gpu_id W pos hist s keeps x e)) e,
        ),
      )
