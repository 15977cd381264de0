-- ===== src/Simulator/Metrics.antt =====
-- The task of sim/crates/nemesis-sim/src/main.rs that fills the store: in each round one sample of
-- each GPU, of the same logical time.
use text.Mathlib.Text.{◌==◌ as str_eq}
use text.Mathlib.TextEquality.{eq_iff}
use nemesis.Prelude.{
  ℕ, zero, suc, ◌+◌, ◌-◌, ◌%◌, ◌^◌, ◌<◌, min, List, [], ◌∷◌, ◌++◌, String, some, and_then, map,
  length, drop, ◌≡◌, ◌≢◌, refl, sym, ap, ◌∙◌, All, Mem, Distinct, filter_by, ap₂, subst, Bool,
  Bool-cases, inl, inr, subst,
}
use mathlib.Core.Option
use nemesis.Telemetry.Ring.Refine.{last_n}
use nemesis.Telemetry.Store.{empty_store, gpu_window, ingest_all}
use nemesis.Telemetry.Store.History.{filter_by-append, store_window}
use nemesis.Simulator.Cluster.{SimCluster, Floats, MetricSample, sample_at}

abbrev pub next_tick : ℕ → ℕ
next_tick t_ns = (t_ns + 100_000_000) % 2 ^ 64

module _ {F G : Type 0} (f : Floats F) where
  -- The inner loop over the ids.
  unfoldable pub samples_at :
      SimCluster F G → List String → ℕ → List (MetricSample F) × SimCluster F G
  unfolding sample_at
  samples_at sim [] t_ns = ([], sim)
  samples_at sim (id ∷ ids) t_ns =
      let (sample, sim') = sample_at f sim id t_ns in
      let (more, sim'') = samples_at sim' ids t_ns in (sample ∷ more, sim'')

  -- What so many rounds of the task ingest, from a logical time on.
  unfoldable pub rounds : ℕ → SimCluster F G → ℕ → List (MetricSample F)
  unfolding samples_at
  rounds zero sim t_ns = []
  rounds (suc k) sim t_ns =
      let (samples, sim') = samples_at sim sim.gpu_ids t_ns in
      samples ++ rounds k sim' (next_tick t_ns)

-- The logical times of the rounds.
abbrev pub ticks : ℕ → ℕ → List ℕ
ticks zero t_ns = []
ticks (suc k) t_ns = t_ns ∷ ticks k (next_tick t_ns)

map-append : {A B : Type 0} (g : A → B) (xs ys : List A) → map g (xs ++ ys) ≡ map g xs ++ map g ys
map-append g [] ys = refl
map-append g (x ∷ xs) ys = ap (λ l. g x ∷ l) (map-append g xs ys)

map-drop : {A B : Type 0} (g : A → B) (k : ℕ) (xs : List A) → map g (drop k xs) ≡ drop k (map g xs)
map-drop g zero xs = refl
map-drop g (suc k) [] = refl
map-drop g (suc k) (x ∷ xs) = map-drop g k xs

length-map : {A B : Type 0} (g : A → B) (xs : List A) → length (map g xs) ≡ length xs
length-map g [] = refl
length-map g (x ∷ xs) = ap suc (length-map g xs)

map-last_n :
    {A B : Type 0} (g : A → B) (n : ℕ) (xs : List A) → map g (last_n n xs) ≡ last_n n (map g xs)
map-last_n g n xs =
    map-drop g (length xs - n) xs ∙ ap (λ k. drop (k - n) (map g xs)) (sym (length-map g xs))

abbrev pub id_of : {F : Type 0} → MetricSample F → String
id_of x = x.gpu_id

abbrev pub time_of : {F : Type 0} → MetricSample F → ℕ
time_of x = x.timestamp_ns

module _ {F G : Type 0} (f : Floats F) where
  samples_at-ids :
      (sim : SimCluster F G) (ids : List String) (t_ns : ℕ)
      → (samples_at f sim ids t_ns).1.gpu_ids ≡ sim.gpu_ids
  unfolding samples_at sample_at
  samples_at-ids sim [] t_ns = refl
  samples_at-ids sim (id ∷ ids) t_ns = samples_at-ids (sample_at f sim id t_ns).1 ids t_ns

  -- Of a GPU that is not among the ids there is no sample.
  of_gpu-other :
      (sim : SimCluster F G) (ids : List String) (t_ns : ℕ) (id : String)
      → All (λ other. id ≢ other) ids
      → filter_by (λ x. str_eq (id_of x) id) (samples_at f sim ids t_ns).0 ≡ []
  unfolding samples_at sample_at
  of_gpu-other sim [] t_ns id apart = refl
  of_gpu-other sim (other ∷ ids) t_ns id apart = elim (Bool-cases (str_eq other id)) [
    | inl same ↦ absurd (apart.0 (sym ((eq_iff other id).0 same)))
    | inr e ↦ rw (e) (of_gpu-other (sample_at f sim other t_ns).1 ids t_ns id apart.1)
  ]

  of_gpu-samples_at :
      (sim : SimCluster F G) (ids : List String) (t_ns : ℕ) (id : String)
      → Distinct ids
      → Mem id ids
      → map time_of (filter_by (λ x. str_eq (id_of x) id) (samples_at f sim ids t_ns).0) ≡ t_ns ∷ []
  unfolding samples_at sample_at
  of_gpu-samples_at sim [] t_ns id apart m = absurd m
  of_gpu-samples_at sim (other ∷ ids) t_ns id apart m = elim (Bool-cases (str_eq other id)) [
    | inl same ↦
        let at = (eq_iff other id).0 same in
        let rest =
          of_gpu-other (sample_at f sim other t_ns).1 ids t_ns id
            (subst (λ s. All (λ o. s ≢ o) ids) at apart.0) in
        rw (same, rest) refl
    | inr e ↦ elim m [
      | inl at ↦ cc ((eq_iff other id).1 (sym at))
      | inr there ↦
          rw (e) (of_gpu-samples_at (sample_at f sim other t_ns).1 ids t_ns id apart.1 there)
    ]
  ]

  rounds-ticks :
      (k : ℕ) (sim : SimCluster F G) (t_ns : ℕ) (id : String)
      → Distinct sim.gpu_ids
      → Mem id sim.gpu_ids
      → map time_of (filter_by (λ x. str_eq (id_of x) id) (rounds f k sim t_ns)) ≡ ticks k t_ns
  unfolding rounds
  rounds-ticks zero sim t_ns id apart m = refl
  rounds-ticks (suc k) sim t_ns id apart m =
      let own : MetricSample F → Bool = λ x. str_eq (id_of x) id in
      let (samples, sim') = samples_at f sim sim.gpu_ids t_ns in
      let later = rounds f k sim' (next_tick t_ns) in
      let same = samples_at-ids sim sim.gpu_ids t_ns in
      let here = of_gpu-samples_at sim sim.gpu_ids t_ns id apart m in
      let rest =
        rounds-ticks k sim' (next_tick t_ns) id (subst (λ ids. Distinct ids) (sym same) apart)
          (subst (λ ids. Mem id ids) (sym same) m) in
      ap (map time_of) (filter_by-append own samples later)
      ∙ map-append time_of (filter_by own samples) (filter_by own later)
      ∙ ap₂ (λ a b. a ++ b) here rest

  -- Let no two GPUs of the simulator have one id, and the store's rings have a slot or more. Then
  -- after any number of rounds of the task that fills the store, none of which panics, a query
  -- for `n` samples of a GPU of the simulator is answered with the times of the last `min n W`
  -- rounds, oldest first.
  pub rounds-window :
      (W : ℕ) (k : ℕ) (sim : SimCluster F G) (t_ns : ℕ) (id : String) (n : ℕ)
      → 0 < W
      → Distinct sim.gpu_ids
      → Mem id sim.gpu_ids
      → Option.map (map time_of) (
          and_then
            (ingest_all id_of W (empty_store id_of W) (rounds f k sim t_ns))
            (λ s. gpu_window id_of W s id n))
        ≡ some (last_n (min n W) (ticks k t_ns))
  rounds-window W k sim t_ns id n pos apart m =
      let hist = rounds f k sim t_ns in
      let own = filter_by (λ x. str_eq (id_of x) id) hist in
      ap (Option.map (map time_of)) (store_window id_of W pos hist id n)
      ∙ ap some (
          map-last_n time_of (min n W) own
          ∙ ap (last_n (min n W)) (rounds-ticks k sim t_ns id apart m))
