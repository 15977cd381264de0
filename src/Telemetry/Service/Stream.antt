-- ===== src/Telemetry/Service/Stream.antt =====
-- What an ingest stream does.
use mathlib.Core.Option
use nemesis.Prelude.{
  ℕ, List, [], ◌∷◌, String, Result, ok, err, ◌≡◌, refl, Option-cases, inl, inr, map,
}
use nemesis.Telemetry.Store.{TelemetryStore, ingest, ingest_all}
use nemesis.Telemetry.Service.{ingest_metrics}

module _ {A S : Type 0} where
  -- The samples that arrive, and an answer to each item: an acknowledgement, or its error.
  abbrev pub arrived : List (Result A S) → List A
  arrived [] = []
  arrived (ok x ∷ items) = x ∷ arrived items
  arrived (err e ∷ items) = arrived items

  abbrev pub reply : Result A S → Result (Unit {0}) S
  reply (ok x) = ok tt
  reply (err e) = err e

module _ {A S : Type 0} (gpu_id : A → String) (W : ℕ) where
  -- A stream answers each item in order, errors with themselves, and leaves the store as ingesting
  -- the samples that arrived does, those behind an error too; it panics exactly if that does.
  pub ingest_metrics_lem :
      (items : List (Result A S)) (s : TelemetryStore A)
      → ingest_metrics gpu_id W s items
        ≡ Option.map (λ t. (map reply items, t)) (ingest_all gpu_id W s (arrived items))
  unfolding ingest_metrics ingest_all
  ingest_metrics_lem [] s = refl
  ingest_metrics_lem (err e ∷ items) s =
      elim (Option-cases (ingest_all gpu_id W s (arrived items))) [
        | inl e' ↦ rw (ingest_metrics_lem items s, e')
        | inr (t, e') ↦ rw (ingest_metrics_lem items s, e')
      ]
  ingest_metrics_lem (ok x ∷ items) s = elim (Option-cases (ingest gpu_id W s x)) [
    | inl e ↦ rw (ingest_metrics, ingest_all, e)
    | inr (s', e) ↦ elim (Option-cases (ingest_all gpu_id W s' (arrived items))) [
      | inl e' ↦ rw (ingest_metrics, ingest_all, e, ingest_metrics_lem items s', e')
      | inr (t, e') ↦ rw (ingest_metrics, ingest_all, e, ingest_metrics_lem items s', e')
    ]
  ]
