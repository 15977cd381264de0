-- ===== src/Telemetry/Store.antt =====
-- substrate/crates/nemesis-telemetry/src/store.rs: the rings of the GPUs by their ids. Each method
-- holds the lock to its end, so that it is one step. The bus of events, a channel of tokio, is left
-- out. A `none` is a panic of the ring.
pub mod History
pub mod Keys
mod Tests
use text.Mathlib.Text.{◌==◌ as str_eq}
use mathlib.Core.Option
use nemesis.Prelude.{
  and_then, get, ℕ, List, [], ◌∷◌, Option, none, some, String, Bool, true, false, if◌then◌else◌,
  map,
}
use nemesis.Telemetry.Ring.{MetricRing}
use nemesis.Telemetry.Ring

pub record TelemetryStore (A : Type 0) : Type 0 where
  pub rings : List (String × MetricRing A)

-- A sample is of any type with a GPU id; `W` is the number of slots of a ring.
module _ {A : Type 0} (gpu_id : A → String) (W : ℕ) where
  abbrev pub empty_store : TelemetryStore A
  empty_store = record { rings = [] }

  -- `entry(id).or_default().push(sample)`
  unfoldable pub push_entry :
      String → A → List (String × MetricRing A) → Option (List (String × MetricRing A))
  push_entry id sample [] = Option.map (λ r. (id, r) ∷ []) (Ring.push W (Ring.new W) sample)
  push_entry id sample ((j, r) ∷ m) =
      if str_eq j id
      then Option.map (λ r'. (j, r') ∷ m) (Ring.push W r sample)
      else Option.map (λ m'. (j, r) ∷ m') (push_entry id sample m)

  unfoldable pub ingest : TelemetryStore A → A → Option (TelemetryStore A)
  unfolding push_entry
  ingest s sample =
      Option.map (λ m. record { rings = m }) (push_entry (gpu_id sample) sample s.rings)

  unfoldable pub gpu_window : TelemetryStore A → String → ℕ → Option (List A)
  unfolding get
  gpu_window s id n = elim (get id s.rings) [ none ↦ some [] | some r ↦ Ring.window W r n ]

  abbrev pub gpu_ids : TelemetryStore A → List String
  gpu_ids s = map (λ e. e.0) s.rings

  unfoldable pub ingest_all : TelemetryStore A → List A → Option (TelemetryStore A)
  unfolding ingest
  ingest_all s [] = some s
  ingest_all s (x ∷ xs) = and_then (ingest s x) λ s'. ingest_all s' xs
