-- ===== src/Telemetry/Store/Tests.antt =====
-- Samples of two GPUs, interleaved; a sample is its GPU and a number.
use nemesis.Prelude.{and_then, ℕ, List, [], ◌∷◌, some, String, ◌≡◌, arith}
use nemesis.Telemetry.Store.{empty_store, ingest_all, gpu_window}
use nemesis.Telemetry.Store.History.{store_window}

abbrev Sample : Type 0
Sample = String × ℕ

abbrev source : Sample → String
source x = x.0

abbrev samples : List Sample
samples = ("g0", 1) ∷ ("g1", 5) ∷ ("g0", 2) ∷ ("g0", 3) ∷ []

abbrev last_two : List Sample
last_two = ("g0", 2) ∷ ("g0", 3) ∷ []

store_window_example :
    and_then
      (ingest_all source 2 (empty_store source 2) samples)
      (λ s. gpu_window source 2 s "g0" 5)
    ≡ some last_two
store_window_example = store_window source 2 (omega arith) samples "g0" 5
