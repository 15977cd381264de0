-- ===== src/Telemetry/Ring/Tests.antt =====
-- Runs of the metric ring on small windows.
use nemesis.Prelude.{ℕ, List, [], ◌∷◌, some, ◌≡◌, arith}
use nemesis.Telemetry.Ring.Refine.{query, query_lem}

abbrev samples : List ℕ
samples = 1 ∷ 2 ∷ 3 ∷ 4 ∷ 5 ∷ []

query_lem_example : query 3 samples 2 ≡ some (4 ∷ 5 ∷ [])
query_lem_example = query_lem 3 (omega arith) samples 2
