-- ===== src/Nccl/Sim/Tests.antt =====
-- Calls of the simulated back end at concrete states.
use nemesis.Prelude.{◌*◌, ◌%◌, ◌+◌, ◌^◌, ◌≤◌, ◌<◌, true, List, [], ◌∷◌, ◌≡◌, refl, arith}
use nemesis.Nccl.Backend.{ShrinkMetrics}
use nemesis.Nccl.Sim.{SimState, new, u32_max, shrink_check, seeded_duration_ns}
use nemesis.Nccl.Sim.Duration.{seeded_duration_bounds}
use nemesis.Nccl.Sim.Race.{
  Phase, advance, checked, later, here, waiting, finished, Reach, start, all_owed, AllSucceed,
  all_granted, admitting, interleaved_calls, shrinks_race,
}

abbrev eight : SimState
eight = new 8 42

seeded_duration_bounds_example :
    (4_000_000_000 ≤ (seeded_duration_ns eight).0)
    × ((seeded_duration_ns eight).0 < 4_500_000_000)
    × ((seeded_duration_ns eight).1.seed
        ≡ (42 * 6_364_136_223_846_793_005 + 1_442_695_040_888_963_407) % 2 ^ 64)
    × ((seeded_duration_ns eight).1.active_ranks ≡ 8)
seeded_duration_bounds_example = seeded_duration_bounds eight

abbrev in_flight : List Phase
in_flight = waiting 3 ∷ admitting 2 ∷ waiting 4 ∷ []

abbrev one_checked : List Phase
one_checked = checked 3 ∷ admitting 2 ∷ waiting 4 ∷ []

first_check : Reach eight in_flight eight one_checked
unfolding advance shrink_check
first_check = later start (here (admitting 2 ∷ waiting 4 ∷ []) refl)

interleaved_calls_example :
    (8 + all_owed in_flight + all_granted one_checked
      ≡ 8 + all_owed one_checked + all_granted in_flight)
    × (all_owed one_checked < 8)
    × (8 + all_granted one_checked ≤ u32_max)
    × AllSucceed one_checked
interleaved_calls_example =
    interleaved_calls (omega arith) (omega arith) (tt, (tt, (tt, tt))) first_check

shrinks_race_example :
    (t : SimState) × (m n : ShrinkMetrics) × Reach eight
      (waiting 5 ∷ waiting 5 ∷ [])
      t
      (finished m ∷ finished n ∷ [])
    × (m.success ≡ true)
    × (n.success ≡ true)
    × (t.active_ranks + (5 + 5) ≡ 8 + 2 ^ 32)
shrinks_race_example =
    shrinks_race eight 5 5 (omega arith) (omega arith) (omega arith) (omega arith)
