-- ===== src/Nccl/Sim/Duration.antt =====
-- The simulated latencies.
use nemesis.Prelude.{◌*◌, ◌%◌, ◌+◌, ◌^◌, ◌≤◌, ◌<◌, ◌≡◌, arith}
use nemesis.Nccl.Sim.{SimState, seeded_duration_ns, next_seed, duration_of}

-- Every sampled duration lies in [4 s, 4.5 s): the signed jitter is never negative, so that the
-- mean that the source names is the least value and the floor is never reached. The new seed is the
-- next one of the generator, modulo 2^64, and the ranks are left alone.
pub seeded_duration_bounds :
    (s : SimState)
    → let (duration, s') = seeded_duration_ns s in
      (4_000_000_000 ≤ duration)
      × (duration < 4_500_000_000)
      × (s'.seed ≡ (s.seed * 6_364_136_223_846_793_005 + 1_442_695_040_888_963_407) % 2 ^ 64)
      × (s'.active_ranks ≡ s.active_ranks)
unfolding seeded_duration_ns next_seed duration_of
seeded_duration_bounds s = ground arith
