-- ===== src/Nccl/Sim.antt =====
-- substrate/crates/nemesis-nccl/src/sim.rs: the simulated back end. The awaits of `tokio::time`
-- split `shrink` and `expand` into phases; a call that runs alone is the phases in a row.
pub mod Signed
pub mod Duration
pub mod Ranks
pub mod Race
mod Tests
use nemesis.Prelude.{
  ℕ, ◌+◌, ◌-◌, ◌*◌, ◌/◌, ◌%◌, ◌^◌, min, max, true, false, Option, none, some, leb, length,
  if◌then◌else◌, ok, Text,
}
use nemesis.Nccl.Sim.Signed.{I64, as_i64, rem, plus, at_least, as_u64}
use nemesis.Nccl.Backend.{
  ShrinkRequest, ExpandRequest, ShrinkMetrics, ExpandMetrics, NcclBackend, no_error,
  sim_cannot_exclude,
}

abbrev pub shrink_mean_ns : ℕ
shrink_mean_ns = 4_000_000_000

abbrev pub shrink_sigma_ns : ℕ
shrink_sigma_ns = 500_000_000

abbrev pub shrink_floor_ns : ℕ
shrink_floor_ns = 100_000_000

abbrev pub u32_max : ℕ
u32_max = 2 ^ 32 - 1

-- `len() as u32` keeps the low 32 bits.
abbrev pub as_u32 : ℕ → ℕ
as_u32 n = n % 2 ^ 32

pub record SimState : Type 0 where
  pub active_ranks : ℕ
  pub seed : ℕ

-- `NcclSim::new`: the state behind the mutex.
abbrev pub new : ℕ → ℕ → SimState
new world_size seed = record { active_ranks = world_size; seed = seed }

-- The linear congruential generator, modulo 2^64.
unfoldable pub next_seed : ℕ → ℕ
next_seed seed = (seed * 6_364_136_223_846_793_005 + 1_442_695_040_888_963_407) % 2 ^ 64

-- `((seed >> 33) as i64) % (SIGMA as i64)`, the jitter.
abbrev pub jitter_of : ℕ → I64
jitter_of seed = rem (as_i64 (seed / 2 ^ 33)) shrink_sigma_ns

-- `(MEAN as i64 + jitter).max(FLOOR as i64) as u64`; the jitter is less than 2^32 away from 0, so
-- that the sum is an `i64`.
unfoldable pub duration_of : ℕ → ℕ
duration_of seed = as_u64 (at_least shrink_floor_ns (plus shrink_mean_ns (jitter_of seed)))

unfoldable pub seeded_duration_ns : SimState → ℕ × SimState
unfolding next_seed duration_of
seeded_duration_ns s = let seed = next_seed s.seed in (duration_of seed, record s { seed = seed })

-- `state.active_ranks -= excluded` on a `u32`, with the wrap of a release build.
abbrev pub sub_u32 : ℕ → ℕ → ℕ
sub_u32 a b = (a + 2 ^ 32 - b) % 2 ^ 32

abbrev pub saturating_add : ℕ → ℕ → ℕ
saturating_add a b = min (a + b) u32_max

-- `shrink`, first lock: `some` is the early return.
unfoldable pub shrink_check : SimState → ℕ → Option ShrinkMetrics
shrink_check s excluded =
    if leb s.active_ranks excluded
    then some (record {
      success = false;
      duration_ns = 0;
      active_rank_count = s.active_ranks;
      error = sim_cannot_exclude excluded s.active_ranks;
    })
    else none

-- `shrink`, the lock behind the sleep.
unfoldable pub shrink_commit : SimState → ℕ → ℕ → ShrinkMetrics × SimState
shrink_commit s excluded duration =
    let left = sub_u32 s.active_ranks excluded in
    (
      record { success = true; duration_ns = duration; active_rank_count = left; error = no_error },
      record s { active_ranks = left },
    )

unfoldable pub shrink_rest : SimState → ℕ → ShrinkMetrics × SimState
unfolding seeded_duration_ns shrink_commit
shrink_rest s excluded =
    let (duration, s') = seeded_duration_ns s in shrink_commit s' excluded duration

unfoldable pub shrink : SimState → ShrinkRequest → ShrinkMetrics × SimState
unfolding shrink_check shrink_rest
shrink s req =
    let excluded = as_u32 (length req.exclude_ranks) in
    elim (shrink_check s excluded) [ some early ↦ (early, s) | none ↦ shrink_rest s excluded ]

unfoldable pub expand_commit : SimState → ℕ → ℕ → ExpandMetrics × SimState
expand_commit s added duration =
    let grown = saturating_add s.active_ranks added in
    (
      record {
        success = true;
        duration_ns = duration;
        active_rank_count = grown;
        error = no_error;
      },
      record s { active_ranks = grown },
    )

unfoldable pub expand : SimState → ExpandRequest → ExpandMetrics × SimState
unfolding seeded_duration_ns expand_commit
expand s req =
    let (duration, s') = seeded_duration_ns s in
    expand_commit s' (as_u32 (length req.new_gpu_ids)) duration

-- It answers every call, never with an error, which would be a text.
abbrev pub sim_backend : NcclBackend SimState Text
sim_backend = record {
  shrink = λ s req. (ok (shrink s req).0, (shrink s req).1);
  expand = λ s req. (ok (expand s req).0, (expand s req).1);
}
