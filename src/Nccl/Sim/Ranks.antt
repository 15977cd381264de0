-- ===== src/Nccl/Sim/Ranks.antt =====
-- The states that the simulated back end may be in, and what a shrink does to the number of active
-- ranks.
use nemesis.Prelude.{◌+◌, ◌≤◌, ◌<◌, true, ◌≡◌, arith, length}
use nemesis.Nccl.Backend.{ShrinkRequest, ExpandRequest, no_error}
use nemesis.Nccl.Sim.{SimState, u32_max, shrink, expand}

-- A state that the simulator may be in: some rank is active, and the count is a `u32`.
pub record IsValid (s : SimState) : Type 0 where
  pub some_active : 1 ≤ s.active_ranks
  pub in_range : s.active_ranks ≤ u32_max

module _ (s : SimState) (req : ShrinkRequest) where
  -- On a count that is a `u32`, a shrink that leaves at least one rank succeeds: it takes exactly
  -- the excluded ranks away, reports the count that the state then holds, no error, and a
  -- positive duration.
  pub shrink_success :
      s.active_ranks ≤ u32_max
      → length req.exclude_ranks < s.active_ranks
      → let (m, s') = shrink s req in
        (m.success ≡ true)
        × (m.active_rank_count + length req.exclude_ranks ≡ s.active_ranks)
        × (s'.active_ranks ≡ m.active_rank_count)
        × (m.error ≡ no_error)
        × (0 < m.duration_ns)
  unfolding shrink
  shrink_success range room = ground arith

  pub shrink-IsValid : IsValid s → IsValid (shrink s req).1
  unfolding shrink
  shrink-IsValid v = ground arith

pub expand-IsValid : (s : SimState) (req : ExpandRequest) → IsValid s → IsValid (expand s req).1
unfolding expand
expand-IsValid s req v = ground arith
