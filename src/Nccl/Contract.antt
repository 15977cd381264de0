-- ===== src/Nccl/Contract.antt =====
-- What the trait of backend.rs promises to its clients, over the number of active ranks of a back
-- end in a state that it may be in. The lengths of lists count as a `u32`.
pub mod BackEnds
pub mod Shrunk
mod Tests
use nemesis.Prelude.{
  ℕ, ◌+◌, ◌-◌, ◌≤◌, ◌<◌, min, Bool, true, false, Result, ok, err, ◌≡◌, ◌≢◌, length,
}
use nemesis.Nccl.Backend.{
  ShrinkRequest, ExpandRequest, ShrinkMetrics, ExpandMetrics, NcclBackend, BackendError, no_error,
}
use nemesis.Nccl.Sim.{as_u32, u32_max}

-- What is reported, in the order of the fields, of a call that had `target` to reach: on success the
-- ranks that are left, a duration and no error, else an error and the ranks as they were.
abbrev pub Reports : (before target after : ℕ) → Bool → ℕ → ℕ → BackendError → Type 0
Reports before target after true duration_ns count e =
    (0 < duration_ns) × (count ≡ target) × (after ≡ target) × (e ≡ no_error)
Reports before target after false duration_ns count e =
    (count ≡ before) × (after ≡ before) × (e ≢ no_error)

-- A shrink that ends with an error may have taken the ranks away, but adds none.
abbrev pub ShrinkPromise : {X : Type 0} → ℕ → ℕ → ℕ → Result ShrinkMetrics X → Type 0
ShrinkPromise excluded before after (ok m) =
    Reports before (before - excluded) after m.success m.duration_ns m.active_rank_count m.error
ShrinkPromise excluded before after (err e) = after ≤ before

abbrev pub ExpandPromise : {X : Type 0} → ℕ → ℕ → ℕ → Result ExpandMetrics X → Type 0
ExpandPromise added before after (ok m) =
    Reports before (min (before + added) u32_max) after m.success m.duration_ns m.active_rank_count
      m.error
ExpandPromise added before after (err e) = after ≡ before

-- `Valid` are the states that the back end may be in.
pub record Promises {S X : Type 0} (b : NcclBackend S X) (ranks : S → ℕ) (Valid : S → Type 0)
    : Type 0 where
  pub some_active : (s : S) → Valid s → 1 ≤ ranks s
  pub shrink-Valid : (s : S) (req : ShrinkRequest) → Valid s → Valid (b.shrink s req).1
  pub expand-Valid : (s : S) (req : ExpandRequest) → Valid s → Valid (b.expand s req).1
  pub shrunk :
      (s : S) (req : ShrinkRequest)
      → Valid s
      → let (answer, s') = b.shrink s req in
        ShrinkPromise (as_u32 (length req.exclude_ranks)) (ranks s) (ranks s') answer
  pub expanded :
      (s : S) (req : ExpandRequest)
      → Valid s
      → let (answer, s') = b.expand s req in
        ExpandPromise (as_u32 (length req.new_gpu_ids)) (ranks s) (ranks s') answer
