-- ===== src/Nccl/Contract/BackEnds.antt =====
-- The simulated and the real back end keep the promises of the trait.
use nemesis.Prelude.{
  ℕ, ◌-◌, ◌≤◌, ◌<◌, ◌%◌, ◌^◌, refl, length, arith, leb, Bool-cases, inl, inr, Result-cases, codes,
}
use nemesis.Nccl.Backend.{ShrinkRequest, ExpandRequest}
use nemesis.Nccl.Sim.{SimState, sim_backend, as_u32, shrink, expand}
use nemesis.Nccl.Sim.Ranks.{IsValid, shrink-IsValid, expand-IsValid}
use nemesis.Nccl.Real as Real
use nemesis.Nccl.Real.{
  NcclReal, World, Outcome, acknowledged, nccl_check, real_backend, resume_phase, split_phase,
  quiesce_phase,
}
use nemesis.Nccl.Contract.{ShrinkPromise, ExpandPromise, Promises}

sim_shrunk :
    (s : SimState) (req : ShrinkRequest)
    → IsValid s
    → let (answer, s') = sim_backend.shrink s req in
      ShrinkPromise (as_u32 (length req.exclude_ranks)) s.active_ranks s'.active_ranks answer
unfolding shrink
sim_shrunk s req v = ground arith

sim_expanded :
    (s : SimState) (req : ExpandRequest)
    → IsValid s
    → let (answer, s') = sim_backend.expand s req in
      ExpandPromise (as_u32 (length req.new_gpu_ids)) s.active_ranks s'.active_ranks answer
unfolding expand
sim_expanded s req v = ground arith

pub sim_backend-Promises : Promises sim_backend (λ s. s.active_ranks) IsValid
sim_backend-Promises = record {
  some_active = λ s v. v.some_active;
  shrink-Valid = shrink-IsValid;
  expand-Valid = expand-IsValid;
  shrunk = sim_shrunk;
  expanded = sim_expanded;
}

-- The promise of an outcome, and a rank that is left.
abbrev Kept : ℕ → ℕ → Outcome → Type 0
Kept excluded before (r, b, actions) =
    ShrinkPromise excluded before b.active_ranks r × (1 ≤ b.active_ranks)

module _ (b : NcclReal) (w : World) (req : ShrinkRequest) (ticks : 0 < w.elapsed_ns % 2 ^ 64) where
  abbrev excluded : ℕ
  excluded = as_u32 (length req.exclude_ranks)

  resume_phase-Kept :
      excluded < b.active_ranks
      → Kept excluded b.active_ranks
          (resume_phase (record b { active_ranks = b.active_ranks - excluded }) w)
  unfolding resume_phase
  resume_phase-Kept room = elim (Result-cases (acknowledged (codes "RESUMED") w.resume)) [
    | inl (u, good) ↦ rw (good) ((ticks, refl, refl, refl), omega arith)
    | inr (e, bad) ↦ rw (bad) (omega arith, omega arith)
  ]

  split_phase-Kept :
      excluded < b.active_ranks
      → Kept excluded b.active_ranks (split_phase b w b.active_ranks excluded)
  unfolding split_phase
  split_phase-Kept room = elim (Bool-cases w.panics) [
    | inl p ↦ rw (p) (omega arith, omega arith)
    | inr calm ↦ elim (Result-cases (nccl_check w.status)) [
      | inl (u, done) ↦ rw (calm, done) (resume_phase-Kept room)
      | inr (e, bad) ↦ rw (calm, bad) (omega arith, omega arith)
    ]
  ]

  real_shrink-Kept : 1 ≤ b.active_ranks → Kept excluded b.active_ranks (Real.shrink b w req)
  unfolding Real.shrink quiesce_phase
  real_shrink-Kept v = elim (Bool-cases (leb b.active_ranks excluded)) [
    | inl all ↦ rw (all) ((refl, refl, λ h. cc), v)
    | inr left ↦ elim (Result-cases (acknowledged (codes "SAFE_POINT_ACK") w.safe_point)) [
      | inl (u, acked) ↦ rw (left, acked) (split_phase-Kept (ground arith))
      | inr (e, bad) ↦ rw (left, bad) (omega arith, v)
    ]
  ]

abbrev pub SomeActive : NcclReal → Type 0
SomeActive b = 1 ≤ b.active_ranks

-- The simulated back end, in a state with an active rank and a count that is a `u32`, and the real
-- one, with an active rank and a clock that moves during a shrink by a positive `u64`, keep the
-- promises of the trait, where the lengths of lists count as a `u32`: a rank stays active, a shrink
-- that succeeds takes away as many ranks as it excludes and an expand that succeeds adds the new
-- ones, up to the greatest `u32`, each with a positive duration, the count that is left and no
-- error; a call that answers with a failure changes no count and has an error; and where it ends
-- with an error instead, a shrink adds no rank and an expand changes none.
pub back_ends-Promises :
    (world : NcclReal → ShrinkRequest → World)
    → (ticks : (b : NcclReal) (req : ShrinkRequest) → 0 < (world b req).elapsed_ns % 2 ^ 64)
    → Promises sim_backend (λ s. s.active_ranks) IsValid
      × Promises (real_backend world) (λ b. b.active_ranks) SomeActive
unfolding Real.expand
back_ends-Promises world ticks = (
  sim_backend-Promises,
  record {
    some_active = λ b v. v;
    shrink-Valid = λ b req v. (real_shrink-Kept b (world b req) req (ticks b req) v).1;
    expand-Valid = λ b req v. v;
    shrunk = λ b req v. (real_shrink-Kept b (world b req) req (ticks b req) v).0;
    expanded = λ b req v. refl;
  },
)
