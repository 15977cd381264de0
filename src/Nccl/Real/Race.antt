-- ===== src/Nccl/Real/Race.antt =====
-- Concurrent shrinks of a live communicator. `shrink` loads the count of active ranks before it
-- waits for the hook, and stores what is left of that count behind the split; nothing keeps another
-- call from doing the same in between.
use nemesis.Prelude.{
  ℕ, ◌-◌, ◌%◌, ◌^◌, ◌<◌, true, false, Result, ok, ◌≡◌, refl, ap, ◌∙◌, leb, Bool-cases, inl, inr,
  length, codes, arith, if◌then◌else◌, Text, text_eq, text_eq_refl, trim,
}
use nemesis.Nccl.Backend.{ShrinkRequest, ShrinkMetrics, no_error, real_cannot_exclude}
use nemesis.Nccl.Sim.{as_u32}
use nemesis.Nccl.Real.{
  Reply, connect_failed, timeout_failed, write_failed, flush_failed, read_failed, line, RealError,
  NcclReal, World, acknowledged, nccl_check, resume_phase, split_phase, quiesce_phase, shrink,
}
use nemesis.Nccl.Real.Phases.{Acknowledges}

-- Where a call stands: before its load, waiting with the count that it has loaded, or answered.
pub data Phase : Type 0 where
  ready : Phase
  waiting : ℕ → Phase
  answered : Result ShrinkMetrics RealError → Phase

unfoldable pub advance : NcclReal → World → ShrinkRequest → Phase → Phase × NcclReal
unfolding quiesce_phase
advance b w req ready =
    let excluded = as_u32 (length req.exclude_ranks) in
    if leb b.active_ranks excluded
    then (
      answered (
          ok (record {
            success = false;
            duration_ns = 0;
            active_rank_count = b.active_ranks;
            error = real_cannot_exclude excluded b.active_ranks;
          })),
      b,
    )
    else (waiting b.active_ranks, b)
advance b w req (waiting current) =
    let (r, b', actions) = quiesce_phase b w req current in (answered r, b')
advance b w req (answered r) = (answered r, b)

-- The hook and NCCL do their part.
pub record GoesWell (w : World) : Type 0 where
  pub paused : Acknowledges (codes "SAFE_POINT_ACK") w.safe_point
  pub calm : w.panics ≡ false
  pub split : w.status ≡ 0
  pub resumed : Acknowledges (codes "RESUMED") w.resume

Acknowledges→acknowledged :
    (expected : Text) (reply : Reply)
    → Acknowledges expected reply
    → acknowledged expected reply ≡ ok tt
Acknowledges→acknowledged expected (line l) h =
    let same : text_eq (trim l) expected ≡ true =
      ap (λ t. text_eq t expected) h ∙ text_eq_refl expected in
    rw (same) refl
Acknowledges→acknowledged expected connect_failed h = absurd h
Acknowledges→acknowledged expected timeout_failed h = absurd h
Acknowledges→acknowledged expected write_failed h = absurd h
Acknowledges→acknowledged expected flush_failed h = absurd h
Acknowledges→acknowledged expected read_failed h = absurd h

-- The answer of a call that leaves so many ranks active.
abbrev pub success : World → ℕ → Phase
success w left = answered (
    ok (record {
      success = true;
      duration_ns = w.elapsed_ns % 2 ^ 64;
      active_rank_count = left;
      error = no_error;
    }))

-- What is left of the loaded count is stored, whatever the count is by then.
waiting-GoesWell :
    (b : NcclReal) (w : World) (req : ShrinkRequest) (current : ℕ)
    → GoesWell w
    → let left = current - as_u32 (length req.exclude_ranks) in
      advance b w req (waiting current) ≡ (success w left, record b { active_ranks = left })
unfolding advance quiesce_phase split_phase resume_phase
waiting-GoesWell b w req current g =
    let acked = Acknowledges→acknowledged (codes "SAFE_POINT_ACK") w.safe_point g.paused in
    let done : nccl_check w.status ≡ ok tt = ap nccl_check g.split in
    let resumed = Acknowledges→acknowledged (codes "RESUMED") w.resume g.resumed in
    rw (quiesce_phase, acked, split_phase, g.calm, done, resume_phase, resumed) refl

ready-leb :
    (b : NcclReal) (w : World) (req : ShrinkRequest)
    → as_u32 (length req.exclude_ranks) < b.active_ranks
    → advance b w req ready ≡ (waiting b.active_ranks, b)
unfolding advance
ready-leb b w req room =
    let left : leb b.active_ranks (as_u32 (length req.exclude_ranks)) ≡ false = ground arith in
    rw (advance, left) refl

-- A call that runs alone is its two steps in a row.
pub advance-shrink :
    (b : NcclReal) (w : World) (req : ShrinkRequest)
    → let (p, b1) = advance b w req ready in
      let (q, b2) = advance b1 w req p in
      (q ≡ answered (shrink b w req).0) × (b2 ≡ (shrink b w req).1)
unfolding advance shrink
advance-shrink b w req =
    elim (Bool-cases (leb b.active_ranks (as_u32 (length req.exclude_ranks)))) [
      | inl all ↦ rw (all) (refl, refl)
      | inr left ↦ rw (left) (refl, refl)
    ]

module _ (b : NcclReal) (w w' : World) (req req' : ShrinkRequest) where
  abbrev left : ℕ
  left = b.active_ranks - as_u32 (length req.exclude_ranks)

  abbrev left' : ℕ
  left' = b.active_ranks - as_u32 (length req'.exclude_ranks)

  -- Let two calls each leave a rank of those that are active, and let the hook and NCCL do their
  -- part in both. If both load the count before either stores it, both succeed, but what the first
  -- takes away is not missing from the count in the end: only the ranks that the second excludes
  -- are.
  pub shrinks_lose_update :
      as_u32 (length req.exclude_ranks) < b.active_ranks
      → as_u32 (length req'.exclude_ranks) < b.active_ranks
      → GoesWell w
      → GoesWell w'
      → let (p, b1) = advance b w req ready in
        let (p', b2) = advance b1 w' req' ready in
        let (q, b3) = advance b2 w req p in
        let (q', b4) = advance b3 w' req' p' in
        (q ≡ success w (b.active_ranks - as_u32 (length req.exclude_ranks)))
        × (q' ≡ success w' (b.active_ranks - as_u32 (length req'.exclude_ranks)))
        × (b4.active_ranks ≡ b.active_ranks - as_u32 (length req'.exclude_ranks))
  shrinks_lose_update room room' well well' =
      let first = ready-leb b w req room in
      let second = ready-leb b w' req' room' in
      let third = waiting-GoesWell b w req b.active_ranks well in
      let last = waiting-GoesWell (record b { active_ranks = left }) w' req' b.active_ranks well' in
      rw (first, second, third, last) (refl, refl, refl)
