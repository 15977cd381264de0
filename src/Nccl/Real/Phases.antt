-- ===== src/Nccl/Real/Phases.antt =====
-- The phases of a shrink of a live communicator: what a success takes, and what comes before what.
use nemesis.Prelude.{
  ℕ, ◌+◌, ◌-◌, ◌≤◌, ◌^◌, ◌%◌, true, false, [], ◌∷◌, Result, ok, err, ◌≡◌, refl, sym, ap, ◌∙◌, leb,
  Bool-cases, inl, inr, length, codes, arith, Text, text_eq, trim, text_eq_sound, Result-cases,
  subst,
}
use nemesis.Nccl.Backend.{ShrinkRequest, ShrinkMetrics, no_error}
use nemesis.Nccl.Sim.{as_u32}
use nemesis.Nccl.Real.{
  Reply, connect_failed, timeout_failed, write_failed, flush_failed, read_failed, line, RealError,
  sent, comm_split, NcclReal, World, Outcome, written, acknowledged, nccl_check, safe_point_request,
  resume_request, resume_phase, split_phase, quiesce_phase, shrink,
}

-- The hook's line, trimmed, is the acknowledgement.
abbrev pub Acknowledges : Text → Reply → Type 0
Acknowledges expected (line l) = trim l ≡ expected
Acknowledges expected _ = ⊥

pub acknowledged_sound :
    (expected : Text) (reply : Reply) {u : Unit {0}}
    → acknowledged expected reply ≡ ok u
    → Acknowledges expected reply
acknowledged_sound expected (line l) h = elim (Bool-cases (text_eq (trim l) expected)) [
  | inl e ↦ text_eq_sound (trim l) expected e
  | inr e ↦ cc (rw e at h)
]
acknowledged_sound expected connect_failed h = cc
acknowledged_sound expected timeout_failed h = cc
acknowledged_sound expected write_failed h = cc
acknowledged_sound expected flush_failed h = cc
acknowledged_sound expected read_failed h = cc

pub written-Acknowledges :
    (expected msg : Text) (reply : Reply)
    → Acknowledges expected reply
    → written msg reply ≡ sent msg ∷ []
written-Acknowledges expected msg (line l) h = refl
written-Acknowledges expected msg connect_failed h = absurd h
written-Acknowledges expected msg timeout_failed h = absurd h
written-Acknowledges expected msg write_failed h = absurd h
written-Acknowledges expected msg flush_failed h = absurd h
written-Acknowledges expected msg read_failed h = absurd h

abbrev count_of : Result ShrinkMetrics RealError → ℕ
count_of (ok m) = m.active_rank_count
count_of (err e) = 0

pub nccl_check_sound : (rc : ℕ) {u : Unit {0}} → nccl_check rc ≡ ok u → rc ≡ 0
nccl_check_sound rc h = ground arith

module _ (b : NcclReal) (w : World) (req : ShrinkRequest) where
  abbrev excluded : ℕ
  excluded = as_u32 (length req.exclude_ranks)

  abbrev outcome : Outcome
  outcome = shrink b w req

  shrink_done :
      {u v u' : Unit {0}}
      → leb b.active_ranks excluded ≡ false
      → acknowledged (codes "SAFE_POINT_ACK") w.safe_point ≡ ok u
      → w.panics ≡ false
      → nccl_check w.status ≡ ok v
      → acknowledged (codes "RESUMED") w.resume ≡ ok u'
      → outcome ≡ (
        ok (record {
          success = true;
          duration_ns = w.elapsed_ns % 2 ^ 64;
          active_rank_count = b.active_ranks - excluded;
          error = no_error;
        }),
        record b { active_ranks = b.active_ranks - excluded },
        sent (safe_point_request req.exclude_ranks)
            ∷ comm_split b.comm_ptr w.new_comm
            ∷ sent resume_request
            ∷ [],
      )
  unfolding shrink quiesce_phase split_phase resume_phase
  shrink_done left acked calm done resumed =
      let first =
        written-Acknowledges (codes "SAFE_POINT_ACK") (safe_point_request req.exclude_ranks)
          w.safe_point (acknowledged_sound (codes "SAFE_POINT_ACK") w.safe_point acked) in
      let second =
        written-Acknowledges (codes "RESUMED") resume_request w.resume
          (acknowledged_sound (codes "RESUMED") w.resume resumed) in
      rw (
        shrink, left, quiesce_phase, acked, split_phase, calm, done, resume_phase, resumed, first,
        second,
      )

  -- A shrink of a live communicator that succeeds had each answer it needs: the hook reached its
  -- safe point, NCCL split the communicator, and the hook resumed. It sent the two messages with
  -- the split between them, took the excluded ranks away and left one at least.
  pub live_shrink_success :
      (m : ShrinkMetrics)
      → (shrink b w req).0 ≡ ok m
      → m.success ≡ true
      → let (r, b', actions) = shrink b w req in
        Acknowledges (codes "SAFE_POINT_ACK") w.safe_point
        × (w.status ≡ 0)
        × Acknowledges (codes "RESUMED") w.resume
        × (actions
            ≡ sent (safe_point_request req.exclude_ranks)
              ∷ comm_split b.comm_ptr w.new_comm
              ∷ sent resume_request
              ∷ [])
        × (b'.active_ranks + as_u32 (length req.exclude_ranks) ≡ b.active_ranks)
        × (1 ≤ b'.active_ranks)
        × (m.active_rank_count ≡ b'.active_ranks)
        × (b'.comm_ptr ≡ b.comm_ptr)
  unfolding shrink quiesce_phase split_phase resume_phase
  live_shrink_success m h win = elim (Bool-cases (leb b.active_ranks excluded)) [
    | inl all ↦ let refused = rw (shrink, all) at h in cc
    | inr left ↦ elim (Result-cases (acknowledged (codes "SAFE_POINT_ACK") w.safe_point)) [
      | inr (e, bad) ↦ cc (rw (shrink, left, quiesce_phase, bad) at h)
      | inl (u, acked) ↦ elim (Bool-cases w.panics) [
        | inl p ↦ cc (rw (shrink, left, quiesce_phase, acked, split_phase, p) at h)
        | inr calm ↦ elim (Result-cases (nccl_check w.status)) [
          | inr (e, bad) ↦ cc (rw (shrink, left, quiesce_phase, acked, split_phase, calm, bad) at h)
          | inl (v, done) ↦ elim (Result-cases (acknowledged (codes "RESUMED") w.resume)) [
            | inr (e, bad) ↦ cc (
                rw (shrink, left, quiesce_phase, acked, split_phase, calm, done, resume_phase, bad)
                  at h)
            | inl (u', resumed) ↦
                let run = shrink_done left acked calm done resumed in
                let shrunk = ap (λ o. o.1.active_ranks) run in
                let metrics = sym h ∙ ap (λ o. o.0) run in
                let kept : b.active_ranks - excluded + excluded ≡ b.active_ranks = ground arith in
                (
                  acknowledged_sound (codes "SAFE_POINT_ACK") w.safe_point acked,
                  nccl_check_sound w.status done,
                  acknowledged_sound (codes "RESUMED") w.resume resumed,
                  ap (λ o. o.2) run,
                  ap (λ n. n + excluded) shrunk ∙ kept,
                  subst (λ n. 1 ≤ n) (sym shrunk) (ground arith),
                  ap count_of metrics ∙ sym shrunk,
                  ap (λ o. o.1.comm_ptr) run,
                )
          ]
        ]
      ]
    ]
  ]
