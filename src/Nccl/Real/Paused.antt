-- ===== src/Nccl/Real/Paused.antt =====
-- What a shrink of a live communicator leaves behind when it fails, and the handle that a later one
-- splits.
use nemesis.Prelude.{
  ℕ, ◌-◌, true, false, List, [], ◌∷◌, ◌++◌, ok, err, Result-cases, ◌≡◌, ◌≢◌, sym, ap, leb,
  Bool-cases, inl, inr, ◌⊎◌, length, codes, Text, text_eq, text_eq_refl, trim, subst, ◌∙◌,
  append-nil,
}
use nemesis.Nccl.Backend.{ShrinkRequest}
use nemesis.Nccl.Sim.{as_u32}
use nemesis.Nccl.Real.{
  Reply, connect_failed, timeout_failed, write_failed, flush_failed, read_failed, line, RealError,
  handshake_failed, resume_failed, split_failed, Action, sent, comm_split, NcclReal, World, Outcome,
  after, written, acknowledged, nccl_check, safe_point_request, resume_request, resume_phase,
  split_phase, quiesce_phase, shrink, task_panicked,
}
use nemesis.Nccl.Real.Phases.{
  Acknowledges, acknowledged_sound, written-Acknowledges, nccl_check_sound,
}

acknowledged_complete :
    (expected : Text) (reply : Reply) {e : RealError}
    → acknowledged expected reply ≡ err e
    → ¬ Acknowledges expected reply
acknowledged_complete expected (line l) bad good =
    let same : text_eq (trim l) expected ≡ true =
      ap (λ t. text_eq t expected) good ∙ text_eq_refl expected in
    cc (rw (same) at bad)
acknowledged_complete expected connect_failed bad good = good
acknowledged_complete expected timeout_failed bad good = good
acknowledged_complete expected write_failed bad good = good
acknowledged_complete expected flush_failed bad good = good
acknowledged_complete expected read_failed bad good = good

nccl_check_complete : (rc : ℕ) {e : RealError} → nccl_check rc ≡ err e → rc ≢ 0
nccl_check_complete rc bad zero_rc = let done = rw (zero_rc) at bad in cc

-- Of a call that fails: it never got to the safe point; or the safe point was reached and the split
-- failed; or the split was done and the resume failed.
pub data Failure (b : NcclReal) (w : World) (req : ShrinkRequest)
    : NcclReal → List Action → Type 0 where
  not_paused :
      ¬ Acknowledges (codes "SAFE_POINT_ACK") w.safe_point
      → Failure b w req b (written (safe_point_request req.exclude_ranks) w.safe_point)
  left_paused :
      Acknowledges (codes "SAFE_POINT_ACK") w.safe_point
      → (w.panics ≡ true) ⊎ (w.status ≢ 0)
      → Failure b w req b
          (sent (safe_point_request req.exclude_ranks) ∷ comm_split b.comm_ptr w.new_comm ∷ [])
  not_resumed :
      Acknowledges (codes "SAFE_POINT_ACK") w.safe_point
      → w.status ≡ 0
      → ¬ Acknowledges (codes "RESUMED") w.resume
      → Failure b w req
          (record b { active_ranks = b.active_ranks - as_u32 (length req.exclude_ranks) })
          (sent (safe_point_request req.exclude_ranks)
            ∷ comm_split b.comm_ptr w.new_comm
            ∷ written resume_request w.resume)

module _ (b : NcclReal) (w : World) (req : ShrinkRequest) where
  abbrev excluded : ℕ
  excluded = as_u32 (length req.exclude_ranks)

  abbrev FailsAs : Outcome → Type 0
  FailsAs (r, b', actions) = Failure b w req b' actions

  abbrev split_sent : List Action
  split_sent = sent (safe_point_request req.exclude_ranks) ∷ comm_split b.comm_ptr w.new_comm ∷ []

  abbrev first : List Action
  first = written (safe_point_request req.exclude_ranks) w.safe_point

  abbrev paused : Outcome
  paused =
      after (sent (safe_point_request req.exclude_ranks) ∷ [])
        (split_phase b w b.active_ranks excluded)

  shrink_to_split :
      {u : Unit {0}}
      → leb b.active_ranks excluded ≡ false
      → acknowledged (codes "SAFE_POINT_ACK") w.safe_point ≡ ok u
      → shrink b w req ≡ paused
  unfolding shrink quiesce_phase
  shrink_to_split left acked =
      let sound = acknowledged_sound (codes "SAFE_POINT_ACK") w.safe_point acked in
      let first_sent =
        written-Acknowledges (codes "SAFE_POINT_ACK") (safe_point_request req.exclude_ranks)
          w.safe_point sound in
      rw (shrink, left, quiesce_phase, acked, first_sent)

  split_phase_error :
      {u : Unit {0}} {e : RealError}
      → acknowledged (codes "SAFE_POINT_ACK") w.safe_point ≡ ok u
      → paused.0 ≡ err e
      → FailsAs paused
  unfolding split_phase resume_phase
  split_phase_error {e = e} acked h =
      let sound = acknowledged_sound (codes "SAFE_POINT_ACK") w.safe_point acked in
      elim (Bool-cases w.panics) [
        | inl p ↦
            let run : paused ≡ (err task_panicked, b, split_sent) = rw (split_phase, p) in
            subst FailsAs (sym run) (left_paused sound (inl p))
        | inr calm ↦ elim (Result-cases (nccl_check w.status)) [
          | inr (d, bad) ↦
              let run : paused ≡ (err (split_failed d), b, split_sent) =
                rw (split_phase, calm, bad) in
              subst FailsAs (sym run) (left_paused sound (inr (nccl_check_complete w.status bad)))
          | inl (v, done) ↦ elim (Result-cases (acknowledged (codes "RESUMED") w.resume)) [
            | inl (x, resumed) ↦ cc (rw (split_phase, calm, done, resume_phase, resumed) at h)
            | inr (d, bad) ↦
                let run : paused ≡ (
                  err (resume_failed d),
                  record b { active_ranks = b.active_ranks - excluded },
                  split_sent ++ written resume_request w.resume,
                ) =
                  rw (split_phase, calm, done, resume_phase, bad, append-nil) in
                subst FailsAs (sym run) (
                  not_resumed sound (nccl_check_sound w.status done)
                    (acknowledged_complete (codes "RESUMED") w.resume bad))
          ]
        ]
      ]

  -- A shrink of a live communicator that fails did so in one of three ways: the hook never said
  -- that it is at its safe point, and nothing was split; or it said so and NCCL or its task
  -- failed, and then no message tells the hook to go on; or the split was done and the hook did
  -- not confirm that it goes on, and then the excluded ranks are already taken away. In the first
  -- two the back end is unchanged.
  pub live_shrink_error :
      (e : RealError)
      → (shrink b w req).0 ≡ err e
      → Failure b w req (shrink b w req).1 (shrink b w req).2
  unfolding shrink quiesce_phase split_phase resume_phase
  live_shrink_error e h = elim (Bool-cases (leb b.active_ranks excluded)) [
    | inl all ↦ cc (rw (shrink, all) at h)
    | inr left ↦ elim (Result-cases (acknowledged (codes "SAFE_POINT_ACK") w.safe_point)) [
      | inr (d, bad) ↦
          let run : shrink b w req ≡ (err (handshake_failed d), b, first) =
            rw (shrink, left, quiesce_phase, bad, append-nil) in
          subst FailsAs (sym run)
            (not_paused (acknowledged_complete (codes "SAFE_POINT_ACK") w.safe_point bad))
      | inl (u, acked) ↦
          subst FailsAs (sym (shrink_to_split left acked))
            (split_phase_error {e = e} acked (sym (ap (λ o. o.0) (shrink_to_split left acked)) ∙ h))
    ]
  ]
