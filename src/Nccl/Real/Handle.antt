-- ===== src/Nccl/Real/Handle.antt =====
-- The handle that a sequence of shrinks splits: `self.comm_ptr`, which no call replaces by the
-- communicator that `ncclCommSplit` returned.
use nemesis.Prelude.{
  ◌∙◌, ℕ, ◌-◌, List, [], ◌∷◌, ◌++◌, Result-cases, ◌≡◌, refl, leb, Bool-cases, inl, inr, length,
  codes, All, All-append, Text, subst,
}
use nemesis.Nccl.Backend.{ShrinkRequest}
use nemesis.Nccl.Sim.{as_u32}
use nemesis.Nccl.Real.{
  Reply, connect_failed, timeout_failed, write_failed, flush_failed, read_failed, line, Action,
  sent, comm_split, NcclReal, World, Outcome, written, acknowledged, nccl_check, resume_phase,
  split_phase, quiesce_phase, shrink, safe_point_request, resume_request,
}

-- The shrinks of a back end in the order they are asked for, and all they do.
abbrev pub shrinks : NcclReal → List (World × ShrinkRequest) → NcclReal × List Action
shrinks b [] = (b, [])
shrinks b ((w, req) ∷ calls) =
    let (r, b', actions) = shrink b w req in
    let (b'', more) = shrinks b' calls in (b'', actions ++ more)

abbrev pub SplitsOnly : ℕ → Action → Type 0
SplitsOnly p (sent msg) = Unit {0}
SplitsOnly p (comm_split q new_comm) = q ≡ p

written-SplitsOnly : (p : ℕ) (msg : Text) (reply : Reply) → All (SplitsOnly p) (written msg reply)
written-SplitsOnly p msg connect_failed = tt
written-SplitsOnly p msg timeout_failed = tt
written-SplitsOnly p msg write_failed = tt
written-SplitsOnly p msg flush_failed = (tt, tt)
written-SplitsOnly p msg read_failed = (tt, tt)
written-SplitsOnly p msg (line l) = (tt, tt)

-- The back end still has its handle, and nothing else was split.
abbrev KeepsHandle : ℕ → Outcome → Type 0
KeepsHandle p (r, b, actions) = (b.comm_ptr ≡ p) × All (SplitsOnly p) actions

resume_phase-KeepsHandle : (b : NcclReal) (w : World) → KeepsHandle b.comm_ptr (resume_phase b w)
unfolding resume_phase
resume_phase-KeepsHandle b w =
    let told = written-SplitsOnly b.comm_ptr resume_request w.resume in
    let all = All-append _ (written resume_request w.resume) [] told tt in
    elim (Result-cases (acknowledged (codes "RESUMED") w.resume)) [
      | inl (u, good) ↦ rw (good) (refl, all)
      | inr (e, bad) ↦ rw (bad) (refl, all)
    ]

split_phase-KeepsHandle :
    (b : NcclReal) (w : World) (current excluded : ℕ)
    → KeepsHandle b.comm_ptr (split_phase b w current excluded)
unfolding split_phase
split_phase-KeepsHandle b w current excluded = elim (Bool-cases w.panics) [
  | inl p ↦ rw (p) (refl, (refl, tt))
  | inr calm ↦ elim (Result-cases (nccl_check w.status)) [
    | inl (u, done) ↦
        let left = record b { active_ranks = current - excluded } in
        let kept = resume_phase-KeepsHandle left w in rw (calm, done) (kept.0, (refl, kept.1))
    | inr (e, bad) ↦ rw (calm, bad) (refl, (refl, tt))
  ]
]

shrink-KeepsHandle :
    (b : NcclReal) (w : World) (req : ShrinkRequest) → KeepsHandle b.comm_ptr (shrink b w req)
unfolding shrink quiesce_phase
shrink-KeepsHandle b w req =
    let asked = safe_point_request req.exclude_ranks in
    let excluded = as_u32 (length req.exclude_ranks) in
    let told = written-SplitsOnly b.comm_ptr asked w.safe_point in
    let kept = split_phase-KeepsHandle b w b.active_ranks excluded in
    elim (Bool-cases (leb b.active_ranks excluded)) [
      | inl all ↦ rw (all) (refl, tt)
      | inr left ↦ elim (Result-cases (acknowledged (codes "SAFE_POINT_ACK") w.safe_point)) [
        | inl (u, good) ↦
            rw (left, good) (kept.0, All-append _ (written asked w.safe_point) _ told kept.1)
        | inr (e, bad) ↦ rw (left, bad) (refl, All-append _ (written asked w.safe_point) [] told tt)
      ]
    ]

-- However many shrinks a back end is asked for and whatever answers them, other handles that the
-- splits return included, the only communicator that it splits is the one that it was made with,
-- whose handle it has in the end.
pub shrinks-SplitsOnly :
    (b : NcclReal) (calls : List (World × ShrinkRequest))
    → let (b', actions) = shrinks b calls in
      All (SplitsOnly b.comm_ptr) actions × (b'.comm_ptr ≡ b.comm_ptr)
shrinks-SplitsOnly b [] = (tt, refl)
shrinks-SplitsOnly b ((w, req) ∷ calls) =
    let kept = shrink-KeepsHandle b w req in
    let next = (shrink b w req).1 in
    let (rest, same) = shrinks-SplitsOnly next calls in
    (
      All-append _ (shrink b w req).2 (shrinks next calls).1 kept.1
          (subst (λ p. All (SplitsOnly p) (shrinks next calls).1) kept.0 rest),
      same ∙ kept.0,
    )
