-- ===== src/Nccl/Contract/Shrunk.antt =====
-- What a playbook does to the ranks of any back end that keeps the promises of the trait.
use nemesis.Prelude.{
  ℕ, ◌-◌, ◌≤◌, List, [], ◌∷◌, Bool, true, false, Result, ok, err, sym, subst, arith, length, Text,
}
use nemesis.Nccl.Backend.{ShrinkRequest, ShrinkMetrics, NcclBackend, BackendError}
use nemesis.Nccl.Sim.{as_u32}
use nemesis.Nccl.Healer.{HealerService}
use nemesis.Nccl.Healer.Playbook.{Params, PlaybookDef, LoadError, execute_playbook}
use nemesis.Nccl.Healer.Playbook.Requests.{shrunk_by, shrink_requests, execute_playbook_lem}
use nemesis.Nccl.Contract.{Reports, ShrinkPromise, Promises}

reported_le :
    (before excluded after : ℕ) (success : Bool) (duration_ns count : ℕ) (e : BackendError)
    → Reports before (before - excluded) after success duration_ns count e
    → after ≤ before
reported_le before excluded after true duration_ns count e h = let same = h.2 in omega arith
reported_le before excluded after false duration_ns count e h = let same = h.1 in omega arith

promised_le :
    {X : Type 0} (excluded before after : ℕ) (answer : Result ShrinkMetrics X)
    → ShrinkPromise excluded before after answer
    → after ≤ before
promised_le excluded before after (ok m) h =
    reported_le before excluded after m.success m.duration_ns m.active_rank_count m.error h
promised_le excluded before after (err e) h = h

module _ {S X : Type 0} (b : NcclBackend S X) (ranks : S → ℕ) (Valid : S → Type 0)
    (p : Promises b ranks Valid) where
  shrunk_by_le :
      (s : S) (reqs : List ShrinkRequest)
      → Valid s
      → Valid (shrunk_by b s reqs) × (ranks (shrunk_by b s reqs) ≤ ranks s)
  shrunk_by_le s [] v = (v, omega arith)
  shrunk_by_le s (req ∷ reqs) v =
      let (answer, s') = b.shrink s req in
      let (v', rest) = shrunk_by_le s' reqs (p.shrink-Valid s req v) in
      let one =
        promised_le (as_u32 (length req.exclude_ranks)) (ranks s) (ranks s') answer
          (p.shrunk s req v) in
      (v', omega arith)

  -- Over a back end that keeps the promises of the trait, from a state that it may be in, a playbook
  -- leaves such a state, with a rank that is active and no more of them than before, whether or not
  -- it is loaded and whatever each of its steps is answered.
  pub execute_playbook_le :
      (show : X → Text) (s : HealerService S) (loaded : Result PlaybookDef LoadError)
      (parameters : Params) (elapsed_ns : ℕ)
      → Valid s.backend
      → let (result, s') = execute_playbook b show s loaded parameters elapsed_ns in
        Valid s'.backend × (1 ≤ ranks s'.backend) × (ranks s'.backend ≤ ranks s.backend)
  unfolding execute_playbook
  execute_playbook_le show s (err e) parameters elapsed_ns v =
      (v, p.some_active s.backend v, omega arith)
  execute_playbook_le show s (ok playbook) parameters elapsed_ns v =
      let reqs = shrink_requests s parameters playbook.steps in
      let moved = (execute_playbook_lem b show s playbook parameters elapsed_ns).2 in
      let (v', less) = shrunk_by_le s.backend reqs v in
      subst (λ t. Valid t × (1 ≤ ranks t) × (ranks t ≤ ranks s.backend)) (sym moved)
        (v', p.some_active (shrunk_by b s.backend reqs) v', less)
