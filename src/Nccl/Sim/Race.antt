-- ===== src/Nccl/Sim/Race.antt =====
-- Calls of `shrink` and `expand` in flight together. A shrink takes the mutex three times: it checks,
-- it samples a duration, and behind the sleep it subtracts; an expand takes it twice, to sample and
-- to add. Other calls may run between.
use nemesis.Prelude.{ℕ, ◌+◌, ◌^◌, ◌≤◌, ◌<◌, true, List, [], ◌∷◌, ◌≡◌, refl, some, none, arith}
use nemesis.Nccl.Backend.{ShrinkMetrics, ExpandMetrics}
use nemesis.Nccl.Sim.{
  SimState, u32_max, seeded_duration_ns, next_seed, shrink_check, shrink_commit, expand_commit,
  duration_of,
}

-- Where a call stands: the number of ranks that it excludes or admits, and the duration once
-- sampled. The last three are of an expand.
pub data Phase : Type 0 where
  waiting : ℕ → Phase
  checked : ℕ → Phase
  asleep : ℕ → ℕ → Phase
  finished : ShrinkMetrics → Phase
  admitting : ℕ → Phase
  admitted : ℕ → ℕ → Phase
  grown : ExpandMetrics → Phase

-- One use of the mutex.
unfoldable pub advance : SimState → Phase → SimState × Phase
advance s (waiting excluded) = elim (shrink_check s excluded) [
  | some early ↦ (s, finished early)
  | none ↦ (s, checked excluded)
]
advance s (checked excluded) =
    let (duration, s') = seeded_duration_ns s in (s', asleep excluded duration)
advance s (asleep excluded duration) =
    let (m, s') = shrink_commit s excluded duration in (s', finished m)
advance s (finished m) = (s, finished m)
advance s (admitting added) =
    let (duration, s') = seeded_duration_ns s in (s', admitted added duration)
advance s (admitted added duration) = let (m, s') = expand_commit s added duration in (s', grown m)
advance s (grown m) = (s, grown m)

-- Some call of the list makes its next step.
pub data Step (s : SimState) : List Phase → SimState → List Phase → Type 0 where
  here :
      {p q : Phase} {t : SimState} (ps : List Phase)
      → advance s p ≡ (t, q)
      → Step s (p ∷ ps) t (q ∷ ps)
  there :
      (p : Phase) {ps qs : List Phase} {t : SimState} → Step s ps t qs → Step s (p ∷ ps) t (p ∷ qs)

pub data Reach (s : SimState) (ps : List Phase) : SimState → List Phase → Type 0 where
  start : Reach s ps s ps
  later : {t u : SimState} {qs rs : List Phase} → Reach s ps t qs → Step t qs u rs → Reach s ps u rs

-- The ranks that a call has yet to take away.
abbrev pub owed : Phase → ℕ
owed (waiting e) = e
owed (checked e) = e
owed (asleep e d) = e
owed _ = 0

abbrev pub all_owed : List Phase → ℕ
all_owed [] = 0
all_owed (p ∷ ps) = owed p + all_owed ps

-- The ranks that a call has yet to admit.
abbrev pub granted : Phase → ℕ
granted (admitting n) = n
granted (admitted n d) = n
granted _ = 0

abbrev pub all_granted : List Phase → ℕ
all_granted [] = 0
all_granted (p ∷ ps) = granted p + all_granted ps

abbrev pub Succeeds : Phase → Type 0
Succeeds (finished m) = m.success ≡ true
Succeeds (grown m) = m.success ≡ true
Succeeds p = Unit

abbrev pub AllSucceed : List Phase → Type 0
AllSucceed [] = Unit
AllSucceed (p ∷ ps) = Succeeds p × AllSucceed ps

-- What a call takes or adds in a step is no longer owed or granted, and no subtraction wraps and no
-- sum is cut off, where `rest` ranks are owed and `more` are granted to other calls.
advance_lem :
    (s t : SimState) (p q : Phase) (rest more : ℕ)
    → owed p + rest < s.active_ranks
    → s.active_ranks + (granted p + more) ≤ u32_max
    → Succeeds p
    → advance s p ≡ (t, q)
    → (t.active_ranks + owed p + granted q ≡ s.active_ranks + owed q + granted p)
      × (owed q + rest < t.active_ranks)
      × (t.active_ranks + (granted q + more) ≤ u32_max)
      × Succeeds q
unfolding advance shrink_check seeded_duration_ns shrink_commit expand_commit
advance_lem s t (waiting e) q rest more room range fine h = ground arith
advance_lem s t (checked e) q rest more room range fine h = ground arith
advance_lem s t (asleep e d) q rest more room range fine h = ground arith
advance_lem s t (finished m) q rest more room range fine h = ground arith
advance_lem s t (admitting n) q rest more room range fine h = ground arith
advance_lem s t (admitted n d) q rest more room range fine h = ground arith
advance_lem s t (grown m) q rest more room range fine h = ground arith

Step_lem :
    {s t : SimState} {ps qs : List Phase} (rest more : ℕ)
    → Step s ps t qs
    → all_owed ps + rest < s.active_ranks
    → s.active_ranks + (all_granted ps + more) ≤ u32_max
    → AllSucceed ps
    → (t.active_ranks + all_owed ps + all_granted qs
        ≡ s.active_ranks + all_owed qs + all_granted ps)
      × (all_owed qs + rest < t.active_ranks)
      × (t.active_ranks + (all_granted qs + more) ≤ u32_max)
      × AllSucceed qs
Step_lem {s} {t} rest more (here {p} {q} ps e) room range fine =
    let (left, room', small, good) =
      advance_lem s t p q (all_owed ps + rest) (all_granted ps + more) (omega arith) (omega arith)
        fine.0 e in
    (omega arith, omega arith, omega arith, (good, fine.1))
Step_lem rest more (there p st) room range fine =
    let (left, room', small, good) =
      Step_lem (owed p + rest) (granted p + more) st (omega arith) (omega arith) fine.1 in
    (omega arith, omega arith, omega arith, (fine.0, good))

-- Calls of `shrink` and `expand` of which none is refused yet, whose shrinks together leave some
-- rank of the count, and whose expands together do not take the count past the greatest `u32`, may
-- interleave in any order: none is refused, no subtraction wraps and no sum is cut off, some rank
-- stays active, and the count always is what it was, less what the calls have taken so far, and with
-- what they have admitted.
pub interleaved_calls :
    {s : SimState} {ps : List Phase} {t : SimState} {qs : List Phase}
    → all_owed ps < s.active_ranks
    → s.active_ranks + all_granted ps ≤ u32_max
    → AllSucceed ps
    → Reach s ps t qs
    → (t.active_ranks + all_owed ps + all_granted qs
        ≡ s.active_ranks + all_owed qs + all_granted ps)
      × (all_owed qs < t.active_ranks)
      × (t.active_ranks + all_granted qs ≤ u32_max)
      × AllSucceed qs
interleaved_calls room range fine start = (refl, room, range, fine)
interleaved_calls room range fine (later r st) =
    let (left, room', range', fine') = interleaved_calls room range fine r in
    let (left', room'', small, good) = Step_lem 0 0 st (omega arith) (omega arith) fine' in
    (omega arith, omega arith, omega arith, good)

advance_waiting :
    (s : SimState) (e : ℕ) → e < s.active_ranks → advance s (waiting e) ≡ (s, checked e)
unfolding advance shrink_check
advance_waiting s e h = ground arith

-- On a count that is a `u32`, two calls that each leave a rank, but together take more ranks than
-- there are, can both pass the check before either
-- subtracts. Both then report success, and the count wraps below zero.
pub shrinks_race :
    (s : SimState) (a b : ℕ)
    → a < s.active_ranks
    → b < s.active_ranks
    → s.active_ranks < a + b
    → s.active_ranks ≤ u32_max
    → (t : SimState) × (m n : ShrinkMetrics) × Reach s
        (waiting a ∷ waiting b ∷ [])
        t
        (finished m ∷ finished n ∷ [])
      × (m.success ≡ true)
      × (n.success ≡ true)
      × (t.active_ranks + (a + b) ≡ s.active_ranks + 2 ^ 32)
unfolding advance seeded_duration_ns shrink_commit
shrinks_race s a b ha hb both range =
    let first =
      shrink_commit (record s { seed = next_seed (next_seed s.seed) }) a
        (duration_of (next_seed s.seed)) in
    let second = shrink_commit first.1 b (duration_of (next_seed (next_seed s.seed))) in
    let both_checked =
      later (later start (here _ (advance_waiting s a ha)))
        (there _ (here _ (advance_waiting s b hb))) in
    let both_asleep = later (later both_checked (here _ refl)) (there _ (here _ refl)) in
    (
      second.1,
      first.0,
      second.0,
      later (later both_asleep (here _ refl)) (there _ (here _ refl)),
      refl,
      refl,
      omega arith,
    )
