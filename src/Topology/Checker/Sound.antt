-- ===== src/Topology/Checker/Sound.antt =====
-- The checker reports nothing exactly for the specifications that its four rules allow.
use nemesis.Prelude.{
  ℕ, ◌≤◌, ◌≡◌, ◌↔◌, arith, true, false, List, [], ◌∷◌, ◌++◌, ltb, if◌then◌else◌, Bool-cases, refl,
  ◌&&◌, sym, subst, inl, inr,
}
use nemesis.Topology.Syntax.{
  ParallelDim, Constraint, TopologySpec, atom, conjunction, disjunction, Alts, nil, cons,
}
use nemesis.Topology.Parser.{gpu_count, first_gpu_count}
use nemesis.Topology.Checker.{
  CheckError, bad_degree, some_differ, has_nvl, check_atom, counts, check, check_alts, type_check,
  check_overflows, some_overflows, not_power_of_two, exceeds_mesh, mismatched_counts,
}
use nemesis.Topology.Checker.Counts.{
  wrapping, Takes, Takes-unique, gpu_count-Takes, gpu_count-exact,
}
use nemesis.Topology.Checker.Power.{IsPowerOfTwo, bad_degree_iff}

append-eq-nil : (xs ys : List CheckError) → (xs ++ ys ≡ []) ↔ ((xs ≡ []) × (ys ≡ []))
append-eq-nil [] ys = (λ h. (refl, h), λ h. h.1)
append-eq-nil (x ∷ xs) ys = (λ h. cc, λ h. cc (h.0))

degree_errors_iff :
    (n : ℕ) → ((if bad_degree n then not_power_of_two n ∷ [] else []) ≡ []) ↔ (bad_degree n ≡ false)
degree_errors_iff n = (λ h. ground arith, λ h. rw h)

module _ {F : Type 0} where
  abbrev pub HasNvl : List (Constraint F) → Type 0
  HasNvl [] = ⊥
  HasNvl (Constraint.nvl_min bw ∷ cs) = Unit
  HasNvl (c ∷ cs) = HasNvl cs

  abbrev pub AllTake : (ℕ → ℕ) → ℕ → Alts F → Type 0
  AllTake u32_of n nil = Unit
  AllTake u32_of n (cons alt alts) = Takes u32_of alt n × AllTake u32_of n alts

  -- The rules of the checker's header: a tensor-parallel degree is a power of two, and at most 8
  -- under a bandwidth constraint; all alternatives take one number of GPUs.
  unfoldable mutual
    pub WellTyped : (ℕ → ℕ) → TopologySpec F → Type 0
    WellTyped u32_of (atom (ParallelDim.tp n) cs) = IsPowerOfTwo n × (HasNvl cs → n ≤ 8)
    WellTyped u32_of (atom (ParallelDim.pp n) cs) = Unit
    WellTyped u32_of (atom (ParallelDim.dp n) cs) = Unit
    WellTyped u32_of (conjunction l r) = WellTyped u32_of l × WellTyped u32_of r
    WellTyped u32_of (disjunction alts) =
        AllWellTyped u32_of alts × ((n : ℕ) × AllTake u32_of n alts)

    pub AllWellTyped : (ℕ → ℕ) → Alts F → Type 0
    AllWellTyped u32_of nil = Unit
    AllWellTyped u32_of (cons alt alts) = WellTyped u32_of alt × AllWellTyped u32_of alts

  abbrev AllCount : ℕ → Alts F → Type 0
  AllCount n nil = Unit
  AllCount n (cons alt alts) = (gpu_count alt ≡ n) × AllCount n alts

  has_nvl_iff : (cs : List (Constraint F)) → (has_nvl cs ≡ true) ↔ HasNvl cs
  unfolding has_nvl
  has_nvl_iff [] = (λ h. cc, λ h. absurd h)
  has_nvl_iff (Constraint.nvl_min bw ∷ cs) = (λ h. tt, λ h. refl)
  has_nvl_iff (Constraint.ib_max n ∷ cs) = has_nvl_iff cs
  has_nvl_iff (Constraint.numa ∷ cs) = has_nvl_iff cs

  mesh_errors_iff :
      (n : ℕ) (cs : List (Constraint F))
      → ((if has_nvl cs && ltb 8 n then exceeds_mesh n ∷ [] else []) ≡ []) ↔ (HasNvl cs → n ≤ 8)
  mesh_errors_iff n cs = elim (Bool-cases (has_nvl cs)) [
    | inl e ↦ (
      λ h nvl. elim (Bool-cases (ltb 8 n)) [
        | inl big ↦ cc (rw (e, big) at h)
        | inr small ↦ ground arith
      ],
      λ h. let fits = h ((has_nvl_iff cs).0 e) in ground arith,
    )
    | inr e ↦ (λ h nvl. cc ((has_nvl_iff cs).1 nvl), λ h. rw e)
  ]

  check_tp_iff :
      (n : ℕ) (cs : List (Constraint F))
      → (check_atom (ParallelDim.tp n) cs ≡ []) ↔ (IsPowerOfTwo n × (HasNvl cs → n ≤ 8))
  unfolding check_atom
  check_tp_iff n cs = (
    λ h.
        let (degree, mesh) = (append-eq-nil _ _).0 h in
        ((bad_degree_iff n).0 ((degree_errors_iff n).0 degree), (mesh_errors_iff n cs).0 mesh),
    λ (power, fits).
        (append-eq-nil _ _).1
          ((degree_errors_iff n).1 ((bad_degree_iff n).1 power), (mesh_errors_iff n cs).1 fits),
  )

  pub tp-WellTyped :
      (u32_of : ℕ → ℕ) (n : ℕ) (cs : List (Constraint F))
      → IsPowerOfTwo n
      → n ≤ 8
      → WellTyped u32_of (atom (ParallelDim.tp n) cs)
  unfolding WellTyped
  tp-WellTyped u32_of n cs power small = (power, λ nvl. small)

  some_differ_iff :
      (alts : Alts F) (n : ℕ) → (some_differ (n ∷ counts alts) ≡ false) ↔ AllCount n alts
  unfolding some_differ counts
  some_differ_iff nil n = (λ h. tt, λ h. refl)
  some_differ_iff (cons alt alts) n = (
    λ h.
        let same : n ≡ gpu_count alt = ground arith in
        let tail : some_differ (gpu_count alt ∷ counts alts) ≡ false = ground arith in
        let agree = (some_differ_iff alts (gpu_count alt)).0 tail in
        (sym same, subst (λ k. AllCount k alts) (sym same) agree),
    λ (e, h).
        let tail =
          (some_differ_iff alts (gpu_count alt)).1 (subst (λ k. AllCount k alts) (sym e) h) in
        ground (arith, e, tail),
  )

  counts_iff :
      (alts : Alts F)
      → ((if some_differ (counts alts) then mismatched_counts (counts alts) ∷ [] else []) ≡ [])
        ↔ AllCount (first_gpu_count alts) alts
  unfolding first_gpu_count
  counts_iff nil = (λ h. tt, λ h. unfold some_differ counts in refl)
  counts_iff (cons alt alts) = (
    λ h. (refl, (some_differ_iff alts (gpu_count alt)).0 (unfold counts in ground arith)),
    λ h.
        let agree : some_differ (counts (cons alt alts)) ≡ false =
          unfold counts in (some_differ_iff alts (gpu_count alt)).1 h.1 in
        rw agree,
  )

  -- Each alternative of a disjunction takes the GPUs that the code counts.
  unfoldable mutual
    Counted : (ℕ → ℕ) → TopologySpec F → Type 0
    Counted u32_of (atom dim cs) = Unit
    Counted u32_of (conjunction l r) = Counted u32_of l × Counted u32_of r
    Counted u32_of (disjunction alts) = AllCounted u32_of alts

    AllCounted : (ℕ → ℕ) → Alts F → Type 0
    AllCounted u32_of nil = Unit
    AllCounted u32_of (cons alt alts) =
        Counted u32_of alt × Takes u32_of alt (gpu_count alt) × AllCounted u32_of alts

  mutual
    unfolding Counted

    Counted-wrapping : (spec : TopologySpec F) → Counted wrapping spec
    Counted-wrapping (atom dim cs) = tt
    Counted-wrapping (conjunction l r) = (Counted-wrapping l, Counted-wrapping r)
    Counted-wrapping (disjunction alts) = AllCounted-wrapping alts

    AllCounted-wrapping : (alts : Alts F) → AllCounted wrapping alts
    AllCounted-wrapping nil = tt
    AllCounted-wrapping (cons alt alts) =
        (Counted-wrapping alt, gpu_count-Takes alt, AllCounted-wrapping alts)

  mutual
    unfolding Counted check_overflows

    Counted-exact : (spec : TopologySpec F) → check_overflows spec ≡ false → Counted (λ n. n) spec
    Counted-exact (atom dim cs) h = tt
    Counted-exact (conjunction l r) h =
        (Counted-exact l (ground arith), Counted-exact r (ground arith))
    Counted-exact (disjunction alts) h = AllCounted-exact alts h

    AllCounted-exact : (alts : Alts F) → some_overflows alts ≡ false → AllCounted (λ n. n) alts
    AllCounted-exact nil h = tt
    AllCounted-exact (cons alt alts) h = (
      Counted-exact alt (ground arith),
      gpu_count-exact alt (ground arith),
      AllCounted-exact alts (ground arith),
    )

  module _ (u32_of : ℕ → ℕ) where
    AllTake-AllCount :
        (n : ℕ) (alts : Alts F) → AllCounted u32_of alts → AllTake u32_of n alts → AllCount n alts
    unfolding Counted
    AllTake-AllCount n nil k h = tt
    AllTake-AllCount n (cons alt alts) (_, at, k) (h, hs) =
        (Takes-unique u32_of alt (gpu_count alt) n at h, AllTake-AllCount n alts k hs)

    AllCount-AllTake :
        (n : ℕ) (alts : Alts F) → AllCounted u32_of alts → AllCount n alts → AllTake u32_of n alts
    unfolding Counted
    AllCount-AllTake n nil k h = tt
    AllCount-AllTake n (cons alt alts) (_, at, k) (e, es) =
        (subst (Takes u32_of alt) e at, AllCount-AllTake n alts k es)

    first_count : (n : ℕ) (alts : Alts F) → AllCount n alts → AllCount (first_gpu_count alts) alts
    unfolding first_gpu_count
    first_count n nil h = tt
    first_count n (cons alt alts) (e, es) = (refl, subst (λ k. AllCount k alts) (sym e) es)

    agree_iff :
        (alts : Alts F)
        → AllCounted u32_of alts
        → ((if some_differ (counts alts) then mismatched_counts (counts alts) ∷ [] else []) ≡ [])
          ↔ ((n : ℕ) × AllTake u32_of n alts)
    agree_iff alts k = (
      λ h. (
        first_gpu_count alts,
        AllCount-AllTake (first_gpu_count alts) alts k ((counts_iff alts).0 h),
      ),
      λ (n, h). (counts_iff alts).1 (first_count n alts (AllTake-AllCount n alts k h)),
    )

    mutual
      unfolding check WellTyped Counted check_atom

      check_iff :
          (spec : TopologySpec F) → Counted u32_of spec → (check spec ≡ []) ↔ WellTyped u32_of spec
      check_iff (atom (ParallelDim.tp n) cs) k = check_tp_iff n cs
      check_iff (atom (ParallelDim.pp n) cs) k = (λ h. tt, λ h. refl)
      check_iff (atom (ParallelDim.dp n) cs) k = (λ h. tt, λ h. refl)
      check_iff (conjunction l r) (k, k') = (
        λ h.
            let (left, right) = (append-eq-nil (check l) (check r)).0 h in
            ((check_iff l k).0 left, (check_iff r k').0 right),
        λ (left, right).
            (append-eq-nil (check l) (check r)).1
              ((check_iff l k).1 left, (check_iff r k').1 right),
      )
      check_iff (disjunction alts) k = (
        λ h.
            let (each, agree) = (append-eq-nil (check_alts alts) _).0 h in
            ((check_alts_iff alts k).0 each, (agree_iff alts k).0 agree),
        λ (each, agree).
            (append-eq-nil (check_alts alts) _).1
              ((check_alts_iff alts k).1 each, (agree_iff alts k).1 agree),
      )

      check_alts_iff :
          (alts : Alts F)
          → AllCounted u32_of alts
          → (check_alts alts ≡ []) ↔ AllWellTyped u32_of alts
      check_alts_iff nil k = (λ h. tt, λ h. refl)
      check_alts_iff (cons alt alts) (k, at, k') = (
        λ h.
            let (first, rest) = (append-eq-nil (check alt) (check_alts alts)).0 h in
            ((check_iff alt k).0 first, (check_alts_iff alts k').0 rest),
        λ (first, rest).
            (append-eq-nil (check alt) (check_alts alts)).1
              ((check_iff alt k).1 first, (check_alts_iff alts k').1 rest),
      )

  -- In a release build the checker returns no error exactly for the specifications that are well
  -- typed with products that wrap around.
  pub type_check-wrapping :
      (spec : TopologySpec F) → (type_check spec ≡ []) ↔ WellTyped wrapping spec
  unfolding type_check
  type_check-wrapping spec = check_iff wrapping spec (Counted-wrapping spec)

  -- Where no product of degrees that the checker takes overflows a `u32`, it returns no error
  -- exactly for the well-typed specifications, in which all alternatives take one number of GPUs.
  pub type_check_iff :
      (spec : TopologySpec F)
      → check_overflows spec ≡ false
      → (type_check spec ≡ []) ↔ WellTyped (λ n. n) spec
  unfolding type_check
  type_check_iff spec calm = check_iff (λ n. n) spec (Counted-exact spec calm)
