-- ===== src/Topology/Solver/Limits.antt =====
-- Which bandwidth and which number of hops a list of constraints asks for.
use nemesis.Prelude.{◌-◌, ◌^◌, List, [], ◌∷◌, ◌++◌, ◌≡◌, refl, ap, ◌⊎◌, inl, inr, Mem}
use nemesis.Topology.Syntax.{Constraint}
use nemesis.Topology.Solver.{min_bandwidth, max_hops}

module _ {F A : Type 0} (make : A → Constraint F) where
  -- No constraint is made of some value by `make`.
  abbrev pub NoneMade : List (Constraint F) → Type 0
  NoneMade cs = (x : A) → ¬ Mem (make x) cs

  -- The first constraint that is made by `make` has the limit; where there is none, it is the
  -- default.
  abbrev pub Asks : A → List (Constraint F) → A → Type 0
  Asks default cs limit =
      ((before after : List (Constraint F)) × (cs ≡ before ++ make limit ∷ after) × NoneMade before)
      ⊎ ((limit ≡ default) × NoneMade cs)

  Asks-skip :
      (default limit : A) (c : Constraint F) (cs : List (Constraint F))
      → ((x : A) → ¬ (make x ≡ c))
      → Asks default cs limit
      → Asks default (c ∷ cs) limit
  Asks-skip default limit c cs other (inl (before, after, e, free)) = inl (
    c ∷ before,
    after,
    ap (λ l. c ∷ l) e,
    λ x m. elim m [ inl e' ↦ other x e' | inr m' ↦ free x m' ],
  )
  Asks-skip default limit c cs other (inr (e, free)) =
      inr (e, λ x m. elim m [ inl e' ↦ other x e' | inr m' ↦ free x m' ])

module _ {F : Type 0} where
  pub min_bandwidth-Asks :
      (default : F) (cs : List (Constraint F))
      → Asks Constraint.nvl_min default cs (min_bandwidth default cs)
  unfolding min_bandwidth
  min_bandwidth-Asks d [] = inr (refl, λ x m. m)
  min_bandwidth-Asks d (Constraint.nvl_min bw ∷ cs) = inl ([], cs, refl, λ x m. m)
  min_bandwidth-Asks d (Constraint.ib_max h ∷ cs) =
      Asks-skip Constraint.nvl_min d (min_bandwidth d cs) (Constraint.ib_max h) cs (λ x e. cc)
        (min_bandwidth-Asks d cs)
  min_bandwidth-Asks d (Constraint.numa ∷ cs) =
      Asks-skip Constraint.nvl_min d (min_bandwidth d cs) Constraint.numa cs (λ x e. cc)
        (min_bandwidth-Asks d cs)

  pub max_hops-Asks :
      (cs : List (Constraint F)) → Asks Constraint.ib_max (2 ^ 32 - 1) cs (max_hops cs)
  unfolding max_hops
  max_hops-Asks [] = inr (refl, λ x m. m)
  max_hops-Asks (Constraint.ib_max h ∷ cs) = inl ([], cs, refl, λ x m. m)
  max_hops-Asks (Constraint.nvl_min bw ∷ cs) =
      Asks-skip Constraint.ib_max (2 ^ 32 - 1) (max_hops cs) (Constraint.nvl_min bw) cs (λ x e. cc)
        (max_hops-Asks cs)
  max_hops-Asks (Constraint.numa ∷ cs) =
      Asks-skip Constraint.ib_max (2 ^ 32 - 1) (max_hops cs) Constraint.numa cs (λ x e. cc)
        (max_hops-Asks cs)
