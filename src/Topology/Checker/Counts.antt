-- ===== src/Topology/Checker/Counts.antt =====
-- How many GPUs a specification takes, and that the code counts them.
use nemesis.Prelude.{ℕ, ◌*◌, ◌<◌, ◌%◌, ◌^◌, false, ◌≡◌, refl, sym, ◌∙◌, arith}
use nemesis.Topology.Syntax.{
  ParallelDim, TopologySpec, atom, conjunction, disjunction, Alts, nil, cons,
}
use nemesis.Topology.Parser.{gpu_count, first_gpu_count, overflows, first_overflows}

-- A product in a release build.
abbrev pub wrapping : ℕ → ℕ
wrapping n = n % 2 ^ 32

module _ {F : Type 0} where
  -- A specification takes `n` GPUs: the degree of an axis, the product of both arms, the GPUs of
  -- the first alternative. `u32_of` is what a `u32` makes of a product.
  unfoldable mutual
    pub Takes : (ℕ → ℕ) → TopologySpec F → ℕ → Type 0
    Takes u32_of (atom (ParallelDim.tp d) cs) n = d ≡ n
    Takes u32_of (atom (ParallelDim.pp d) cs) n = d ≡ n
    Takes u32_of (atom (ParallelDim.dp d) cs) n = d ≡ n
    Takes u32_of (conjunction l r) n =
        (a b : ℕ) × Takes u32_of l a × Takes u32_of r b × (u32_of (a * b) ≡ n)
    Takes u32_of (disjunction alts) n = FirstTakes u32_of alts n

    pub FirstTakes : (ℕ → ℕ) → Alts F → ℕ → Type 0
    FirstTakes u32_of nil n = 0 ≡ n
    FirstTakes u32_of (cons alt alts) n = Takes u32_of alt n

  mutual
    unfolding gpu_count Takes

    pub gpu_count-Takes : (spec : TopologySpec F) → Takes wrapping spec (gpu_count spec)
    gpu_count-Takes (atom (ParallelDim.tp d) cs) = refl
    gpu_count-Takes (atom (ParallelDim.pp d) cs) = refl
    gpu_count-Takes (atom (ParallelDim.dp d) cs) = refl
    gpu_count-Takes (conjunction l r) =
        (gpu_count l, gpu_count r, gpu_count-Takes l, gpu_count-Takes r, refl)
    gpu_count-Takes (disjunction alts) = first_gpu_count-Takes alts

    first_gpu_count-Takes : (alts : Alts F) → FirstTakes wrapping alts (first_gpu_count alts)
    first_gpu_count-Takes nil = refl
    first_gpu_count-Takes (cons alt alts) = gpu_count-Takes alt

  mutual
    unfolding overflows Takes gpu_count

    pub gpu_count-exact :
        (spec : TopologySpec F) → overflows spec ≡ false → Takes (λ n. n) spec (gpu_count spec)
    gpu_count-exact (atom (ParallelDim.tp d) cs) h = refl
    gpu_count-exact (atom (ParallelDim.pp d) cs) h = refl
    gpu_count-exact (atom (ParallelDim.dp d) cs) h = refl
    gpu_count-exact (conjunction l r) h =
        let left : overflows l ≡ false = ground arith in
        let right : overflows r ≡ false = ground arith in
        let fits : gpu_count l * gpu_count r < 2 ^ 32 = ground arith in
        (
          gpu_count l,
          gpu_count r,
          gpu_count-exact l left,
          gpu_count-exact r right,
          ground (arith, fits),
        )
    gpu_count-exact (disjunction alts) h = first_gpu_count-exact alts h

    first_gpu_count-exact :
        (alts : Alts F)
        → first_overflows alts ≡ false
        → FirstTakes (λ n. n) alts (first_gpu_count alts)
    first_gpu_count-exact nil h = refl
    first_gpu_count-exact (cons alt alts) h = gpu_count-exact alt h

  mutual
    unfolding Takes

    pub Takes-unique :
        (u : ℕ → ℕ) (spec : TopologySpec F) (m n : ℕ) → Takes u spec m → Takes u spec n → m ≡ n
    Takes-unique u (atom (ParallelDim.tp d) cs) m n h k = sym h ∙ k
    Takes-unique u (atom (ParallelDim.pp d) cs) m n h k = sym h ∙ k
    Takes-unique u (atom (ParallelDim.dp d) cs) m n h k = sym h ∙ k
    Takes-unique u (conjunction l r) m n (a, b, at_a, at_b, h) (c, d, at_c, at_d, k) =
        sym h ∙ rw (Takes-unique u l a c at_a at_c, Takes-unique u r b d at_b at_d) refl ∙ k
    Takes-unique u (disjunction alts) m n h k = FirstTakes-unique u alts m n h k

    FirstTakes-unique :
        (u : ℕ → ℕ) (alts : Alts F) (m n : ℕ) → FirstTakes u alts m → FirstTakes u alts n → m ≡ n
    FirstTakes-unique u nil m n h k = sym h ∙ k
    FirstTakes-unique u (cons alt alts) m n h k = Takes-unique u alt m n h k
