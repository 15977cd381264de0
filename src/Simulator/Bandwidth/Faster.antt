-- ===== src/Simulator/Bandwidth/Faster.antt =====
-- A faster link never makes an all-reduce slower, nor the utilization worse.
use nemesis.Prelude.{ℕ, ◌-◌, ◌*◌, ◌^◌, ◌≤◌, ◌<◌, ◌≡◌, sym, ap, subst, arith, ◌∙◌}
use nemesis.Nccl.Sim.{sub_u32}
use nemesis.Simulator.Bandwidth.{Doubles, all_reduce_ns, effective_mfu}

-- What the standard of floating-point numbers and Rust's casts say of the operations. `Le` is `<=`,
-- which does not hold of a NaN; `Pos` and `NonNeg` are numbers above 0, and 0 or above, both finite.
pub record DoubleLaws {D : Type 0} (f : Doubles D) : Type 1 where
  pub Le : D → D → Type 0
  pub Pos : D → Type 0
  pub NonNeg : D → Type 0
  pub le_trans : (a b c : D) → Le a b → Le b c → Le a c
  pub of_nat_mono : (m n : ℕ) → m ≤ n → n ≤ 2 ^ 64 → Le (f.of_nat m) (f.of_nat n)
  pub of_nat_nonneg : (n : ℕ) → n ≤ 2 ^ 64 → NonNeg (f.of_nat n)
  -- A product is exact below 2^53.
  pub times_exact :
      (m n : ℕ) → m * n < 2 ^ 53 → f.times (f.of_nat m) (f.of_nat n) ≡ f.of_nat (m * n)
  pub times_nonneg :
      (a : D) (n : ℕ)
      → NonNeg a
      → Le a (f.of_nat (2 ^ 64))
      → n < 2 ^ 64
      → NonNeg (f.times a (f.of_nat n))
  pub over_nonneg : (a : D) (n : ℕ) → NonNeg a → 0 < n → n < 2 ^ 64 → NonNeg (f.over a (f.of_nat n))
  pub over_smaller : (a : D) (n : ℕ) → NonNeg a → 0 < n → n < 2 ^ 64 → Le (f.over a (f.of_nat n)) a
  pub over_mono : (a b c : D) → Pos c → Le a b → Le (f.over a c) (f.over b c)
  pub over_anti : (x a b : D) → NonNeg x → Pos a → Pos b → Le a b → Le (f.over x b) (f.over x a)
  pub over_at_most : (a b : D) → NonNeg a → Pos b → Le a b → Le (f.over a b) (f.of_nat 1)
  pub of_nat_pos : (n : ℕ) → 0 < n → n ≤ 2 ^ 64 → Pos (f.of_nat n)
  pub pos_nonneg : (a : D) → Pos a → NonNeg a
  pub plus_pos : (a : D) (n : ℕ) → Pos a → n < 2 ^ 64 → Pos (f.plus a (f.of_nat n))
  pub plus_larger : (a : D) (n : ℕ) → Pos a → n < 2 ^ 64 → Le a (f.plus a (f.of_nat n))
  pub plus_mono : (a b c : D) → Pos a → Le b c → Le (f.plus a b) (f.plus a c)
  pub as_u64_mono : (a b : D) → Le a b → f.as_u64 a ≤ f.as_u64 b
  pub as_u64_range : (a : D) → f.as_u64 a < 2 ^ 64

module _ {D : Type 0} (f : Doubles D) (laws : DoubleLaws f) where
  open f use {of_nat, plus, times, over, as_u64}
  open laws use {
    Le, Pos, NonNeg, le_trans, of_nat_mono, of_nat_nonneg, times_exact, times_nonneg, over_nonneg,
    over_smaller, over_mono, over_anti, over_at_most, of_nat_pos, pos_nonneg, plus_pos, plus_larger,
    plus_mono, as_u64_mono, as_u64_range,
  }

  -- The bytes that a GPU sends.
  abbrev sent : ℕ → ℕ → D
  sent bytes n = times (over (times (of_nat 2) (of_nat (sub_u32 n 1))) (of_nat n)) (of_nat bytes)

  sent-NonNeg : (bytes n : ℕ) → bytes < 2 ^ 64 → 0 < n → n < 2 ^ 32 → NonNeg (sent bytes n)
  sent-NonNeg bytes n small some_gpu few =
      let top = of_nat (2 * (n - 1)) in
      let less : sub_u32 n 1 ≡ n - 1 = omega arith in
      let double : times (of_nat 2) (of_nat (sub_u32 n 1)) ≡ top =
        ap (λ k. times (of_nat 2) (of_nat k)) less ∙ times_exact 2 (n - 1) (omega arith) in
      let share : NonNeg (over top (of_nat n)) =
        over_nonneg top n (of_nat_nonneg (2 * (n - 1)) (omega arith)) some_gpu (omega arith) in
      let bounded : Le (over top (of_nat n)) (of_nat (2 ^ 64)) =
        le_trans (over top (of_nat n)) top (of_nat (2 ^ 64))
          (over_smaller top n (of_nat_nonneg (2 * (n - 1)) (omega arith)) some_gpu (omega arith))
          (of_nat_mono (2 * (n - 1)) (2 ^ 64) (omega arith) (omega arith)) in
      subst (λ x. NonNeg (times (over x (of_nat n)) (of_nat bytes))) (sym double)
        (times_nonneg (over top (of_nat n)) bytes share bounded small)

  -- Between 1 and 2^32 - 1 GPUs, on a link that is not slower the all-reduce takes no longer.
  pub all_reduce_ns_faster :
      (bytes n : ℕ) (slow fast : D)
      → bytes < 2 ^ 64
      → 0 < n
      → n < 2 ^ 32
      → Pos (over slow (of_nat 8))
      → Pos (over fast (of_nat 8))
      → Le slow fast
      → all_reduce_ns f bytes n fast ≤ all_reduce_ns f bytes n slow
  unfolding all_reduce_ns
  all_reduce_ns_faster bytes n slow fast small some_gpu few pos pos' h = as_u64_mono _ _ (
      over_anti (sent bytes n) (over slow (of_nat 8)) (over fast (of_nat 8))
        (sent-NonNeg bytes n small some_gpu few) pos pos'
        (over_mono slow fast (of_nat 8) (of_nat_pos 8 (omega arith) (omega arith)) h))

  -- The time of the computation in a step.
  abbrev pub computing : D → D → D
  computing flops tflops = times (over flops (times tflops (of_nat (10 ^ 12)))) (of_nat (10 ^ 9))

  -- Let the operations of `f64` keep their laws, the GPUs number from 1 to 2^32 - 1, and the time of
  -- the computation and both bandwidths, divided by 8, be above 0 and finite. Then on a link that is
  -- not slower the utilization is not lower, and on either it is at most 1.
  pub effective_mfu_faster :
      (flops tflops : D) (bytes n : ℕ) (slow fast : D)
      → bytes < 2 ^ 64
      → 0 < n
      → n < 2 ^ 32
      → Pos (over slow (of_nat 8))
      → Pos (over fast (of_nat 8))
      → Pos (computing flops tflops)
      → Le slow fast
      → Le (effective_mfu f flops tflops bytes n slow) (effective_mfu f flops tflops bytes n fast)
        × Le (effective_mfu f flops tflops bytes n fast) (of_nat 1)
  unfolding effective_mfu
  effective_mfu_faster flops tflops bytes n slow fast small some_gpu few pos pos' busy h =
      let work = computing flops tflops in
      let comms = all_reduce_ns f bytes n slow in
      let comms' = all_reduce_ns f bytes n fast in
      let range : comms < 2 ^ 64 = unfold all_reduce_ns in as_u64_range _ in
      let range' : comms' < 2 ^ 64 = unfold all_reduce_ns in as_u64_range _ in
      let shorter = all_reduce_ns_faster bytes n slow fast small some_gpu few pos pos' h in
      let whole = plus_pos work comms busy range in
      let whole' = plus_pos work comms' busy range' in
      (
        over_anti work (plus work (of_nat comms')) (plus work (of_nat comms)) (pos_nonneg work busy)
            whole' whole
            (plus_mono work (of_nat comms') (of_nat comms) busy
              (of_nat_mono comms' comms shorter (omega arith))),
        over_at_most work (plus work (of_nat comms')) (pos_nonneg work busy) whole'
            (plus_larger work comms' busy range'),
      )
