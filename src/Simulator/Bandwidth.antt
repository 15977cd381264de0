-- ===== src/Simulator/Bandwidth.antt =====
-- sim/crates/nemesis-sim/src/bandwidth.rs: the time of a ring all-reduce over a link, and what it
-- leaves of a cluster's utilization. The operations of `f64` are parameters; `D` is its type.
pub mod Faster
pub mod Exact
mod Tests
use nemesis.Prelude.{ℕ, ◌-◌, ◌^◌}
use nemesis.Nccl.Sim.{sub_u32}

pub record Doubles (D : Type 0) : Type 0 where
  -- `as f64` of an integer, and a literal without a fraction
  pub of_nat : ℕ → D
  pub plus : D → D → D
  pub times : D → D → D
  pub over : D → D → D
  -- `as u64`
  pub as_u64 : D → ℕ

pub record BandwidthModel (D : Type 0) : Type 0 where
  pub nvlink_a100_gbps : D
  pub pcie_gen4_gbps : D
  pub ib_hdr_1hop_gbps : D
  pub ib_hdr_2hop_gbps : D

module _ {D : Type 0} (f : Doubles D) where
  open f use {of_nat, plus, times, over, as_u64}

  abbrev pub default_model : BandwidthModel D
  default_model = record {
    nvlink_a100_gbps = of_nat 600;
    pcie_gen4_gbps = of_nat 64;
    ib_hdr_1hop_gbps = of_nat 200;
    ib_hdr_2hop_gbps = of_nat 160;
  }

  -- `n_gpus - 1` wraps at 0 in a release build. The model itself is not read.
  unfoldable pub all_reduce_ns : ℕ → ℕ → D → ℕ
  all_reduce_ns bytes n_gpus bw_gbps =
      let bw_bytes_per_ns = over bw_gbps (of_nat 8) in
      let alpha = over (times (of_nat 2) (of_nat (sub_u32 n_gpus 1))) (of_nat n_gpus) in
      as_u64 (over (times alpha (of_nat bytes)) bw_bytes_per_ns)

  unfoldable pub effective_mfu : D → D → ℕ → ℕ → D → D
  unfolding all_reduce_ns
  effective_mfu compute_flops peak_tflops gradient_bytes n_gpus bw_gbps =
      let compute_ns =
        times (over compute_flops (times peak_tflops (of_nat (10 ^ 12)))) (of_nat (10 ^ 9)) in
      let comms_ns = of_nat (all_reduce_ns gradient_bytes n_gpus bw_gbps) in
      over compute_ns (plus compute_ns comms_ns)
