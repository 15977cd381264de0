-- ===== src/Simulator/Bandwidth/Tests.antt =====
-- The two links that a test of bandwidth.rs compares.
use nemesis.Prelude.{◌^◌, ◌*◌, ◌≤◌, ◌≡◌, refl, arith}
use nemesis.Simulator.Bandwidth.{default_model, effective_mfu, all_reduce_ns}
use nemesis.Simulator.Bandwidth.Faster.{effective_mfu_faster}
use nemesis.Simulator.Bandwidth.Exact.{whole_numbers, whole_numbers-DoubleLaws}

-- Eight GPUs that exchange 8,000 bytes.
nvlink_test :
    all_reduce_ns whole_numbers 8_000 8 (default_model whole_numbers).nvlink_a100_gbps ≡ 106
unfolding all_reduce_ns
nvlink_test = refl

effective_mfu_faster_example :
    (effective_mfu whole_numbers (14 * 10 ^ 15) 100 (14 * 10 ^ 9) 8 64
      ≤ effective_mfu whole_numbers (14 * 10 ^ 15) 100 (14 * 10 ^ 9) 8 600)
    × (effective_mfu whole_numbers (14 * 10 ^ 15) 100 (14 * 10 ^ 9) 8 600 ≤ 1)
unfolding whole_numbers-DoubleLaws
effective_mfu_faster_example =
    effective_mfu_faster whole_numbers whole_numbers-DoubleLaws (14 * 10 ^ 15) 100 (14 * 10 ^ 9) 8
      64 600 (omega arith) (omega arith) (omega arith) (omega arith) (omega arith) (omega arith)
      (omega arith)
