-- ===== src/Nccl/Sim/Signed.antt =====
-- The arithmetic on `i64` of substrate/crates/nemesis-nccl/src/sim.rs, where no result is out of
-- range.
use nemesis.Prelude.{ℕ, ◌+◌, ◌-◌, ◌%◌, ◌^◌, max, ltb, leb, if◌then◌else◌}

-- `negsuc n` is -(n + 1).
pub data I64 : Type 0 where
  pos negsuc : ℕ → I64

abbrev pub difference : ℕ → ℕ → I64
difference a b = if leb b a then pos (a - b) else negsuc (b - a - 1)

-- `as i64` of a `u64`: from 2^63 on the bits are those of a negative number.
abbrev pub as_i64 : ℕ → I64
as_i64 n = if ltb n (2 ^ 63) then pos n else negsuc (2 ^ 64 - 1 - n)

-- `%` by a positive number, with the sign of the first.
abbrev pub rem : I64 → ℕ → I64
rem (pos a) m = pos (a % m)
rem (negsuc a) m = difference 0 ((a + 1) % m)

abbrev pub plus : ℕ → I64 → I64
plus m (pos a) = pos (m + a)
plus m (negsuc a) = difference m (a + 1)

-- `max` with a number that is not negative.
abbrev pub at_least : ℕ → I64 → I64
at_least m (pos a) = pos (max a m)
at_least m (negsuc a) = pos m

abbrev pub as_u64 : I64 → ℕ
as_u64 (pos a) = a
as_u64 (negsuc a) = 2 ^ 64 - 1 - a
