-- ===== src/Topology/Lexer/Whole.antt =====
-- A concrete instance of the parameters of the topology crate: bandwidths in whole GB/s, and the
-- letters of ASCII.
use nemesis.Prelude.{value, ℕ, some, leb}
use nemesis.Topology.RustStd.{RustStd, is_ascii_letter}

abbrev pub whole_std : RustStd ℕ
whole_std = record {
  parse_f32 = λ s. some (value 0 s);
  zero_f32 = 0;
  ge = λ a b. leb b a;
  is_alphabetic = is_ascii_letter;
}
