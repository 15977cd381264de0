-- ===== src/Topology/RustStd.antt =====
-- What the topology crate takes from Rust's library on `f32` and on Unicode. Both are parameters:
-- bandwidths are only parsed, copied and compared, and characters only classed.
use nemesis.Prelude.{ℕ, List, Bool, Option, leb, ◌&&◌, ◌||◌}

pub record RustStd (F : Type 0) : Type 0 where
  -- `str::parse::<f32>` on a run of ASCII digits
  pub parse_f32 : List ℕ → Option F
  -- `0.0_f32`
  pub zero_f32 : F
  -- `>=` on `f32`
  pub ge : F → F → Bool
  -- `char::is_alphabetic` on a code point
  pub is_alphabetic : ℕ → Bool

abbrev pub is_ascii_letter : ℕ → Bool
is_ascii_letter c = leb b'A' c && leb c b'Z' || leb b'a' c && leb c b'z'
