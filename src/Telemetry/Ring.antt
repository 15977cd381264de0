-- ===== src/Telemetry/Ring.antt =====
-- substrate/crates/nemesis-telemetry/src/ring.rs: the circular buffer of samples. The code is
-- given for any number `W` of slots; the program's is `window_slots`. A `none` is the panic of an
-- index out of range.
pub mod Inv
pub mod Refine
mod Tests
use mathlib.Core.Option
use nemesis.Prelude.{
  ℕ, zero, suc, ◌+◌, ◌-◌, ◌%◌, min, Option, none, some, List, [], ◌∷◌, ltb, ◌==◌, get_elem?, set,
  length, replicate, if◌then◌else◌,
}

-- `WINDOW`
abbrev pub window_slots : ℕ
window_slots = 36_000

pub record MetricRing {ℓ} (A : Type ℓ) : Type ℓ where
  pub buf : List (Option A)
  pub head : ℕ
  pub len : ℕ

-- `filter_map` keeps what is there.
abbrev pub keep_some {ℓ} : {A : Type ℓ} → Option A → List A → List A
keep_some (some x) xs = x ∷ xs
keep_some none xs = xs

module _ {ℓ} {A : Type ℓ} (W : ℕ) where
  unfoldable pub new : MetricRing A
  new = record { buf = replicate W none; head = 0; len = 0 }

  -- `self.len` is below `W` where one is added, so the sum does not wrap.
  unfoldable pub push : MetricRing A → A → Option (MetricRing A)
  push r sample =
      if ltb r.head (length r.buf)
      then some (record {
        buf = set r.buf r.head (some sample);
        head = (r.head + 1) % W;
        len = if ltb r.len W then r.len + 1 else r.len;
      })
      else none

  -- The iterator over `0..take`: `n` slots from `from` on, each index modulo `W`.
  unfoldable pub collect : List (Option A) → ℕ → ℕ → Option (List A)
  collect buf from zero = some []
  collect buf from (suc n) = elim (get_elem? buf (from % W)) [
    | none ↦ none
    | some v ↦ Option.map (keep_some v) (collect buf (from + 1) n)
  ]

  unfoldable pub window : MetricRing A → ℕ → Option (List A)
  window r n =
      let take = min n r.len in
      let oldest = (r.head + W - r.len) % W in
      let skip = r.len - take in if take == 0 then some [] else collect r.buf (oldest + skip) take
