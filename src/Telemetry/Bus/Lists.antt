-- ===== src/Telemetry/Bus/Lists.antt =====
-- A broadcast channel as a list of what was sent, which shows that the laws can hold.
use nemesis.Prelude.{
  ℕ, zero, suc, ◌+◌, ◌-◌, ◌≤◌, ◌<◌, ◌≡◌, refl, arith, List, [], ◌∷◌, ◌++◌, Option, none, some,
  if◌then◌else◌, ltb, length, get_elem?, arith,
}
use nemesis.Telemetry.Service.{Received, event, lagged}
use nemesis.Telemetry.Bus.{Broadcast, BroadcastLaws}

-- All that was sent, and the capacity.
abbrev pub ListBus : Type 0 → Type 0
ListBus E = List E × ℕ

own_size : (n : ℕ) → n ≤ n
own_size n = omega arith

module _ {E : Type 0} where
  abbrev next_event : Option E → ℕ → Option (Received E) × ℕ
  next_event none n = (none, n)
  next_event (some e) n = (some (event e), suc n)

  -- A receiver is its place.
  abbrev poll : ListBus E → ℕ → Option (Received E) × ℕ
  poll (sent, capacity) n =
      if ltb (n + capacity) (length sent)
      then (some (lagged (length sent - capacity - n)), length sent - capacity)
      else next_event (get_elem? sent n) n

  abbrev pub list_bus : Broadcast E (ListBus E) ℕ
  list_bus = record {
    channel = λ n. ([], n);
    send = λ b e. (b.0 ++ e ∷ [], b.1);
    sender_subscribe = λ b. (b, length b.0);
    recv = poll;
  }

  past_end : (xs : List E) (n : ℕ) → length xs ≤ n → get_elem? xs n ≡ none
  past_end [] n h = refl
  past_end (x ∷ xs) zero h = absurd (omega arith)
  past_end (x ∷ xs) (suc n) h = past_end xs n (omega arith)

  event_lem :
      (b : ListBus E) (n : ℕ) (e : E)
      → length b.0 ≤ n + b.1
      → get_elem? b.0 n ≡ some e
      → ((poll b n).0 ≡ some (event e)) × ((poll b n).1 ≡ suc n)
  event_lem (sent, c) n e near at = ground (arith, at)

  lagged_lem :
      (b : ListBus E) (n : ℕ)
      → n + b.1 < length b.0
      → ((poll b n).0 ≡ some (lagged (length b.0 - b.1 - n))) × ((poll b n).1 ≡ length b.0 - b.1)
  lagged_lem (sent, c) n far = ground arith

  none_lem : (b : ListBus E) (n : ℕ) → length b.0 ≤ n → ((poll b n).0 ≡ none) × ((poll b n).1 ≡ n)
  none_lem (sent, c) n h = ground (arith, past_end sent n h)

  pub list_bus-BroadcastLaws : BroadcastLaws list_bus
  list_bus-BroadcastLaws = record {
    log = λ b. b.0;
    capacity = λ b. b.1;
    seen = λ n. n;
    log-channel = λ n. refl;
    capacity-channel = own_size;
    log-send = λ b e. refl;
    capacity-send = λ b e. refl;
    log-subscribe = λ b. refl;
    capacity-subscribe = λ b. refl;
    seen-subscribe = λ b. refl;
    recv-event = event_lem;
    recv-lagged = lagged_lem;
    recv-none = none_lem;
  }
