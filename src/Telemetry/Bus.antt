-- ===== src/Telemetry/Bus.antt =====
-- The bus of hardware events: `publish` and `subscribe` of
-- substrate/crates/nemesis-telemetry/src/store.rs, and `subscribe_events` and `publish_event` of
-- service.rs beside it. The broadcast channel of the crate tokio is a parameter: `B` is the type of
-- its senders, `R` of its receivers. No operation of the store touches both the bus and the rings.
pub mod Order
pub mod Window
pub mod Lists
mod Tests
use nemesis.Prelude.{
  ℕ, zero, suc, ◌+◌, ◌-◌, ◌≤◌, ◌<◌, List, [], ◌∷◌, ◌++◌, Option, none, some, ◌≡◌, length, get_elem?,
}
use nemesis.Telemetry.Service.{Received, event, lagged, forward_events}

pub record Broadcast (E B R : Type 0) : Type 0 where
  -- `broadcast::channel`, whose first receiver is dropped
  pub channel : ℕ → B
  -- `Sender::send`, whose result is ignored: it says whether a receiver is left
  pub send : B → E → B
  pub sender_subscribe : B → B × R
  -- one poll of a `BroadcastStream`; none where nothing waits
  pub recv : B → R → Option (Received E) × R

module _ {E B R : Type 0} (lib : Broadcast E B R) where
  open lib use {channel, send, sender_subscribe, recv}

  -- What the crate documents. `log` is all that was ever sent, with a receiver or without, and `seen`
  -- the place of a receiver in it.
  pub record BroadcastLaws : Type 0 where
    pub log : B → List E
    pub capacity : B → ℕ
    pub seen : R → ℕ
    pub log-channel : (n : ℕ) → log (channel n) ≡ []
    -- The capacity may be greater than the one that was asked for.
    pub capacity-channel : (n : ℕ) → n ≤ capacity (channel n)
    pub log-send : (b : B) (e : E) → log (send b e) ≡ log b ++ e ∷ []
    pub capacity-send : (b : B) (e : E) → capacity (send b e) ≡ capacity b
    pub log-subscribe : (b : B) → log (sender_subscribe b).0 ≡ log b
    pub capacity-subscribe : (b : B) → capacity (sender_subscribe b).0 ≡ capacity b
    -- A receiver sees what is sent behind its subscription.
    pub seen-subscribe : (b : B) → seen (sender_subscribe b).1 ≡ length (log b)
    -- In order, unless it is further behind than the capacity.
    pub recv-event :
        (b : B) (r : R) (e : E)
        → length (log b) ≤ seen r + capacity b
        → get_elem? (log b) (seen r) ≡ some e
        → ((recv b r).0 ≡ some (event e)) × (seen (recv b r).1 ≡ suc (seen r))
    -- Then it is told how many values it missed, and goes on at the oldest one that is kept.
    pub recv-lagged :
        (b : B) (r : R)
        → seen r + capacity b < length (log b)
        → ((recv b r).0 ≡ some (lagged (length (log b) - capacity b - seen r)))
          × (seen (recv b r).1 ≡ length (log b) - capacity b)
    pub recv-none :
        (b : B) (r : R)
        → length (log b) ≤ seen r
        → ((recv b r).0 ≡ none) × (seen (recv b r).1 ≡ seen r)

-- The kinds of events that a subscriber asks for.
abbrev pub EventFilter : Type 0
EventFilter = List ℕ

abbrev pub bus_capacity : ℕ
bus_capacity = 1_024

module _ {E B R : Type 0} (lib : Broadcast E B R) where
  open lib use {channel, send, sender_subscribe, recv}

  -- The bus of `TelemetryStore::new`.
  abbrev pub new_bus : B
  new_bus = channel bus_capacity

  unfoldable pub publish : B → E → B
  publish b e = send b e

  unfoldable pub subscribe : B → B × R
  subscribe b = sender_subscribe b

  -- `publish_event`, and `subscribe_events` up to the stream of the receiver, which
  -- `forward_events` makes. The filter of the request is not read.
  unfoldable pub publish_event : B → E → B
  unfolding publish
  publish_event b e = publish b e

  unfoldable pub subscribe_events : B → EventFilter → B × R
  unfolding subscribe
  subscribe_events b filter = subscribe b

  -- The calls of `publish_event`, one after another.
  unfoldable pub publish_all : B → List E → B
  unfolding publish_event
  publish_all b [] = b
  publish_all b (e ∷ es) = publish_all (publish_event b e) es

  abbrev pub cons_received : Option (Received E) → List (Received E) → List (Received E)
  cons_received none items = items
  cons_received (some i) items = i ∷ items

  -- What so many polls of the stream behind `subscribe_events` yield.
  unfoldable pub polls : ℕ → B → R → List (Received E)
  polls zero b r = []
  polls (suc k) b r = let (item, r') = recv b r in cons_received item (polls k b r')

-- What happens behind a subscription: an event is published, or the stream is polled.
pub data BusStep (E : Type 0) : Type 0 where
  published : E → BusStep E
  polled : BusStep E

-- The events that are published in a sequence of steps.
abbrev pub events_of : {E : Type 0} → List (BusStep E) → List E
events_of [] = []
events_of (published e ∷ steps) = e ∷ events_of steps
events_of (polled ∷ steps) = events_of steps

module _ {E B R : Type 0} (lib : Broadcast E B R) where
  -- What the polls among the steps yield.
  unfoldable pub received : B → R → List (BusStep E) → List (Received E)
  unfolding publish_event
  received b r [] = []
  received b r (published e ∷ steps) = received (publish_event lib b e) r steps
  received b r (polled ∷ steps) =
      let (item, r') = lib.recv b r in cons_received lib item (received b r' steps)
