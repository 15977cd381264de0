-- ===== src/Telemetry/Bus/Tests.antt =====
-- Events as numbers, over the channel as a list.
use nemesis.Prelude.{ℕ, ◌≤◌, List, [], ◌∷◌, ◌≡◌, refl, Sub, arith}
use nemesis.Telemetry.Ring.Refine.{last_n}
use nemesis.Telemetry.Service.{event, lagged, forward_events}
use nemesis.Telemetry.Bus.{
  bus_capacity, new_bus, publish_event, subscribe_events, publish_all, polls, BusStep, published,
  polled, events_of, received,
}
use nemesis.Telemetry.Bus.Lists.{ListBus, list_bus, list_bus-BroadcastLaws}
use nemesis.Telemetry.Bus.Order.{received-Sub}
use nemesis.Telemetry.Bus.Window.{polls-subscribe}

-- A channel of two values, and a subscriber that polls once, misses one event and polls again.
abbrev small : ListBus ℕ
small = (5 ∷ [], 2)

abbrev steps : List (BusStep ℕ)
steps =
    published 6 ∷ polled ∷ published 7 ∷ published 8 ∷ published 9 ∷ polled ∷ polled ∷ polled ∷ []

received_test : received list_bus small 1 steps ≡ event 6 ∷ lagged 1 ∷ event 8 ∷ event 9 ∷ []
unfolding received publish_event
received_test = refl

received-Sub_example :
    let (b, r) = subscribe_events list_bus small (0 ∷ []) in
    Sub (forward_events (received list_bus b r steps)) (events_of steps)
received-Sub_example = received-Sub list_bus list_bus-BroadcastLaws small (0 ∷ []) steps

abbrev old : List ℕ
old = 5 ∷ []

abbrev sent : List ℕ
sent = 6 ∷ 7 ∷ 8 ∷ []

polls-subscribe_example :
    let (b, r) = subscribe_events list_bus (publish_all list_bus (new_bus list_bus) old) (0 ∷ []) in
    (forward_events (polls list_bus 4 (publish_all list_bus b sent) r)
      ≡ last_n (list_bus-BroadcastLaws.capacity b) sent)
    × (bus_capacity ≤ list_bus-BroadcastLaws.capacity b)
polls-subscribe_example =
    polls-subscribe list_bus list_bus-BroadcastLaws old sent (0 ∷ []) 4 (omega arith)
