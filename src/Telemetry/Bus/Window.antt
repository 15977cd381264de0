-- ===== src/Telemetry/Bus/Window.antt =====
-- What a subscriber that falls behind still gets.
use nemesis.Prelude.{
  ℕ, zero, suc, ◌+◌, ◌-◌, ◌≤◌, List, [], ◌∷◌, ◌++◌, ◌≡◌, refl, sym, ap, ◌∙◌, length, drop,
  drop_step, drop_all, arith, append_assoc, append-nil, length-append, max,
}
use nemesis.Telemetry.Ring.Refine.{last_n}
use nemesis.Telemetry.Service.{forward_events}
use nemesis.Telemetry.Bus.{
  Broadcast, BroadcastLaws, bus_capacity, new_bus, publish_event, subscribe_events, EventFilter,
  publish_all, polls,
}
use nemesis.Telemetry.Bus.Order.{waiting, next, behind, poll_cases}

module _ {A : Type 0} where
  drop_past : (m n : ℕ) (xs ys : List A) → m ≡ length xs + n → drop m (xs ++ ys) ≡ drop n ys
  drop_past m n [] ys h = ap (λ k. drop k ys) (omega arith)
  drop_past zero n (x ∷ xs) ys h = absurd (omega arith)
  drop_past (suc m) n (x ∷ xs) ys h = drop_past m n xs ys (omega arith)

module _ {E B R : Type 0} (lib : Broadcast E B R) (laws : BroadcastLaws lib) where
  open laws use {
    log, capacity, seen, log-channel, capacity-channel, log-send, capacity-send, log-subscribe,
    capacity-subscribe, seen-subscribe,
  }

  log-publish_all : (es : List E) (b : B) → log (publish_all lib b es) ≡ log b ++ es
  unfolding publish_all publish_event
  log-publish_all [] b = sym (append-nil (log b))
  log-publish_all (e ∷ es) b =
      log-publish_all es (lib.send b e)
      ∙ ap (λ xs. xs ++ es) (log-send b e)
      ∙ append_assoc (log b) (e ∷ []) es

  capacity-publish_all : (es : List E) (b : B) → capacity (publish_all lib b es) ≡ capacity b
  unfolding publish_all publish_event
  capacity-publish_all [] b = refl
  capacity-publish_all (e ∷ es) b = capacity-publish_all es (lib.send b e) ∙ capacity-send b e

  -- A receiver that is not too far behind gets all that waits.
  polls-near :
      (fuel : ℕ) (b : B) (r : R)
      → seen r ≤ length (log b)
      → length (log b) ≤ seen r + capacity b
      → length (log b) ≤ fuel + seen r
      → forward_events (polls lib fuel b r) ≡ drop (seen r) (log b)
  unfolding polls forward_events
  polls-near zero b r low near enough =
      let all : seen r ≡ length (log b) = omega arith in rw (all, drop_all (log b)) refl
  polls-near (suc k) b r low near enough = elim (poll_cases lib laws b r) [
    | waiting h a s ↦ rw a (
        polls-near k b (lib.recv b r).1 (omega arith) (omega arith) (omega arith)
        ∙ ap (λ n. drop n (log b)) s)
    | next e more near at a s ↦
        rw (a, drop_step (log b) (seen r) at)
          (ap (λ xs. e ∷ xs)
            (polls-near k b (lib.recv b r).1 (omega arith) (omega arith) (omega arith)
              ∙ ap (λ n. drop n (log b)) s))
    | behind n far a s ↦ absurd (omega arith)
  ]

  polls_lem :
      (fuel : ℕ) (b : B) (r : R)
      → seen r ≤ length (log b)
      → length (log b) ≤ fuel + seen r
      → forward_events (polls lib fuel b r)
        ≡ drop (max (seen r) (length (log b) - capacity b)) (log b)
  unfolding polls forward_events
  polls_lem zero b r low enough =
      polls-near zero b r low (omega arith) (omega arith) ∙ ap (λ n. drop n (log b)) (omega arith)
  polls_lem (suc k) b r low enough = elim (poll_cases lib laws b r) [
    | waiting h a s ↦
        polls-near (suc k) b r low (omega arith) (omega arith)
        ∙ ap (λ n. drop n (log b)) (omega arith)
    | next e more near at a s ↦
        polls-near (suc k) b r low near (omega arith) ∙ ap (λ n. drop n (log b)) (omega arith)
    | behind n far a s ↦ rw a (
        polls-near k b (lib.recv b r).1 (omega arith) (omega arith) (omega arith)
        ∙ ap (λ n. drop n (log b)) (omega arith))
  ]

  -- Behind a subscription to the store's bus, with whatever filter, any events are published, and the
  -- stream is then polled at least as often. It forwards exactly the last `capacity` of them, in
  -- order, of whatever kinds, and the capacity is at least the 1,024 of the source; what was
  -- published before is not forwarded.
  pub polls-subscribe :
      (before es : List E) (filter : EventFilter) (fuel : ℕ)
      → length es ≤ fuel
      → let (b, r) = subscribe_events lib (publish_all lib (new_bus lib) before) filter in
        (forward_events (polls lib fuel (publish_all lib b es) r) ≡ last_n (capacity b) es)
        × (bus_capacity ≤ capacity b)
  unfolding subscribe_events
  polls-subscribe before es filter fuel enough =
      let b0 = publish_all lib (new_bus lib) before in
      let (b, r) = lib.sender_subscribe b0 in
      let all = publish_all lib b es in
      let sent = log-publish_all es b in
      let size = ap length sent ∙ length-append (log b) es in
      let kept = capacity-publish_all es b in
      let seen_all : seen r ≡ length (log b) =
        seen-subscribe b0 ∙ sym (ap length (log-subscribe b0)) in
      let room = capacity-publish_all before (new_bus lib) in
      (
        polls_lem fuel all r (omega arith) (omega arith)
            ∙ ap (drop _) sent
            ∙ drop_past _ (length es - capacity b) (log b) es (omega arith),
        omega (arith, capacity-channel bus_capacity, capacity-subscribe b0),
      )
