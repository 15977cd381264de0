-- ===== src/Telemetry/Bus/Order.antt =====
-- A subscriber never sees an event twice or out of order, however the calls interleave.
use native.Mathlib.Decide.{dec_lt}
use nemesis.Prelude.{
  ℕ, zero, suc, ◌+◌, ◌-◌, ◌≤◌, List, [], ◌∷◌, ◌++◌, none, some, ◌≡◌, refl, sym, ap, ◌∙◌, length,
  get_elem?, get_elem?-total, drop, drop_all, length-append, subst, drop_step, Sub, keep, skip,
  Sub-nil, Sub-trans, arith, append_assoc, length-append, subst,
}
use nemesis.Telemetry.Service.{event, lagged, forward_events}
use nemesis.Telemetry.Bus.{
  Broadcast, BroadcastLaws, EventFilter, publish_event, subscribe_events, BusStep, published,
  polled, events_of, received,
}

module _ {A : Type 0} where
  pub drop-append : (n : ℕ) (xs ys : List A) → n ≤ length xs → drop n (xs ++ ys) ≡ drop n xs ++ ys
  drop-append zero xs ys h = refl
  drop-append (suc n) [] ys h = absurd (omega arith)
  drop-append (suc n) (x ∷ xs) ys h = drop-append n xs ys (omega arith)

  Sub-refl : (xs : List A) → Sub xs xs
  Sub-refl [] = Sub-nil []
  Sub-refl (x ∷ xs) = keep x (Sub-refl xs)

  Sub-append : (xs : List A) {ys zs : List A} → Sub ys zs → Sub ys (xs ++ zs)
  Sub-append [] s = s
  Sub-append (x ∷ xs) s = skip x (Sub-append xs s)

  Sub-drop : (n m : ℕ) (xs zs : List A) → n ≤ m → Sub (drop m xs ++ zs) (drop n xs ++ zs)
  Sub-drop zero zero xs zs h = Sub-refl (xs ++ zs)
  Sub-drop zero (suc m) [] zs h = Sub-refl zs
  Sub-drop zero (suc m) (x ∷ xs) zs h = skip x (Sub-drop zero m xs zs (omega arith))
  Sub-drop (suc n) zero xs zs h = absurd (omega arith)
  Sub-drop (suc n) (suc m) [] zs h = Sub-refl zs
  Sub-drop (suc n) (suc m) (x ∷ xs) zs h = Sub-drop n m xs zs (omega arith)

module _ {E B R : Type 0} (lib : Broadcast E B R) (laws : BroadcastLaws lib) where
  open laws use {
    log, capacity, seen, log-send, log-subscribe, seen-subscribe, recv-event, recv-lagged,
    recv-none,
  }

  -- What a poll of the stream does, in the three cases.
  pub data Poll : B → R → Type 0 where
    waiting :
        {b : B} {r : R}
        → length (log b) ≤ seen r
        → (lib.recv b r).0 ≡ none
        → seen (lib.recv b r).1 ≡ seen r
        → Poll b r
    next :
        {b : B} {r : R} (e : E)
        → suc (seen r) ≤ length (log b)
        → length (log b) ≤ seen r + capacity b
        → get_elem? (log b) (seen r) ≡ some e
        → (lib.recv b r).0 ≡ some (event e)
        → seen (lib.recv b r).1 ≡ suc (seen r)
        → Poll b r
    behind :
        {b : B} {r : R} (n : ℕ)
        → suc (seen r + capacity b) ≤ length (log b)
        → (lib.recv b r).0 ≡ some (lagged n)
        → seen (lib.recv b r).1 ≡ length (log b) - capacity b
        → Poll b r

  pub poll_cases : (b : B) (r : R) → Poll b r
  poll_cases b r = elim (dec_lt (seen r) (length (log b))) [
    | no h ↦ let (a, s) = recv-none b r (omega arith) in waiting (omega arith) a s
    | yes h ↦ elim (dec_lt (seen r + capacity b) (length (log b))) [
      | no near ↦
          let (e, at) = get_elem?-total (log b) (seen r) (omega arith) in
          let (a, s) = recv-event b r e (omega arith) at in
          next e (omega arith) (omega arith) at a s
      | yes far ↦ let (a, s) = recv-lagged b r (omega arith) in behind _ (omega arith) a s
    ]
  ]

  Sub-received :
      (steps : List (BusStep E)) (b : B) (r : R)
      → seen r ≤ length (log b)
      → Sub (forward_events (received lib b r steps)) (drop (seen r) (log b) ++ events_of steps)
  unfolding received forward_events publish_event
  Sub-received [] b r h = Sub-nil _
  Sub-received (published e ∷ steps) b r h =
      let rest =
        Sub-received steps (lib.send b e) r
          (omega (arith, ap length (log-send b e), length-append {0})) in
      let moved : drop (seen r) (log (lib.send b e)) ++ events_of steps
          ≡ drop (seen r) (log b) ++ (e ∷ events_of steps) =
        rw (log-send b e, drop-append (seen r) (log b) (e ∷ []) h, append_assoc) refl in
      subst (Sub _) moved rest
  Sub-received (polled ∷ steps) b r h = elim (poll_cases b r) [
    | waiting _ a s ↦
        let ih = Sub-received steps b (lib.recv b r).1 (omega arith) in rw a (rw s at ih)
    | next e more near at a s ↦
        let ih = Sub-received steps b (lib.recv b r).1 (omega arith) in
        rw (a, drop_step (log b) (seen r) at) (keep e (rw s at ih))
    | behind n far a s ↦
        let ih = Sub-received steps b (lib.recv b r).1 (omega arith) in
        rw a (
          Sub-trans
            (Sub-drop (seen r) (length (log b) - capacity b) (log b) (events_of steps)
              (omega arith))
            (rw s at ih))
  ]

  -- Whatever publishes and polls follow a subscription with whatever filter, in any order, the events that the stream
  -- forwards are among those published behind the subscription, each at most as often as it was
  -- published, and in that order.
  pub received-Sub :
      (b : B) (filter : EventFilter) (steps : List (BusStep E))
      → let (b', r) = subscribe_events lib b filter in
        Sub (forward_events (received lib b' r steps)) (events_of steps)
  unfolding subscribe_events
  received-Sub b filter steps =
      let (b', r) = lib.sender_subscribe b in
      let whole = ap length (log-subscribe b) in
      let start : drop (seen r) (log b') ≡ [] =
        ap (λ n. drop n (log b')) (seen-subscribe b ∙ sym whole) ∙ drop_all (log b') in
      subst (λ xs. Sub (forward_events (received lib b' r steps)) (xs ++ events_of steps)) start
        (Sub-received steps b' r (omega (arith, seen-subscribe b, whole)))
