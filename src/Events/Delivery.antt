-- ===== src/Events/Delivery.antt =====
-- events/bus.py: what one subscriber receives, whatever the other subscribers and the publishers do.
use mathlib.Core.List.Sublist
use mathlib.Core.List.{Sublist, append-nil, append_assoc, sublist-append_left, sublist-cons_self}
use proto_trader.Prelude.{
  ℕ, ◌+◌, ◌≤◌, ◌≡◌, ◌≢◌, ◌⊎◌, refl, ap, sym, ◌∙◌, inl, inr, Text, Option, none, some, List, [], ◌∷◌,
  ◌++◌, map, not, arith, ◌==◌, ==_iff, if◌then◌else◌, length, length-append, Bool-cases, keep, All,
}
use proto_trader.Events.{
  Payload, EventBus, full, drop_oldest, put_nowait, offer, payload_of, publish, subscribe,
  set_queue, queue_of, receive, receive_from, unsubscribe,
}

module _ {D : Type 0} (no_body : D) where
  pub data Op : Type 0 where
    publishing : Text → Option D → Op
    receiving leaving : ℕ → Op
    subscribing : Op

  unfoldable pub step : Op → EventBus D → EventBus D × Option (Payload D)
  step (publishing event body) bus = (publish no_body event body bus, none)
  step (receiving j) bus = receive j bus
  step (leaving j) bus = (unsubscribe j bus, none)
  step subscribing bus = ((subscribe bus).0, none)

  -- What the operation yields to subscriber `i`.
  abbrev pub yielded : ℕ → Op → Option (Payload D) → List (Payload D)
  yielded i (receiving j) (some p) = if j == i then p ∷ [] else []
  yielded i op got = []

  abbrev pub published : Op → List (Payload D)
  published (publishing event body) = payload_of no_body event body ∷ []
  published op = []

  abbrev pub all_published : List Op → List (Payload D)
  all_published [] = []
  all_published (op ∷ ops) = published op ++ all_published ops

  -- The bus after the operations, and what they yield to subscriber `i`, in order.
  unfoldable pub run : ℕ → List Op → EventBus D → EventBus D × List (Payload D)
  run i [] bus = (bus, [])
  run i (op ∷ ops) bus =
      let (bus', got) = step op bus in
      let (final, later) = run i ops bus' in (final, yielded i op got ++ later)

  -- The operation does not take subscriber `i` off.
  abbrev pub Stays : ℕ → Op → Type 0
  Stays i (leaving j) = j ≢ i
  Stays i op = Unit

put_nowait-sublist :
    {D : Type 0} (max_queue : ℕ) (p : Payload D) (q : List (Payload D))
    → Sublist (put_nowait max_queue p q) (q ++ p ∷ [])
unfolding put_nowait
put_nowait-sublist max_queue p q = elim (Bool-cases (full max_queue q)) [
  | inl at_bound ↦ rw at_bound (sublist-append_left q (p ∷ []))
  | inr room ↦ rw room (Sublist.refl (q ++ p ∷ []))
]

drop_oldest-sublist : {D : Type 0} (q : List (Payload D)) → Sublist (drop_oldest q) q
unfolding drop_oldest
drop_oldest-sublist [] = Sublist.refl []
drop_oldest-sublist (p ∷ q) = sublist-cons_self p q

offer-sublist :
    {D : Type 0} (max_queue : ℕ) (p : Payload D) (q : List (Payload D))
    → Sublist (offer max_queue p q) (q ++ p ∷ [])
unfolding offer
offer-sublist max_queue p q = elim (Bool-cases (full max_queue q)) [
  | inl at_bound ↦ rw at_bound (
      Sublist.trans (put_nowait-sublist max_queue p (drop_oldest q))
        (Sublist.append (drop_oldest-sublist q) (Sublist.refl (p ∷ []))))
  | inr room ↦ rw room (put_nowait-sublist max_queue p q)
]

-- Nothing is lost below the bound.
offer_room :
    {D : Type 0} (max_queue : ℕ) (p : Payload D) (q : List (Payload D))
    → (max_queue ≡ 0) ⊎ (length q + 1 ≤ max_queue)
    → offer max_queue p q ≡ q ++ p ∷ []
unfolding offer put_nowait full
offer_room max_queue p q room = ground arith

queue_of-map :
    {D : Type 0} (i : ℕ) (f : List (Payload D) → List (Payload D)) (q : List (Payload D))
    (subs : List (ℕ × List (Payload D)))
    → queue_of i subs ≡ some q
    → queue_of i (map (λ (j, r). (j, f r)) subs) ≡ some (f q)
unfolding queue_of
queue_of-map i f q [] h = cc
queue_of-map i f q ((j, r) ∷ subs) h = ground (arith, queue_of-map i f q subs)

queue_of-append :
    {D : Type 0} (i : ℕ) (q : List (Payload D)) (subs more : List (ℕ × List (Payload D)))
    → queue_of i subs ≡ some q
    → queue_of i (subs ++ more) ≡ some q
unfolding queue_of
queue_of-append i q [] more h = cc
queue_of-append i q ((j, r) ∷ subs) more h = ground (arith, queue_of-append i q subs more)

queue_of-keep :
    {D : Type 0} (i j : ℕ) (q : List (Payload D)) (subs : List (ℕ × List (Payload D)))
    → j ≢ i
    → queue_of i subs ≡ some q
    → queue_of i (keep (λ (k, r). not (k == j)) subs) ≡ some q
unfolding queue_of
queue_of-keep i j q [] ne h = cc
queue_of-keep i j q ((k, r) ∷ subs) ne h = ground (arith, queue_of-keep i j q subs ne)

queue_of-set_queue :
    {D : Type 0} (i j : ℕ) (new q : List (Payload D)) (subs : List (ℕ × List (Payload D)))
    → queue_of i subs ≡ some q
    → queue_of i (set_queue j new subs) ≡ some (if j == i then new else q)
unfolding queue_of set_queue
queue_of-set_queue i j new q [] h = cc
queue_of-set_queue i j new q ((k, r) ∷ subs) h = ground (arith, queue_of-set_queue i j new q subs)

-- How a step changes what a subscriber has received and still holds: `held` and `held'` are the queue
-- before and after, `out` is what was yielded and `new` what was published.
record Moves {D : Type 0} (max_queue : ℕ) (held held' out new : List (Payload D)) : Type 0 where
  order : Sublist (out ++ held') (held ++ new)
  lossless : (max_queue ≡ 0) ⊎ (length held + length new ≤ max_queue) → out ++ held' ≡ held ++ new

module _ {D : Type 0} (no_body : D) (i : ℕ) where
  unmoved : (max_queue : ℕ) (q : List (Payload D)) → Moves max_queue q q [] []
  unmoved max_queue q = record {
    order = rw append-nil (Sublist.refl q);
    lossless = λ _. rw append-nil;
  }

  abbrev Stepped :
      Op no_body → EventBus D → EventBus D × Option (Payload D) → List (Payload D) → Type 0
  Stepped op bus (bus', got) q =
      (q' : List (Payload D)) × (queue_of i bus'.subscribers ≡ some q')
      × (bus'.max_queue ≡ bus.max_queue)
      × Moves bus.max_queue q q' (yielded no_body i op got) (published no_body op)

  receive_own :
      (max_queue : ℕ) (p : Payload D) (q r : List (Payload D))
      → q ≡ p ∷ r
      → Moves max_queue q r (p ∷ []) []
  receive_own max_queue p q r e =
      rw e record { order = rw append-nil (Sublist.refl (p ∷ r)); lossless = λ _. rw append-nil }

  receive_from_lem :
      (j : ℕ) (found : Option (List (Payload D))) (bus : EventBus D) (q : List (Payload D))
      → queue_of j bus.subscribers ≡ found
      → queue_of i bus.subscribers ≡ some q
      → Stepped (receiving j) bus (receive_from j found bus) q
  unfolding receive_from
  receive_from_lem j none bus q e held = (q, held, refl, unmoved bus.max_queue q)
  receive_from_lem j (some []) bus q e held = (q, held, refl, unmoved bus.max_queue q)
  receive_from_lem j (some (p ∷ r)) bus q e held = (
    (if j == i then r else q),
    queue_of-set_queue i j r q bus.subscribers held,
    refl,
    elim (Bool-cases (j == i)) [
      | inl own ↦ rw own (
          receive_own bus.max_queue p q r
            (cc (held, e, ap (λ (k : ℕ). queue_of k bus.subscribers) ((==_iff j i).0 own))))
      | inr other ↦ rw other (unmoved bus.max_queue q)
    ],
  )

  step_lem :
      (op : Op no_body) (bus : EventBus D) (q : List (Payload D))
      → queue_of i bus.subscribers ≡ some q
      → Stays no_body i op
      → Stepped op bus (step no_body op bus) q
  unfolding step publish unsubscribe subscribe receive
  step_lem (publishing event body) bus q held stays = (
    offer bus.max_queue (payload_of no_body event body) q,
    queue_of-map i (offer bus.max_queue (payload_of no_body event body)) q bus.subscribers held,
    refl,
    record {
      order = offer-sublist bus.max_queue (payload_of no_body event body) q;
      lossless = offer_room bus.max_queue (payload_of no_body event body) q;
    },
  )
  step_lem (receiving j) bus q held stays =
      receive_from_lem j (queue_of j bus.subscribers) bus q refl held
  step_lem (leaving j) bus q held stays =
      (q, queue_of-keep i j q bus.subscribers stays held, refl, unmoved bus.max_queue q)
  step_lem subscribing bus q held stays =
      (q, queue_of-append i q bus.subscribers _ held, refl, unmoved bus.max_queue q)

module _ {D : Type 0} (max_queue : ℕ) (q q' q'' out out' new new' : List (Payload D)) where
  regroup_left : (out ++ out') ++ q'' ≡ out ++ (out' ++ q'')
  regroup_left = append_assoc out out' q''

  regroup_right : out ++ q' ≡ q ++ new → out ++ (q' ++ new') ≡ q ++ (new ++ new')
  regroup_right e =
      sym (append_assoc out q' new')
      ∙ ap (λ (l : List (Payload D)). l ++ new') e
      ∙ append_assoc q new new'

  Moves-append :
      Moves max_queue q q' out new
      → Moves max_queue q' q'' out' new'
      → Moves max_queue q q'' (out ++ out') (new ++ new')
  Moves-append first second = record {
    order = rw regroup_left (
        Sublist.trans (Sublist.append (Sublist.refl out) second.order) (
          rw (← append_assoc out q' new', ← append_assoc q new new')
            (Sublist.append first.order (Sublist.refl new'))));
    lossless = λ room.
        let kept = first.lossless (omega (arith, length-append new new')) in
        regroup_left
        ∙ ap (λ (l : List (Payload D)). out ++ l)
            (second.lossless (
              omega (
                arith,
                length-append new new',
                ap length kept,
                length-append out q',
                length-append q new,
              )))
        ∙ regroup_right kept;
  }

module _ {D : Type 0} (no_body : D) (i : ℕ) where
  run_lem :
      (ops : List (Op no_body)) (bus : EventBus D) (q : List (Payload D))
      → queue_of i bus.subscribers ≡ some q
      → All (Stays no_body i) ops
      → (q' : List (Payload D)) × (queue_of i (run no_body i ops bus).0.subscribers ≡ some q')
        × Moves bus.max_queue q q' (run no_body i ops bus).1 (all_published no_body ops)
  unfolding run
  run_lem [] bus q held stay = (q, held, unmoved no_body i bus.max_queue q)
  run_lem (op ∷ ops) bus q held stay =
      let (q', held', bound, moves) = step_lem no_body i op bus q held stay.0 in
      let (q'', held'', moves') = run_lem ops (step no_body op bus).0 q' held' stay.1 in
      (q'', held'', Moves-append bus.max_queue q q' q'' _ _ _ _ moves (rw bound at moves'))

  -- While a subscriber stays subscribed, whatever the publishers and the other subscribers do, it
  -- still has a queue, and what it has received, followed by what waits in that queue, is a
  -- subsequence of what its queue held at first followed by what was published since: nothing is
  -- reordered, repeated or made up.
  pub run-sublist :
      (ops : List (Op no_body)) (bus : EventBus D) (q : List (Payload D))
      → queue_of i bus.subscribers ≡ some q
      → All (Stays no_body i) ops
      → (q' : List (Payload D)) × (queue_of i (run no_body i ops bus).0.subscribers ≡ some q')
        × Sublist ((run no_body i ops bus).1 ++ q') (q ++ all_published no_body ops)
  run-sublist ops bus q held stay =
      let (q', held', moves) = run_lem ops bus q held stay in (q', held', moves.order)

  -- If the queue is unbounded, or has room for all that it held and all that is published, the
  -- subscriber that stays gets every event: what it has received and what waits is exactly what its
  -- queue held and what was published.
  pub run_lossless :
      (ops : List (Op no_body)) (bus : EventBus D) (q : List (Payload D))
      → queue_of i bus.subscribers ≡ some q
      → All (Stays no_body i) ops
      → (bus.max_queue ≡ 0) ⊎ (length q + length (all_published no_body ops) ≤ bus.max_queue)
      → (q' : List (Payload D)) × (queue_of i (run no_body i ops bus).0.subscribers ≡ some q')
        × ((run no_body i ops bus).1 ++ q' ≡ q ++ all_published no_body ops)
  run_lossless ops bus q held stay room =
      let (q', held', moves) = run_lem ops bus q held stay in (q', held', moves.lossless room)
