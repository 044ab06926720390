-- ===== src/Events/Tests.antt =====
-- Runs of the event bus on small inputs.
use mathlib.Core.List.{Sublist}
use proto_trader.Prelude.{ℕ, ◌≡◌, refl, inr, codes, none, some, List, [], ◌∷◌, ◌++◌, arith}
use proto_trader.Events.{
  Payload, EventBus, full, drop_oldest, put_nowait, offer, payload_of, publish, subscribe,
  set_queue, queue_of, receive, unsubscribe,
}
use proto_trader.Events.Queues.{newest, offer_all, offer_all-eq-newest}
use proto_trader.Events.Delivery.{
  Op, publishing, receiving, leaving, subscribing, step, run, all_published, run-sublist,
  run_lossless,
}

abbrev event : ℕ → Payload ℕ
event n = record { event = codes "turn"; body = n }

abbrev bus_of : ℕ → EventBus ℕ
bus_of max_queue = record {
  subscribers = (0, event 1 ∷ []) ∷ (1, []) ∷ [];
  next_queue = 2;
  max_queue = max_queue;
}

abbrev ops : List (Op {D = ℕ} 0)
ops =
    publishing (codes "turn") (some 2)
    ∷ publishing (codes "turn") (some 3)
    ∷ receiving 0
    ∷ leaving 1
    ∷ subscribing
    ∷ publishing (codes "turn") none
    ∷ []

run_overflows : run 0 0 ops (bus_of 2) ≡ (
  record {
    subscribers = (0, event 3 ∷ event 0 ∷ []) ∷ (2, event 0 ∷ []) ∷ [];
    next_queue = 3;
    max_queue = 2;
  },
  event 2 ∷ [],
)
unfolding run step publish payload_of offer full put_nowait drop_oldest receive queue_of set_queue
    unsubscribe subscribe
run_overflows = refl

offer_all-eq-newest_example :
    offer_all 2 (event 2 ∷ event 3 ∷ []) (event 1 ∷ [])
    ≡ newest 2 (event 1 ∷ event 2 ∷ event 3 ∷ [])
offer_all-eq-newest_example =
    offer_all-eq-newest 2 (event 2 ∷ event 3 ∷ []) (event 1 ∷ []) (omega arith) (omega arith)

run-sublist_example :
    (q' : List (Payload ℕ)) × (queue_of 0 (run 0 0 ops (bus_of 2)).0.subscribers ≡ some q')
    × Sublist ((run 0 0 ops (bus_of 2)).1 ++ q') (event 1 ∷ all_published 0 ops)
unfolding queue_of
run-sublist_example = run-sublist 0 0 ops (bus_of 2) (event 1 ∷ []) refl (omega arith)

run_lossless_example :
    (q' : List (Payload ℕ)) × (queue_of 0 (run 0 0 ops (bus_of 9)).0.subscribers ≡ some q')
    × ((run 0 0 ops (bus_of 9)).1 ++ q' ≡ event 1 ∷ all_published 0 ops)
unfolding queue_of
run_lossless_example =
    run_lossless 0 0 ops (bus_of 9) (event 1 ∷ []) refl (omega arith) (inr (omega arith))
