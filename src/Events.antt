-- ===== src/Events.antt =====
-- events/bus.py: the publish/subscribe bus with one bounded queue for each subscriber. A queue object
-- is known by a number, given out when it is made; a `max_queue` of zero or less is 0, unbounded.
pub mod Queues
pub mod Delivery
mod Tests
use proto_trader.Prelude.{
  ℕ, zero, suc, Text, Bool, ◌&&◌, Option, none, some, List, [], ◌∷◌, ◌++◌, ltb, leb, ◌==◌,
  if◌then◌else◌, length, keep, not, map,
}

-- `{"event": event, "data": data or {}}`; `D` is the type of event bodies.
pub record Payload (D : Type 0) : Type 0 where
  pub event : Text
  pub body : D

pub record EventBus (D : Type 0) : Type 0 where
  pub subscribers : List (ℕ × List (Payload D))
  pub next_queue : ℕ
  pub max_queue : ℕ

module _ {D : Type 0} where
  unfoldable pub init : ℕ → EventBus D
  init max_queue = record { subscribers = []; next_queue = 0; max_queue = max_queue }

  -- `q.full()`.
  unfoldable pub full : ℕ → List (Payload D) → Bool
  full max_queue q = ltb 0 max_queue && leb max_queue (length q)

  -- `q.get_nowait()` with its exception caught.
  unfoldable pub drop_oldest : List (Payload D) → List (Payload D)
  drop_oldest [] = []
  drop_oldest (p ∷ q) = q

  -- `q.put_nowait(payload)` with its exception caught.
  unfoldable pub put_nowait : ℕ → Payload D → List (Payload D) → List (Payload D)
  put_nowait max_queue p q = if full max_queue q then q else q ++ p ∷ []

  -- The body of the loop over the subscribers.
  unfoldable pub offer : ℕ → Payload D → List (Payload D) → List (Payload D)
  offer max_queue p q =
      let room = if full max_queue q then drop_oldest q else q in put_nowait max_queue p room

  unfoldable pub payload_of : D → Text → Option D → Payload D
  payload_of no_body event body = record {
    event = event;
    body = elim body [ none ↦ no_body | some b ↦ b ];
  }

  unfoldable pub publish : D → Text → Option D → EventBus D → EventBus D
  publish no_body event body bus = record bus {
    subscribers =
        map (λ (i, q). (i, offer bus.max_queue (payload_of no_body event body) q)) bus.subscribers;
  }

  -- The start of `subscribe`: a new empty queue, and its number.
  unfoldable pub subscribe : EventBus D → EventBus D × ℕ
  subscribe bus = (
    record bus {
      subscribers = bus.subscribers ++ (bus.next_queue, []) ∷ [];
      next_queue = suc bus.next_queue;
    },
    bus.next_queue,
  )

  unfoldable pub queue_of : ℕ → List (ℕ × List (Payload D)) → Option (List (Payload D))
  queue_of i [] = none
  queue_of i ((j, q) ∷ subs) = if j == i then some q else queue_of i subs

  unfoldable pub set_queue :
      ℕ → List (Payload D) → List (ℕ × List (Payload D)) → List (ℕ × List (Payload D))
  set_queue i q [] = []
  set_queue i q ((j, old) ∷ subs) = if j == i then (j, q) ∷ subs else (j, old) ∷ set_queue i q subs

  unfoldable pub receive_from :
      ℕ → Option (List (Payload D)) → EventBus D → EventBus D × Option (Payload D)
  receive_from i none bus = (bus, none)
  receive_from i (some []) bus = (bus, none)
  receive_from i (some (p ∷ q)) bus =
      (record bus { subscribers = set_queue i q bus.subscribers }, some p)

  -- `await q.get()` in the loop of `subscribe`: `none` while there is nothing to yield.
  unfoldable pub receive : ℕ → EventBus D → EventBus D × Option (Payload D)
  unfolding receive_from
  receive i bus = receive_from i (queue_of i bus.subscribers) bus

  -- The `finally` of `subscribe`: the consumer has gone.
  unfoldable pub unsubscribe : ℕ → EventBus D → EventBus D
  unsubscribe i bus = record bus { subscribers = keep (λ (j, q). not (j == i)) bus.subscribers }

  unfoldable pub subscriber_count : EventBus D → ℕ
  subscriber_count bus = length bus.subscribers
