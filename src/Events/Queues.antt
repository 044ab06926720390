-- ===== src/Events/Queues.antt =====
-- events/bus.py: what publishing does to one queue, and the bound on every queue.
use proto_trader.Prelude.{
  ℕ, zero, suc, ◌+◌, ◌-◌, ◌≤◌, ◌<◌, ◌≡◌, refl, ap, ◌∙◌, leb, inl, inr, List, [], ◌∷◌, ◌++◌, arith,
  length, drop, length-append, length-drop, Bool-cases,
}
use mathlib.Core.List.{append-nil, append_assoc}
use proto_trader.Events.{Payload, full, drop_oldest, put_nowait, offer}

module _ {D : Type 0} where
  -- The newest `n` elements.
  abbrev pub newest : ℕ → List (Payload D) → List (Payload D)
  newest n q = drop (length q - n) q

  -- Publishing the events one after the other.
  abbrev pub offer_all : ℕ → List (Payload D) → List (Payload D) → List (Payload D)
  offer_all max_queue [] q = q
  offer_all max_queue (p ∷ ps) q = offer_all max_queue ps (offer max_queue p q)

  drop-append_one :
      (n : ℕ) (q : List (Payload D)) (p : Payload D)
      → n ≤ length q
      → drop n (q ++ p ∷ []) ≡ drop n q ++ p ∷ []
  drop-append_one zero q p le = refl
  drop-append_one (suc n) [] p le = absurd (omega arith)
  drop-append_one (suc n) (x ∷ q) p le = drop-append_one n q p (omega arith)

  offer-eq-newest :
      (max_queue : ℕ) (p : Payload D) (q : List (Payload D))
      → 0 < max_queue
      → length q ≤ max_queue
      → offer max_queue p q ≡ newest max_queue (q ++ p ∷ [])
  unfolding offer full put_nowait drop_oldest
  offer-eq-newest max_queue p [] pos le =
      let room : 1 - max_queue ≡ 0 = omega arith in rw room (ground arith)
  offer-eq-newest max_queue p (x ∷ q) pos le = elim (Bool-cases (leb max_queue (length (x ∷ q)))) [
    | inl at_bound ↦
        let over : length (x ∷ q ++ p ∷ []) - max_queue ≡ 1 =
          ground (arith, at_bound, length-append q (p ∷ [])) in
        rw over (ground (arith, at_bound))
    | inr below ↦
        let room : length (x ∷ q ++ p ∷ []) - max_queue ≡ 0 =
          ground (arith, below, length-append q (p ∷ [])) in
        rw room (ground (arith, below))
  ]

  drop-append_drop :
      (j k : ℕ) (a b : List (Payload D))
      → k ≤ length a
      → drop j (drop k a ++ b) ≡ drop (j + k) (a ++ b)
  drop-append_drop j zero a b le = ap (λ (n : ℕ). drop n (a ++ b)) (omega arith)
  drop-append_drop j (suc k) [] b le = absurd (omega arith)
  drop-append_drop j (suc k) (x ∷ a) b le =
      drop-append_drop j k a b (omega arith)
      ∙ ap (λ (n : ℕ). drop n (x ∷ (a ++ b))) (let e : suc (j + k) ≡ j + suc k = omega arith in e)

  newest-append_newest :
      (n : ℕ) (a b : List (Payload D)) → newest n (newest n a ++ b) ≡ newest n (a ++ b)
  newest-append_newest n a b =
      drop-append_drop (length (newest n a ++ b) - n) (length a - n) a b (omega arith)
      ∙ ap (λ (k : ℕ). drop k (a ++ b))
          (omega
            (arith, length-append (newest n a) b, length-append a b, length-drop (length a - n) a))

  length-offer-le :
      (max_queue : ℕ) (p : Payload D) (q : List (Payload D))
      → 0 < max_queue
      → length q ≤ max_queue
      → length (offer max_queue p q) ≤ max_queue
  unfolding offer full put_nowait drop_oldest
  length-offer-le max_queue p [] pos le = ground arith
  length-offer-le max_queue p (x ∷ q) pos le = ground (arith, length-append q (p ∷ []))

  -- Publishing to a queue that nobody reads leaves the newest `max_queue` of what it held and what
  -- was published, in order: the oldest go first.
  pub offer_all-eq-newest :
      (max_queue : ℕ) (ps q : List (Payload D))
      → 0 < max_queue
      → length q ≤ max_queue
      → offer_all max_queue ps q ≡ newest max_queue (q ++ ps)
  offer_all-eq-newest max_queue [] q pos le =
      let fits : length q - max_queue ≡ 0 = omega arith in rw (append-nil, fits)
  offer_all-eq-newest max_queue (p ∷ ps) q pos le =
      offer_all-eq-newest max_queue ps (offer max_queue p q) pos
        (length-offer-le max_queue p q pos le)
      ∙ rw (offer-eq-newest max_queue p q pos le)
          (newest-append_newest max_queue (q ++ p ∷ []) ps ∙ rw append_assoc refl)
