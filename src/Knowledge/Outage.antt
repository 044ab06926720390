-- ===== src/Knowledge/Outage.antt =====
-- knowledge/hybrid_store.py: what an outage of the embedding function costs.
use proto_trader.Prelude.{
  ℕ, suc, ◌+◌, ◌-◌, ◌*◌, ◌≤◌, ◌≡◌, max, refl, sym, subst, ap, inl, inr, ◌⊎◌, Text, Bool, true,
  false, Option, none, List, [], ◌∷◌, leb, if◌then◌else◌, arith, Bool-cases,
}
use proto_trader.Knowledge.{Breaker, new_breaker, is_open, record_failure, embed, calls_of}

-- The arithmetic of a failed call that opens the breaker, and of one that leaves it closed.
opens :
    (cooldown open_until from now until rest credit : ℕ)
    → from ≤ now
    → now ≤ until
    → open_until ≤ now
    → (rest ≡ 0) ⊎ (cooldown * rest + max (now + cooldown) now ≤ cooldown * suc 0 + until)
    → cooldown * suc rest + max open_until from ≤ cooldown * suc credit + until
opens cooldown open_until from now until rest credit le last closed (inl nothing) =
    rw nothing (omega arith)
opens cooldown open_until from now until rest credit le last closed (inr fit) = omega arith

stays_closed :
    (cooldown open_until from now until rest credit : ℕ)
    → from ≤ now
    → now ≤ until
    → open_until ≤ now
    → (rest ≡ 0) ⊎ (cooldown * rest + max open_until now ≤ cooldown * suc credit + until)
    → cooldown * suc rest + max open_until from ≤ cooldown * suc (suc credit) + until
stays_closed cooldown open_until from now until rest credit le last closed (inl nothing) =
    rw nothing (omega arith)
stays_closed cooldown open_until from now until rest credit le last closed (inr fit) = omega arith

module _ {V : Type 0} (embed_fn : Text → ℕ → Option V) where
  -- Texts at times that never go back, from one time to another, at which the function always raises.
  abbrev pub IsOutage : ℕ → ℕ → List (Text × ℕ) → Type 0
  IsOutage from until [] = from ≤ until
  IsOutage from until ((text, now) ∷ texts) =
      (from ≤ now) × (embed_fn text now ≡ none) × IsOutage now until texts

  ends_later : (from until : ℕ) (texts : List (Text × ℕ)) → IsOutage from until texts → from ≤ until
  ends_later from until [] h = h
  ends_later from until ((text, now) ∷ texts) (le, e, h) =
      let k = ends_later now until texts h in omega arith

  embed_open :
      (text : Text) (now : ℕ) (b : Breaker)
      → is_open now b ≡ true
      → embed embed_fn text now b ≡ (b, none, false)
  unfolding embed
  embed_open text now b e = rw e refl

  embed_fails :
      (text : Text) (now : ℕ) (b : Breaker)
      → is_open now b ≡ false
      → embed_fn text now ≡ none
      → embed embed_fn text now b ≡ (record_failure now b, none, true)
  unfolding embed
  embed_fails text now b e f = rw (e, f) refl

  calls_step :
      (text : Text) (now : ℕ) (texts : List (Text × ℕ)) (b : Breaker)
      (r : Breaker × Option V × Bool)
      → embed embed_fn text now b ≡ r
      → calls_of embed_fn ((text, now) ∷ texts) b
        ≡ (if r.2 then suc (calls_of embed_fn texts r.0) else calls_of embed_fn texts r.0)
  unfolding calls_of
  calls_step text now texts b r e =
      ap
        (λ (q : Breaker × Option V × Bool).
          if q.2 then suc (calls_of embed_fn texts q.0) else calls_of embed_fn texts q.0)
        e

  -- No call is left, or those that are left fit into the time that is left.
  Fits : ℕ → ℕ → Breaker → ℕ → Type 0
  Fits from until b n =
      (n ≡ 0)
      ⊎ (b.cooldown * n + max b.open_until from
          ≤ b.cooldown * suc (b.threshold - suc b.failures) + until)

  calls_of-Fits :
      (from until : ℕ) (texts : List (Text × ℕ)) (b : Breaker)
      → IsOutage from until texts
      → Fits from until b (calls_of embed_fn texts b)
  unfolding calls_of Fits record_failure
  calls_of-Fits from until [] b h = inl refl
  calls_of-Fits from until ((text, now) ∷ texts) b (le, raises, h) =
      let last = ends_later now until texts h in
      elim (Bool-cases (is_open now b)) [
        | inl open_now ↦
            rw (calls_step text now texts b _ (embed_open text now b open_now))
              (elim (calls_of-Fits now until texts b h) [
                | inl nothing ↦ inl nothing
                | inr fit ↦ inr (ground (arith, fit, le, open_now))
              ])
        | inr closed ↦ rw (calls_step text now texts b _ (embed_fails text now b closed raises)) (
            inr (elim (Bool-cases (leb b.threshold (suc b.failures))) [
              | inl tripped ↦
                  let b' = record b { failures = suc b.failures; open_until = now + b.cooldown } in
                  let e : record_failure now b ≡ b' = rw tripped refl in
                  let none_left : b.threshold - suc (suc b.failures) ≡ 0 =
                    ground (arith, tripped) in
                  let rest = calls_of embed_fn texts b' in
                  subst
                    (λ (c : Breaker).
                      b.cooldown * suc (calls_of embed_fn texts c) + max b.open_until from
                      ≤ b.cooldown * suc (b.threshold - suc b.failures) + until)
                    (sym e)
                    (opens b.cooldown b.open_until from now until rest
                      (b.threshold - suc b.failures) le last (ground (arith, closed))
                      (subst
                        (λ k.
                          (rest ≡ 0)
                          ⊎ (b.cooldown * rest + max (now + b.cooldown) now
                              ≤ b.cooldown * suc k + until))
                        none_left (calls_of-Fits now until texts b' h)))
              | inr below ↦
                  let b' = record b { failures = suc b.failures } in
                  let e : record_failure now b ≡ b' = rw below refl in
                  let one_more : suc (b.threshold - suc (suc b.failures))
                      ≡ b.threshold - suc b.failures =
                    ground (arith, below) in
                  let rest = calls_of embed_fn texts b' in
                  subst
                    (λ (c : Breaker).
                      b.cooldown * suc (calls_of embed_fn texts c) + max b.open_until from
                      ≤ b.cooldown * suc (b.threshold - suc b.failures) + until)
                    (sym e)
                    (subst
                      (λ k.
                        b.cooldown * suc rest + max b.open_until from ≤ b.cooldown * suc k + until)
                      one_more
                      (stays_closed b.cooldown b.open_until from now until rest
                        (b.threshold - suc (suc b.failures)) le last (ground (arith, closed))
                        (calls_of-Fits now until texts b' h)))
            ]))
      ]

  -- While the function raises at every call, from one time to another, and texts come at times that never
  -- go back, the calls of a new store, each counted as a cooldown, are at most the time and
  -- `max 1 threshold` cooldowns: so many calls, and one more for each whole cooldown of the time.
  pub calls_of_outage :
      (threshold cooldown from until : ℕ) (texts : List (Text × ℕ))
      → IsOutage from until texts
      → cooldown * calls_of embed_fn texts (new_breaker threshold cooldown) + from
        ≤ cooldown * max 1 threshold + until
  unfolding new_breaker Fits
  calls_of_outage threshold cooldown from until texts h =
      let last = ends_later from until texts h in
      let n = calls_of embed_fn texts (new_breaker threshold cooldown) in
      let m : suc (threshold - 1) ≡ max 1 threshold = omega arith in
      subst (λ k. cooldown * n + from ≤ cooldown * k + until) m
        (elim (calls_of-Fits from until texts (new_breaker threshold cooldown) h) [
          | inl nothing ↦ rw nothing (omega arith)
          | inr fit ↦ omega arith
        ])
