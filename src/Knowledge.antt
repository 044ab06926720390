-- ===== src/Knowledge.antt =====
-- knowledge/hybrid_store.py: the circuit breaker around the embedding function. The function is an argument,
-- by the text and the time of the call, with `none` where it raises.
pub mod Outage
mod Tests
use proto_trader.Prelude.{
  ℕ, suc, ◌+◌, Text, Bool, true, false, not, Option, none, some, List, [], ◌∷◌, ltb, leb,
  if◌then◌else◌,
}

pub record Breaker : Type 0 where
  pub threshold : ℕ
  pub cooldown : ℕ
  pub failures : ℕ
  pub open_until : ℕ

unfoldable pub new_breaker : ℕ → ℕ → Breaker
new_breaker threshold cooldown = record {
  threshold = threshold;
  cooldown = cooldown;
  failures = 0;
  open_until = 0;
}

-- `_breaker_open`.
abbrev pub is_open : ℕ → Breaker → Bool
is_open now b = ltb now b.open_until

unfoldable pub record_failure : ℕ → Breaker → Breaker
record_failure now b =
    if leb b.threshold (suc b.failures)
    then record b { failures = suc b.failures; open_until = now + b.cooldown }
    else record b { failures = suc b.failures }

unfoldable pub record_success : Breaker → Breaker
record_success b = record b { failures = 0; open_until = 0 }

module _ {V : Type 0} (embed_fn : Text → ℕ → Option V) where
  -- `_embed` of a store that has a function, with whether the function was called.
  unfoldable pub embed : Text → ℕ → Breaker → Breaker × Option V × Bool
  unfolding record_failure record_success
  embed text now b = if is_open now b then (b, none, false) else elim (embed_fn text now) [
    | none ↦ (record_failure now b, none, true)
    | some vec ↦ (record_success b, some vec, true)
  ]

  -- The number of calls of the function that a sequence of texts causes.
  unfoldable pub calls_of : List (Text × ℕ) → Breaker → ℕ
  calls_of [] b = 0
  calls_of ((text, now) ∷ texts) b =
      let r = embed text now b in let rest = calls_of texts r.0 in if r.2 then suc rest else rest
