-- ===== src/Middleware/Running.antt =====
-- graph/middleware/enforcement.py: how often tools run behind the gate.
use proto_trader.Prelude.{
  ℕ, ◌+◌, ◌≤◌, ◌≡◌, refl, inl, inr, sym, subst, ap, ◌∙◌, Text, text_eq, Bool, true, ◌&&◌, Option,
  some, List, [], ◌∷◌, map, keep, count, All, ltb, leb, arith, Bool-cases, Dict, lookup,
}
use proto_trader.Window.{Ascends, admitted}
use proto_trader.Enforcement.{Limit, RateLimiter, init, check, check_all}
use proto_trader.Enforcement.Rate.{times_of, decisions_of, check_all-le-max_calls}
use proto_trader.Middleware.Gate.{ToolCall, Gate, new_gate}
use proto_trader.Middleware.Gated.{
  passes, named, ran, passing, allowed_calls, allowed_by, Rest, ran-passing, passing-All,
  allowed_calls-All,
}

weaken_times : (s t : ℕ) (ts : List ℕ) → s ≤ t → Ascends t ts → Ascends s ts
weaken_times s t [] le asc = tt
weaken_times s t (u ∷ ts) le asc = (omega (arith, asc.0), asc.1)

module _ {A : Type 0} where
  times_of-allowed_calls :
      (k : Text) (l : RateLimiter) (calls : List (ToolCall A × ℕ))
      → times_of k (named (allowed_calls l calls))
        ≡ admitted
            (times_of k (named calls))
            (decisions_of k (named calls) (check_all l (named calls)))
  unfolding allowed_calls check_all
  times_of-allowed_calls k l [] = refl
  times_of-allowed_calls k l ((call, now) ∷ calls) =
      let rest = times_of-allowed_calls k (check call.name now l).0 calls in
      elim (Bool-cases (check call.name now l).1) [
        | inl room ↦ elim (Bool-cases (text_eq call.name k)) [
          | inl same ↦ rw (room, same) (ap (λ (ts : List ℕ). now ∷ ts) rest)
          | inr other ↦ rw (room, other) rest
        ]
        | inr full ↦ elim (Bool-cases (text_eq call.name k)) [
          | inl same ↦ rw (full, same) rest
          | inr other ↦ rw (full, other) rest
        ]
      ]

  Ascends-times_of :
      (k : Text) (p : ToolCall A × ℕ → Bool) (t : ℕ) (calls : List (ToolCall A × ℕ))
      → Ascends t (map (λ (c : ToolCall A × ℕ). c.1) calls)
      → Ascends t (times_of k (named (keep p calls)))
  Ascends-times_of k p t [] asc = tt
  Ascends-times_of k p t (c ∷ calls) asc =
      let rest = Ascends-times_of k p c.1 calls asc.1 in
      let rest' = weaken_times t c.1 (times_of k (named (keep p calls))) asc.0 rest in
      elim (Bool-cases (p c)) [
        | inl pass ↦ elim (Bool-cases (text_eq c.0.name k)) [
          | inl same ↦ rw (pass, same) (asc.0, rest)
          | inr other ↦ rw (pass, other) rest'
        ]
        | inr stop ↦ rw stop rest'
      ]

  module _ (denied : List Text) (l : Text × Limit) (limits : Dict Limit)
      (predicate : Option (Text → A → Option Text)) where
    abbrev pub limited_gate : Gate A
    limited_gate = new_gate denied (l ∷ limits) predicate

    -- The calls that are neither on the deny list nor refused by the predicate.
    abbrev pub admissible : List (ToolCall A × ℕ) → List (ToolCall A × ℕ)
    admissible calls = keep (λ c. passes limited_gate c.0) calls

module _ {A R : Type 0} (handler : ToolCall A → R) where
  module _ (denied : List Text) (l : Text × Limit) (limits : Dict Limit)
      (predicate : Option (Text → A → Option Text)) where
    -- Of a sequence of tool calls at times that never go back, those that reach the handler behind a
    -- new gate with rate limits are all neither on the deny list nor refused by the predicate; of these a
    -- tool's calls run just when the limiter on its own, asked about these only, allows them, so that
    -- refused calls do not count; and at most `max_calls` calls of a limited tool run at times in any
    -- interval `(from, from + window]`.
    pub ran_safe :
        (calls : List (ToolCall A × ℕ)) (k : Text) (cfg : Limit) (from : ℕ)
        → Ascends 0 (map (λ (c : ToolCall A × ℕ). c.1) calls)
        → lookup k (l ∷ limits) ≡ some cfg
        → All
            (λ c. passes (limited_gate denied l limits predicate) c.0 ≡ true)
            (ran handler (limited_gate denied l limits predicate) calls)
          × ((j : Text)
              → times_of j (named (ran handler (limited_gate denied l limits predicate) calls))
                ≡ admitted (times_of j (named (admissible denied l limits predicate calls))) (
                    decisions_of j (named (admissible denied l limits predicate calls)) (
                      check_all
                        (init (l ∷ limits))
                        (named (admissible denied l limits predicate calls)))))
          × (count
                (λ t. ltb from t && leb t (from + cfg.window))
                (times_of k (named (ran handler (limited_gate denied l limits predicate) calls)))
              ≤ cfg.max_calls)
    unfolding new_gate allowed_by Rest
    ran_safe calls k cfg from asc capped =
        let e = ran-passing handler denied predicate calls (some (init (l ∷ limits))) in
        let times : (k : Text) → _ = λ k.
          ap (λ (cs : List (ToolCall A × ℕ)). times_of k (named cs)) e
          ∙ times_of-allowed_calls k (init (l ∷ limits)) (passing denied predicate calls) in
        (
          subst (All (λ c. passes (limited_gate denied l limits predicate) c.0 ≡ true)) (sym e) (
              allowed_calls-All (λ c. passes (limited_gate denied l limits predicate) c.0 ≡ true)
                (init (l ∷ limits)) (passing denied predicate calls)
                (passing-All denied predicate calls)),
          times,
          rw (times k) (
              check_all-le-max_calls k cfg (l ∷ limits) (named (passing denied predicate calls))
                from capped
                (Ascends-times_of k (λ c. passes (limited_gate denied l limits predicate) c.0) 0
                  calls asc)),
        )
