-- ===== src/Enforcement/Rate.antt =====
-- enforcement/rate_limiter.py: the limiter against the specification of `Window`.
use proto_trader.Prelude.{
  ℕ, ◌+◌, ◌≤◌, ◌≡◌, ◌∙◌, refl, ap, inl, inr, Text, text_eq, Bool, true, false, ◌&&◌, some, List, [],
  ◌∷◌, ◌++◌, arith, ltb, leb, if◌then◌else◌, count, keep, length, length-keep, count-keep,
  count-append, lookup, insert, lookup-insert, text_eq_refl, text_eq_iff, Bool-cases, Option-cases,
  Dict,
}
use proto_trader.Window.{Ascends, admitted, decide_all, count-admitted-le}
use proto_trader.Enforcement.{
  Limit, RateLimiter, init, window_of, inside, check_limit, check, check_all,
}

-- The times of the calls of one action, and the decisions on them.
abbrev pub times_of : Text → List (Text × ℕ) → List ℕ
times_of k [] = []
times_of k ((j, now) ∷ calls) = if text_eq j k then now ∷ times_of k calls else times_of k calls

abbrev pub decisions_of : Text → List (Text × ℕ) → List Bool → List Bool
decisions_of k [] bs = []
decisions_of k ((j, now) ∷ calls) [] = []
decisions_of k ((j, now) ∷ calls) (b ∷ bs) =
    if text_eq j k then b ∷ decisions_of k calls bs else decisions_of k calls bs

inside_anti :
    (cfg : Limit) (now later t : ℕ)
    → now ≤ later
    → inside cfg later t ≡ true
    → inside cfg now t ≡ true
unfolding inside
inside_anti cfg now later t le h = ground arith

-- From `last` on, the kept times count as the whole history does.
Agrees : Limit → ℕ → List ℕ → List ℕ → Type 0
Agrees cfg last kept history =
    (n : ℕ) → last ≤ n → count (inside cfg n) kept ≡ count (inside cfg n) history

window_of-insert :
    (k j : Text) (ts : List ℕ) (ws : Dict (List ℕ))
    → window_of (insert j ts ws) k ≡ (if text_eq j k then ts else window_of ws k)
unfolding window_of
window_of-insert k j ts ws = rw (lookup-insert, window_of) (ground arith)

-- Dropping what has left the window changes no later count.
recent-Agrees :
    (cfg : Limit) (last now : ℕ) (kept history : List ℕ)
    → last ≤ now
    → Agrees cfg last kept history
    → Agrees cfg now (keep (inside cfg now) kept) history
unfolding Agrees
recent-Agrees cfg last now kept history le agrees n later =
    count-keep (inside cfg now) (inside cfg n) (λ t. inside_anti cfg now n t later) kept
    ∙ agrees n (omega arith)

append-Agrees :
    (cfg : Limit) (now : ℕ) (kept history : List ℕ)
    → Agrees cfg now kept history
    → Agrees cfg now (kept ++ now ∷ []) (now ∷ history)
unfolding Agrees
append-Agrees cfg now kept history agrees n later =
    ground (arith, count-append (inside cfg n) kept (now ∷ []), agrees n later)

length-recent :
    (cfg : Limit) (last now : ℕ) (kept history : List ℕ)
    → last ≤ now
    → Agrees cfg last kept history
    → length (keep (inside cfg now) kept) ≡ count (inside cfg now) history
unfolding Agrees
length-recent cfg last now kept history le agrees =
    length-keep (inside cfg now) kept ∙ agrees now le

-- One call of the action, with the limiter's other windows left alone.
check_limit_lem :
    (cfg : Limit) (k : Text) (last now : ℕ) (r : RateLimiter) (history : List ℕ)
    → last ≤ now
    → Agrees cfg last (window_of r.windows k) history
    → (b : Bool) × (b ≡ ltb (count (inside cfg now) history) cfg.max_calls)
      × ((check_limit cfg k now r).1 ≡ b)
      × Agrees cfg now
          (window_of (check_limit cfg k now r).0.windows k)
          (if b then now ∷ history else history)
unfolding check_limit
check_limit_lem cfg k last now r history le agrees =
    elim (Bool-cases (leb cfg.max_calls (length recent))) [
      | inl full ↦ (
        false,
        ground (arith, full, size),
        rw full,
        rw (full, window_of-insert, text_eq_refl) kept,
      )
      | inr room ↦ (
        true,
        ground (arith, room, size),
        rw room,
        rw (room, window_of-insert, text_eq_refl) (append-Agrees cfg now recent history kept),
      )
    ]
  where
    recent : List ℕ
    recent = keep (inside cfg now) (window_of r.windows k)

    size : length recent ≡ count (inside cfg now) history
    size = length-recent cfg last now (window_of r.windows k) history le agrees

    kept : Agrees cfg now recent history
    kept = recent-Agrees cfg last now (window_of r.windows k) history le agrees

check_lem :
    (cfg : Limit) (k : Text) (last now : ℕ) (r : RateLimiter) (history : List ℕ)
    → lookup k r.limits ≡ some cfg
    → last ≤ now
    → Agrees cfg last (window_of r.windows k) history
    → (b : Bool) × (b ≡ ltb (count (inside cfg now) history) cfg.max_calls)
      × ((check k now r).1 ≡ b)
      × Agrees cfg now
          (window_of (check k now r).0.windows k)
          (if b then now ∷ history else history)
unfolding check
check_lem cfg k last now r history limited le agrees =
    rw (limited, check) (check_limit_lem cfg k last now r history le agrees)

-- A call of another action.
check_limit_other :
    (cfg : Limit) (k j : Text) (now : ℕ) (r : RateLimiter)
    → text_eq j k ≡ false
    → window_of (check_limit cfg j now r).0.windows k ≡ window_of r.windows k
unfolding check_limit
check_limit_other cfg k j now r other = ground (
  arith,
  other,
  window_of-insert k j (keep (inside cfg now) (window_of r.windows j)) r.windows,
  window_of-insert k j (keep (inside cfg now) (window_of r.windows j) ++ now ∷ []) r.windows,
)

check_other :
    (k j : Text) (now : ℕ) (r : RateLimiter)
    → text_eq j k ≡ false
    → window_of (check j now r).0.windows k ≡ window_of r.windows k
unfolding check
check_other k j now r other = elim (Option-cases (lookup j r.limits)) [
  | inl absent ↦ rw (absent, check)
  | inr (cfg, limited) ↦ rw (limited, check) (check_limit_other cfg k j now r other)
]

limits-check : (j : Text) (now : ℕ) (r : RateLimiter) → (check j now r).0.limits ≡ r.limits
unfolding check check_limit
limits-check j now r = ground arith

module _ (k : Text) (cfg : Limit) where
  Refines-check_all :
      (r : RateLimiter) (last : ℕ) (history : List ℕ) (calls : List (Text × ℕ))
      → lookup k r.limits ≡ some cfg
      → Agrees cfg last (window_of r.windows k) history
      → Ascends last (times_of k calls)
      → decisions_of k calls (check_all r calls)
        ≡ decide_all (inside cfg) cfg.max_calls history (times_of k calls)
  unfolding check_all decide_all
  Refines-check_all r last history [] limited agrees asc = refl
  Refines-check_all r last history ((j, now) ∷ calls) limited agrees asc =
      elim (Bool-cases (text_eq j k)) [
        | inl same ↦
            let (b, verdict, allowed, kept) =
              check_lem cfg k last now r history limited (rw same at asc).0 agrees in
            rw (same, (text_eq_iff j k).0 same, allowed, ← verdict)
              (ap (λ (bs : List Bool). b ∷ bs)
                (Refines-check_all (check k now r).0 now (if b then now ∷ history else history)
                  calls (rw (limits-check k now r) limited) kept (rw same at asc).1))
        | inr other ↦ rw other (
            Refines-check_all (check j now r).0 last history calls
              (rw (limits-check j now r) limited) (rw (check_other k j now r other) agrees)
              (rw other at asc))
      ]

  -- For calls at times that never go back, a fresh limiter decides on each call of a limited action
  -- exactly as a limiter that keeps the whole history and admits a call while fewer than
  -- `max_calls` admitted ones are younger than the window, whatever the other actions do.
  pub check_all-eq-decide_all :
      (limits : Dict Limit) (calls : List (Text × ℕ))
      → lookup k limits ≡ some cfg
      → Ascends 0 (times_of k calls)
      → decisions_of k calls (check_all (init limits) calls)
        ≡ decide_all (inside cfg) cfg.max_calls [] (times_of k calls)
  unfolding init window_of lookup Agrees
  check_all-eq-decide_all limits calls limited asc =
      Refines-check_all (init limits) 0 [] calls limited (λ n le. refl) asc

-- At most `max_calls` calls of a limited action are allowed at times in any interval
-- `(from, from + window]`, for calls at times that never go back.
pub check_all-le-max_calls :
    (k : Text) (cfg : Limit) (limits : Dict Limit) (calls : List (Text × ℕ)) (from : ℕ)
    → lookup k limits ≡ some cfg
    → Ascends 0 (times_of k calls)
    → count
        (λ t. ltb from t && leb t (from + cfg.window))
        (admitted (times_of k calls) (decisions_of k calls (check_all (init limits) calls)))
      ≤ cfg.max_calls
unfolding inside
check_all-le-max_calls k cfg limits calls from limited asc =
    rw (check_all-eq-decide_all k cfg limits calls limited asc) (
      count-admitted-le (inside cfg) cfg.max_calls (λ t. ltb from t && leb t (from + cfg.window))
        (λ h t p q. ground arith) (times_of k calls))
