-- ===== src/Workflows/Engine/Writes.antt =====
-- graph/workflows/engine.py: the outputs that a round and the `break` write.
use proto_trader.Prelude.{
  ◌≡◌, ◌∙◌, refl, inl, inr, Text, text_eq, text_eq_refl, true, false, Option, none, some, [], ◌∷◌,
  arith, Dict, lookup, lookup-insert, All, Bool-cases, if◌then◌else◌,
}
use proto_trader.Workflows.Engine.{
  Step, Outcome, output, raised, Pending, Execution, has_key, raised_text, skipped, skip_all,
  record_one, run_one, record_all,
}
use proto_trader.Workflows.Engine.Entries.{Apart}

-- The text a step leaves as its output, its error if it raised.
abbrev pub result_text : Text → Outcome → Text
result_text id (output text) = text
result_text id (raised message) = raised_text id message

record_one-lookup :
    (k id : Text) (o : Outcome) (e : Execution)
    → lookup k (record_one id o e).done
      ≡ (if text_eq id k then some (result_text id o) else lookup k e.done)
unfolding record_one
record_one-lookup k id (output text) e = lookup-insert id k text e.done
record_one-lookup k id (raised message) e = lookup-insert id k (raised_text id message) e.done

pub has_key→some :
    (k : Text) (done : Dict Text)
    → has_key done k ≡ true
    → (out : Text) × (lookup k done ≡ some out)
has_key→some k done = go (lookup k done) refl
  where
    go :
        (o : Option Text)
        → lookup k done ≡ o
        → has_key done k ≡ true
        → (out : Text) × (lookup k done ≡ some out)
    go none e h = absurd (ground (arith, e, h))
    go (some out) e h = (out, e)

pub skip_all-keeps :
    (k : Text) (waiting : Pending) (e : Execution)
    → has_key waiting k ≡ false
    → lookup k (skip_all waiting e).done ≡ lookup k e.done
unfolding skip_all lookup
skip_all-keeps k [] e h = refl
skip_all-keeps k ((id, deps) ∷ waiting) e h = elim (Bool-cases (text_eq id k)) [
  | inl same ↦ absurd (ground (arith, h, same))
  | inr other ↦
      skip_all-keeps k waiting _ (ground (arith, h, other))
      ∙ lookup-insert id k (skipped id) e.done
      ∙ rw other refl
]

pub still_absent :
    (done done' : Dict Text) (ready entries : Pending)
    → ((k : Text) → has_key ready k ≡ false → lookup k done' ≡ lookup k done)
    → All (λ p. has_key ready p.0 ≡ false) entries
    → All (λ p. has_key done p.0 ≡ false) entries
    → All (λ p. has_key done' p.0 ≡ false) entries
still_absent done done' ready [] same n h = tt
still_absent done done' ready (p ∷ entries) same (n, ns) (h, hs) =
    (ground (arith, same p.0 n, h), still_absent done done' ready entries same ns hs)

module _ (run_step : Text → Text → Text → Outcome) (inputs : Dict Text) (by_id : Dict Step) where
  pub record_all-keeps :
      (k : Text) (before : Dict Text) (ready : Pending) (e : Execution)
      → has_key ready k ≡ false
      → lookup k (record_all run_step inputs by_id before ready e).done ≡ lookup k e.done
  unfolding record_all lookup
  record_all-keeps k before [] e h = refl
  record_all-keeps k before ((id, deps) ∷ ready) e h = elim (Bool-cases (text_eq id k)) [
    | inl same ↦ absurd (ground (arith, h, same))
    | inr other ↦
        record_all-keeps k before ready (record_one id (run_one run_step inputs by_id before id) e)
          (ground (arith, h, other))
        ∙ record_one-lookup k id (run_one run_step inputs by_id before id) e
        ∙ rw other refl
  ]

  pub record_all-writes :
      (before : Dict Text) (ready : Pending) (e : Execution)
      → Apart ready
      → All
          (λ p.
            lookup p.0 (record_all run_step inputs by_id before ready e).done
            ≡ some (result_text p.0 (run_one run_step inputs by_id before p.0)))
          ready
  unfolding record_all
  record_all-writes before [] e a = tt
  record_all-writes before ((id, deps) ∷ ready) e (new, a) =
      let one = record_one id (run_one run_step inputs by_id before id) e in
      (
        record_all-keeps id before ready one new
            ∙ record_one-lookup id id (run_one run_step inputs by_id before id) e
            ∙ rw text_eq_refl refl,
        record_all-writes before ready one a,
      )
