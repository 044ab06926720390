-- ===== src/Workflows/Engine/Seen.antt =====
-- graph/workflows/engine.py: each step runs on the outputs of all of its dependencies.
use proto_trader.Prelude.{
  ℕ, zero, suc, ◌≡◌, ◌∙◌, ◌⊎◌, refl, inl, inr, Text, true, false, not, ◌||◌, some, List, [], ◌∷◌,
  subst, sym, keep, all, length, arith, Dict, lookup, All, Bool-cases, All-append, All-keep, ap,
}
use proto_trader.Workflows.Template.{render_template}
use proto_trader.Workflows.Engine.{
  Step, Outcome, Pending, Execution, pending_of, by_id_of, has_key, is_ready, is_nil, run_one,
  record_all, round_with, round, rounds, start, execute_steps,
}
use proto_trader.Workflows.Engine.Skips.{skip_all-broken}
use proto_trader.Workflows.Engine.Order.{Follows, execute_steps-Follows, skip_all-ran}
use proto_trader.Workflows.Engine.Entries.{
  Apart, Agrees, not_waiting, kept_pass, Apart-keep, split-Apart, pending_of-Agrees,
}
use proto_trader.Workflows.Engine.Writes.{
  result_text, has_key→some, skip_all-keeps, still_absent, record_all-keeps, record_all-writes,
}

-- An entry of the log: the step ran with its prompt rendered over outputs in which each of its
-- dependencies has the text that it has at the end, and the result is its output.
abbrev pub Ran :
    (Text → Text → Text → Outcome) → Dict Text → Dict Step → Dict Text → Text × List Text → Type 0
Ran run_step inputs by_id done (id, deps) =
    (s : Step) × (before : Dict Text) × (lookup id by_id ≡ some s)
    × (s.depends_on ≡ deps)
    × All (λ d. (out : Text) × (lookup d before ≡ some out) × (lookup d done ≡ some out)) deps
    × (lookup id done
        ≡ some (result_text id (run_step s.subagent (render_template s.prompt inputs before) id)))

-- Outputs stay as they are.
abbrev Grows : Dict Text → Dict Text → Type 0
Grows done done' = (k out : Text) → lookup k done ≡ some out → lookup k done' ≡ some out

-- Writing only ids without an output, a change keeps the outputs.
untouched-Grows :
    (done done' : Dict Text) (entries : Pending)
    → All (λ p. has_key done p.0 ≡ false) entries
    → ((k : Text) → has_key entries k ≡ false → lookup k done' ≡ lookup k done)
    → Grows done done'
untouched-Grows done done' entries absent same k out e =
    same k (not_waiting k done entries absent (rw (e, has_key) refl)) ∙ e

module _ (run_step : Text → Text → Text → Outcome) (inputs : Dict Text) (by_id : Dict Step) where
  Ran-Grows :
      (done done' : Dict Text) (log : Pending)
      → Grows done done'
      → All (Ran run_step inputs by_id done) log
      → All (Ran run_step inputs by_id done') log
  Ran-Grows done done' [] g h = tt
  Ran-Grows done done' ((id, deps) ∷ log) g ((s, before, e, same, seen, out), h) =
      ((s, before, e, same, go deps seen, g id _ out), Ran-Grows done done' log g h)
    where
      go :
          (ds : List Text)
          → All (λ d. (out : Text) × (lookup d before ≡ some out) × (lookup d done ≡ some out)) ds
          → All (λ d. (out : Text) × (lookup d before ≡ some out) × (lookup d done' ≡ some out)) ds
      go [] h = tt
      go (d ∷ ds) ((x, b, e), h) = ((x, b, g d x e), go ds h)

  run_one-step :
      (before : Dict Text) (id : Text) (s : Step)
      → lookup id by_id ≡ some s
      → run_one run_step inputs by_id before id
        ≡ run_step s.subagent (render_template s.prompt inputs before) id
  unfolding run_one
  run_one-step before id s e = rw (e, run_one) refl

  -- The entries of a round.
  round_Ran :
      (before done' : Dict Text) (ready : Pending)
      → Grows before done'
      → Agrees by_id ready
      → All (λ p. is_ready before p ≡ true) ready
      → All
          (λ p.
            lookup p.0 done' ≡ some (result_text p.0 (run_one run_step inputs by_id before p.0)))
          ready
      → All (Ran run_step inputs by_id done') ready
  round_Ran before done' [] g ag is_in w = tt
  round_Ran before done' ((id, deps) ∷ ready) g ((s, e, same), ag) (r, rs) (w, ws) = (
    (
      s,
      before,
      e,
      same,
      go deps r,
      w ∙ ap (λ o. some (result_text id o)) (run_one-step before id s e),
    ),
    round_Ran before done' ready g ag rs ws,
  )
    where
      go :
          (ds : List Text)
          → all (has_key before) ds ≡ true
          → All (λ d. (out : Text) × (lookup d before ≡ some out) × (lookup d done' ≡ some out)) ds
      go [] h = tt
      go (d ∷ ds) h =
          let (out, e) = has_key→some d before (ground (arith, h)) in
          ((out, e, g d out e), go ds (ground (arith, h)))

  -- What the loop keeps.
  record Inv (e : Execution) : Type 0 where
    saw : All (Ran run_step inputs by_id e.done) e.ran
    waits :
        (e.broken ≡ true)
        ⊎ (Apart e.pending
            × Agrees by_id e.pending
            × All (λ p. has_key e.done p.0 ≡ false) e.pending)

  round_with-Inv :
      (ready : Pending) (e : Execution)
      → ready ≡ keep (is_ready e.done) e.pending
      → e.broken ≡ false
      → Inv e
      → Inv (round_with run_step inputs by_id ready e)
  unfolding round_with
  round_with-Inv ready e h fine inv = elim inv.waits [
    | inl broken ↦ absurd (ground (arith, broken, fine))
    | inr (apart, agrees, absent) ↦ go ready h apart agrees absent
  ]
    where
      go :
          (ready : Pending)
          → ready ≡ keep (is_ready e.done) e.pending
          → Apart e.pending
          → Agrees by_id e.pending
          → All (λ p. has_key e.done p.0 ≡ false) e.pending
          → Inv (round_with run_step inputs by_id ready e)
      go [] h apart agrees absent = record {
        saw = rw (skip_all-ran e.pending e) (
            Ran-Grows e.done _ e.ran
              (untouched-Grows e.done _ e.pending absent (λ k n. skip_all-keeps k e.pending e n))
              inv.saw);
        waits = inl (skip_all-broken e.pending e);
      }
      go (r ∷ rs) h apart agrees absent =
          let done' = (record_all run_step inputs by_id e.done (r ∷ rs) e).done in
          let same : (k : Text) → has_key (r ∷ rs) k ≡ false → lookup k done' ≡ lookup k e.done =
            λ k n. record_all-keeps run_step inputs by_id k e.done (r ∷ rs) e n in
          let grows : Grows e.done done' =
            untouched-Grows e.done done' (r ∷ rs)
              (subst (All (λ p. has_key e.done p.0 ≡ false)) (sym h)
                (All-keep _ (is_ready e.done) e.pending absent))
              same in
          record {
            saw =
                All-append (Ran run_step inputs by_id done') e.ran (r ∷ rs)
                  (Ran-Grows e.done done' e.ran grows inv.saw)
                  (round_Ran e.done done' (r ∷ rs) grows
                    (subst (Agrees by_id) (sym h) (All-keep _ (is_ready e.done) e.pending agrees))
                    (subst (All (λ p. is_ready e.done p ≡ true)) (sym h)
                      (kept_pass (is_ready e.done) e.pending))
                    (record_all-writes run_step inputs by_id e.done (r ∷ rs) e
                      (subst Apart (sym h) (Apart-keep (is_ready e.done) e.pending apart))));
            waits = inr (
              Apart-keep _ e.pending apart,
              All-keep _ _ e.pending agrees,
              still_absent e.done done' (r ∷ rs) _ same
                  (subst
                    (λ (ps : Pending).
                      All (λ p. has_key ps p.0 ≡ false)
                        (keep (λ p. not (is_ready e.done p)) e.pending))
                    (sym h) (split-Apart (is_ready e.done) e.pending apart))
                  (All-keep _ _ e.pending absent),
            );
          }

  rounds-Inv : (fuel : ℕ) (e : Execution) → Inv e → Inv (rounds run_step inputs by_id fuel e)
  unfolding rounds round
  rounds-Inv zero e inv = inv
  rounds-Inv (suc fuel) e inv = elim (Bool-cases (is_nil e.pending || e.broken)) [
    | inl over ↦ rw (over, rounds) inv
    | inr more ↦
        rw (more, rounds)
          (rounds-Inv fuel (round run_step inputs by_id e)
            (round_with-Inv _ e refl (ground (arith, more)) inv))
  ]

no_outputs : (entries : Pending) → All (λ p. has_key {V = Text} [] p.0 ≡ false) entries
unfolding lookup
no_outputs [] = tt
no_outputs (p ∷ entries) = (refl, no_outputs entries)

-- In the log of the steps started, each step stands behind all of its dependencies, and each step ran
-- once they all had their outputs: the prompt it ran on is rendered over outputs in which every one
-- of its dependencies has the text that it has at the end, and the step's own output at the end is
-- what that run returned or raised. This holds whatever the steps return or raise.
pub execute_steps-Ran :
    (run_step : Text → Text → Text → Outcome) (inputs : Dict Text) (steps : List Step)
    → Follows [] (execute_steps run_step inputs steps).ran
      × All
          (Ran run_step inputs (by_id_of steps []) (execute_steps run_step inputs steps).done)
          (execute_steps run_step inputs steps).ran
unfolding execute_steps
execute_steps-Ran run_step inputs steps =
    let (apart, agrees) = pending_of-Agrees steps [] [] tt tt in
    (
      execute_steps-Follows run_step inputs steps,
      (rounds-Inv run_step inputs (by_id_of steps []) (length (pending_of steps [])) (start steps)
          record { saw = tt; waits = inr (apart, agrees, no_outputs (pending_of steps [])) }).saw,
    )
