-- ===== src/Workflows/Engine/Runs.antt =====
-- graph/workflows/engine.py: every step of a recipe without unknown dependencies and cycles is started.
use mathlib.Core.List.{map-append}
use proto_trader.Prelude.{
  ℕ, zero, suc, ◌<◌, ◌≡◌, refl, inl, inr, Text, Has, true, false, not, ◌||◌, List, [], ◌∷◌, map,
  keep, length, Dict, lookup, All, Bool-cases, append-Has, arith,
}
use proto_trader.Workflows.Engine.{
  Step, Outcome, Pending, Execution, pending_of, by_id_of, has_key, is_ready, is_nil, round_with,
  round, rounds, start, execute_steps,
}
use proto_trader.Workflows.Engine.Skips.{Covered}
use proto_trader.Workflows.Engine.Coverage.{
  round_with-Covered, pending_of-Has, execute_steps-covers,
}
use proto_trader.Workflows.Engine.Order.{ids, record_all-source}
use proto_trader.Workflows.Engine.Complete.{
  Sound, Sound-move, waiting_ready, Ranked, pending_of-Sound,
}

-- What the loop keeps on such a recipe: each output is that of a step that was started.
record Runs (rank : Text → ℕ) (e : Execution) : Type 0 where
  sound : Sound rank e.pending e.done e.pending
  source : (k : Text) → has_key e.done k ≡ true → Has k (ids e.ran)

module _ (rank : Text → ℕ) (run_step : Text → Text → Text → Outcome) (inputs : Dict Text)
    (by_id : Dict Step) where
  round_with-Runs :
      (ready : Pending) (e : Execution)
      → ready ≡ keep (is_ready e.done) e.pending
      → is_nil ready ≡ false
      → Runs rank e
      → Runs rank (round_with run_step inputs by_id ready e)
  unfolding round_with
  round_with-Runs [] e h more runs = cc more
  round_with-Runs (r ∷ rs) e h more runs = record {
    sound =
        Sound-move rank e.pending _ e.done _ (λ p. not (is_ready e.done p)) e.pending
          (λ d. unfold round_with in round_with-Covered run_step inputs by_id d (r ∷ rs) e h)
          runs.sound;
    source = λ k p. rw map-append (
        append-Has k (ids e.ran) (ids (r ∷ rs))
          (elim (record_all-source run_step inputs by_id k e.done (r ∷ rs) e p) [
            | inl old ↦ inl (runs.source k old)
            | inr new ↦ inr new
          ]));
  }

  rounds-Runs :
      (fuel : ℕ) (e : Execution) → Runs rank e → Runs rank (rounds run_step inputs by_id fuel e)
  unfolding rounds round
  rounds-Runs zero e runs = runs
  rounds-Runs (suc fuel) e runs = elim (Bool-cases (is_nil e.pending || e.broken)) [
    | inl done ↦ rw (done, rounds) runs
    | inr more ↦
        rw (more, rounds)
          (rounds-Runs fuel (round run_step inputs by_id e) (
            round_with-Runs _ e refl
              (waiting_ready rank e.pending e.pending e.done refl runs.sound (ground (arith, more)))
              runs))
  ]

Ranked-Sound :
    (rank : Text → ℕ) (all_steps steps : List Step)
    → All
        (λ s. All (λ d. (rank d < rank s.id) × Has d (map (λ t. t.id) all_steps)) s.depends_on)
        steps
    → All
        (λ s. All (λ d. (rank d < rank s.id) × Covered d (pending_of all_steps []) []) s.depends_on)
        steps
Ranked-Sound rank all_steps [] h = tt
Ranked-Sound rank all_steps (s ∷ steps) h =
    (go s.depends_on h.0, Ranked-Sound rank all_steps steps h.1)
  where
    go :
        (ds : List Text)
        → All (λ d. (rank d < rank s.id) × Has d (map (λ t. t.id) all_steps)) ds
        → All (λ d. (rank d < rank s.id) × Covered d (pending_of all_steps []) []) ds
    go [] h = tt
    go (d ∷ ds) ((below, has), h) = ((below, inl (pending_of-Has d all_steps [] has)), go ds h)

-- If every dependency of every step is itself a step and some ranking of the ids puts it below the
-- step (so there is no cycle), every step is started, whatever the steps return or raise: none is
-- skipped because another failed.
pub execute_steps-starts :
    (rank : Text → ℕ) (run_step : Text → Text → Text → Outcome) (inputs : Dict Text)
    (steps : List Step) (k : Text)
    → Ranked rank steps
    → Has k (map (λ s. s.id) steps)
    → Has k (ids (execute_steps run_step inputs steps).ran)
unfolding execute_steps lookup
execute_steps-starts rank run_step inputs steps k ranked has =
    (rounds-Runs rank run_step inputs (by_id_of steps []) (length (pending_of steps []))
        (start steps)
        record {
          sound =
              pending_of-Sound rank (pending_of steps []) [] steps []
                (Ranked-Sound rank steps steps ranked) tt;
          source = λ j p. cc p;
        }).source
      k (execute_steps-covers run_step inputs steps k has).0
