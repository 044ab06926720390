-- ===== src/Workflows/Engine/Tests.antt =====
-- graph/workflows/engine.py on a diamond of four steps, one of which raises, and on a cycle.
use proto_trader.Prelude.{
  ℕ, ◌≡◌, refl, inl, inr, Text, codes, text_eq, Has, true, false, some, List, [], ◌∷◌, length,
  arith, Dict, All, ◌⊎◌, lookup, insert,
}
use proto_trader.Workflows.Template.{render_template}
use proto_trader.Workflows.Engine.{
  Step, Outcome, output, raised, execute_steps, workflow_output, skipped, by_id_of, has_key,
  run_one, record_all, skip_all, record_one, round_with, round, rounds,
}
use proto_trader.Workflows.Engine.Coverage.{execute_steps-covers}
use proto_trader.Workflows.Engine.Order.{ids, Follows}
use proto_trader.Workflows.Engine.Seen.{Ran, execute_steps-Ran}
use proto_trader.Workflows.Engine.Complete.{Ranked}
use proto_trader.Workflows.Engine.Runs.{execute_steps-starts}

abbrev step : Text → Text → List Text → Step
step id prompt deps = record {
  id = id;
  subagent = codes "worker";
  prompt = prompt;
  depends_on = deps;
}

abbrev diamond : List Step
diamond =
    step (codes "ddd") (codes "join {{steps.b.output}} and {{ steps.cc.output }}")
      (codes "b" ∷ codes "cc" ∷ [])
    ∷ step (codes "b") (codes "from {{steps.a.output}}") (codes "a" ∷ [])
    ∷ step (codes "cc") (codes "fail") (codes "a" ∷ [])
    ∷ step (codes "a") (codes "on {{inputs.topic}}") []
    ∷ []

abbrev cycle : List Step
cycle =
    step (codes "a") (codes "x") (codes "b" ∷ [])
    ∷ step (codes "b") (codes "y") (codes "a" ∷ [])
    ∷ []

abbrev inputs : Dict Text
inputs = (codes "topic", codes "tea") ∷ []

-- Answers with the prompt, and raises on the prompt "fail".
abbrev run_step : Text → Text → Text → Outcome
run_step subagent prompt id = elim (text_eq prompt (codes "fail")) [
  | true ↦ raised (codes "ValueError: no")
  | false ↦ output prompt
]

program : Unit {0}
unfolding execute_steps workflow_output render_template lookup insert text_eq record_all skip_all
    record_one run_one round_with round rounds
program = tt

diamond_ran :
    (ids (execute_steps run_step inputs diamond).ran
      ≡ codes "a" ∷ codes "b" ∷ codes "cc" ∷ codes "ddd" ∷ [])
    × ((execute_steps run_step inputs diamond).failed ≡ codes "cc" ∷ [])
    × (lookup (codes "b") (execute_steps run_step inputs diamond).done ≡ some (codes "from on tea"))
unfolding program
diamond_ran = (refl, refl, refl)

cycle_ran :
    ((execute_steps run_step inputs cycle).failed ≡ codes "a" ∷ codes "b" ∷ [])
    × ((execute_steps run_step inputs cycle).ran ≡ [])
    × ((execute_steps run_step inputs cycle).broken ≡ true)
    × (ids (execute_steps run_step inputs cycle).pending ≡ codes "a" ∷ codes "b" ∷ [])
unfolding program
cycle_ran = (refl, refl, refl, refl)

-- The length of the id, by which each dependency of the diamond stands below its step.
abbrev rank : Text → ℕ
rank id = elim (text_eq id (codes "a")) [ true ↦ 0 | false ↦ length id ]

diamond-Ranked : Ranked rank diamond
unfolding text_eq
diamond-Ranked = (
  ((omega arith, inr (inl refl)), ((omega arith, inr (inr (inl refl))), tt)),
  (
    ((omega arith, inr (inr (inr (inl refl)))), tt),
    (((omega arith, inr (inr (inr (inl refl)))), tt), (tt, tt)),
  ),
)

execute_steps-covers_example :
    (has_key (execute_steps run_step inputs cycle).done (codes "b") ≡ true)
    × (((execute_steps run_step inputs cycle).pending ≡ [])
        ⊎ ((execute_steps run_step inputs cycle).broken ≡ true))
    × All
        (λ p.
          (lookup p.0 (execute_steps run_step inputs cycle).done ≡ some (skipped p.0))
          × Has p.0 (execute_steps run_step inputs cycle).failed)
        (execute_steps run_step inputs cycle).pending
execute_steps-covers_example =
    execute_steps-covers run_step inputs cycle (codes "b") (inr (inl refl))

execute_steps-Ran_example :
    Follows [] (execute_steps run_step inputs diamond).ran
    × All
        (Ran run_step inputs (by_id_of diamond []) (execute_steps run_step inputs diamond).done)
        (execute_steps run_step inputs diamond).ran
execute_steps-Ran_example = execute_steps-Ran run_step inputs diamond

execute_steps-starts_example : Has (codes "ddd") (ids (execute_steps run_step inputs diamond).ran)
execute_steps-starts_example =
    execute_steps-starts rank run_step inputs diamond (codes "ddd") diamond-Ranked (inl refl)
