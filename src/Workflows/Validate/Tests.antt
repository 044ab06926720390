-- ===== src/Workflows/Validate/Tests.antt =====
-- graph/workflows/engine.py: validation of a good recipe and of bad ones.
use proto_trader.Prelude.{
  ◌≡◌, refl, Text, codes, text_eq, mem_text, strip, starts_with, ends_with, lstrip, Has, true,
  false, ◌↔◌, none, some, List, [], ◌∷◌, map, Option, lookup, insert,
}
use proto_trader.Workflows.Template.{match_ref}
use proto_trader.Workflows.Engine.{Step, Outcome, output, execute_steps}
use proto_trader.Workflows.Engine.Order.{ids}
use proto_trader.Workflows.Cycles.{leave, has_cycle_in}
use proto_trader.Workflows.Cycles.Ranks.{Acyclic}
use proto_trader.Workflows.Cycles.Total.{has_cycle_in_iff}
use proto_trader.Workflows.Validate.{
  RawStep, Recipe, missing_name, no_steps, dependency_cycle, step_not_mapping, duplicate_id,
  unknown_input, unknown_step, unrecognized_ref, missing_prompt, unknown_subagent,
  unknown_dependency, is_blank, check_id, check_subagent, check_steps, check_deps, has_cycle,
  check_cycle, check_refs, refs_of, early_problems, problems_with, validate_recipe, as_step,
  steps_of,
}
use proto_trader.Workflows.Validate.Sound.{Fresh}
use proto_trader.Workflows.Validate.Whole.{validate_recipe-runs}

abbrev step : Text → Text → List Text → Option RawStep
step id prompt deps = some (record {
  id = some id;
  subagent = some (codes "worker");
  prompt = some prompt;
  depends_on = deps;
})

abbrev good : Recipe
good = record {
  name = some (codes "two");
  inputs = some (record { name = some (codes "topic"); default = none; required = true }) ∷ [];
  steps =
      step (codes "b") (codes "sum {{steps.a.output}}") (codes "a" ∷ [])
      ∷ step (codes "a") (codes "on {{ inputs.topic }}") []
      ∷ [];
  output = none;
}

abbrev cyclic : Recipe
cyclic = record good {
  steps =
      step (codes "b") (codes "x") (codes "a" ∷ [])
      ∷ step (codes "a") (codes "y") (codes "b" ∷ [])
      ∷ [];
}

abbrev bad : Recipe
bad = record good {
  name = some (codes " ");
  steps =
      none
      ∷ step (codes "a") (codes "{{inputs.x}} {{steps.q.output}} {{z}}") (codes "q" ∷ [])
      ∷ step (codes "a") [] []
      ∷ [];
}

-- A step that reads the output of one that it does not depend on.
abbrev early_reader : Recipe
early_reader = record good {
  steps =
      step (codes "b") (codes "sum {{steps.a.output}}") [] ∷ step (codes "a") (codes "go") [] ∷ [];
}

program : Unit {0}
unfolding validate_recipe problems_with early_problems check_id check_subagent check_steps is_blank
    strip check_deps check_cycle has_cycle leave refs_of check_refs starts_with ends_with lstrip
    match_ref lookup insert text_eq mem_text steps_of as_step
program = tt

validate_recipe_runs :
    (validate_recipe none (some good) ≡ [])
    × (validate_recipe none (some cyclic) ≡ dependency_cycle ∷ [])
    × (validate_recipe (some []) (some bad)
        ≡ missing_name
          ∷ step_not_mapping 0
          ∷ unknown_subagent (some (codes "a")) (codes "worker")
          ∷ duplicate_id (codes "a")
          ∷ unknown_subagent (some (codes "a")) (codes "worker")
          ∷ missing_prompt (some (codes "a"))
          ∷ unknown_dependency (some (codes "a")) (codes "q")
          ∷ unknown_input (codes "inputs.x")
          ∷ unknown_step (codes "q")
          ∷ unrecognized_ref (codes "z")
          ∷ [])
    × (validate_recipe none (some early_reader) ≡ [])
    × (validate_recipe none (some (record good { steps = [] })) ≡ no_steps ∷ [])
unfolding program
validate_recipe_runs = (refl, refl, refl, refl, refl)

good-quiet : validate_recipe none (some good) ≡ []
unfolding program
good-quiet = refl

abbrev echo : Text → Text → Text → Outcome
echo subagent prompt id = output prompt

validate_recipe-runs_example :
    (steps : List Step) × (steps_of good.steps ≡ some steps)
    × Fresh [] steps
    × ((k : Text) → Has k (map (λ s. s.id) steps) → Has k (ids (execute_steps echo [] steps).ran))
validate_recipe-runs_example = validate_recipe-runs none good echo [] good-quiet

has_cycle_in_iff_example :
    (has_cycle_in ((codes "b", codes "a" ∷ []) ∷ (codes "a", []) ∷ []) ≡ false)
    ↔ Acyclic ((codes "b", codes "a" ∷ []) ∷ (codes "a", []) ∷ [])
has_cycle_in_iff_example = has_cycle_in_iff ((codes "b", codes "a" ∷ []) ∷ (codes "a", []) ∷ [])
