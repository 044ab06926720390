-- ===== src/Workflows/Validate.antt =====
-- graph/workflows/engine.py: `validate_recipe`. A recipe is what the parsed YAML
-- has under the keys that are read: a text or nothing for each text key (nothing for a value that is no
-- text), and nothing for a list entry that is not a mapping. Each constructor of `Problem` is one of the
-- error messages.
pub mod Sound
pub mod Whole
mod Tests
use proto_trader.Prelude.{
  ℕ, zero, suc, ◌-◌, Text, codes, text_eq, is_empty, strip, starts_with, ends_with, mem_text, Bool,
  true, false, not, ◌&&◌, Option, none, some, List, [], ◌∷◌, ◌++◌, map, take, drop, length,
  if◌then◌else◌, Dict, lookup, insert,
}
use proto_trader.Workflows.Template.{match_ref}
use proto_trader.Workflows.Engine.{Step, Pending}
use proto_trader.Workflows.Cycles.{has_cycle_in}

pub record RawStep : Type 0 where
  pub id : Option Text
  pub subagent : Option Text
  pub prompt : Option Text
  pub depends_on : List Text

pub record InputSpec : Type 0 where
  pub name : Option Text
  pub default : Option Text
  pub required : Bool

pub record Recipe : Type 0 where
  pub name : Option Text
  pub inputs : List (Option InputSpec)
  pub steps : List (Option RawStep)
  pub output : Option Text

pub data Problem : Type 0 where
  recipe_not_mapping missing_name no_steps dependency_cycle : Problem
  step_not_mapping missing_id : ℕ → Problem
  duplicate_id unknown_input unknown_step unrecognized_ref : Text → Problem
  missing_subagent missing_prompt : Option Text → Problem
  unknown_subagent unknown_dependency : Option Text → Text → Problem

-- `not isinstance(v, str) or not v.strip()`.
unfoldable pub is_blank : Option Text → Bool
is_blank none = true
is_blank (some v) = is_empty (strip v)

abbrev pub when : Bool → Problem → List Problem
when test problem = if test then problem ∷ [] else []

-- The ids so far, and what is wrong with the id of step `n`.
unfoldable pub check_id : ℕ → Option Text → List Text → List Text × List Problem
check_id n none ids = (ids, missing_id n ∷ [])
check_id n (some sid) ids =
    if is_blank (some sid)
    then (ids, missing_id n ∷ [])
    else if mem_text sid ids
    then (ids, duplicate_id sid ∷ [])
    else (ids ++ sid ∷ [], [])

unfoldable pub check_subagent : Option (List Text) → Option Text → Option Text → List Problem
check_subagent known sid none = missing_subagent sid ∷ []
check_subagent known sid (some subagent) =
    if is_blank (some subagent) then missing_subagent sid ∷ [] else elim known [
      | none ↦ []
      | some names ↦ when (not (mem_text subagent names)) (unknown_subagent sid subagent)
    ]

-- The first loop, from step `n` on.
unfoldable pub check_steps :
    Option (List Text) → ℕ → List (Option RawStep) → List Text → List Text × List Problem
check_steps known n [] ids = (ids, [])
check_steps known n (none ∷ steps) ids =
    let rest = check_steps known (suc n) steps ids in (rest.0, step_not_mapping n ∷ rest.1)
check_steps known n (some s ∷ steps) ids =
    let checked = check_id n s.id ids in
    let rest = check_steps known (suc n) steps checked.0 in
    (
      rest.0,
      checked.1
          ++ (check_subagent known s.id s.subagent
              ++ (when (is_blank s.prompt) (missing_prompt s.id) ++ rest.1)),
    )

unfoldable pub check_step_deps : List Text → Option Text → List Text → List Problem
check_step_deps id_set sid [] = []
check_step_deps id_set sid (dep ∷ deps) =
    when (not (mem_text dep id_set)) (unknown_dependency sid dep) ++ check_step_deps id_set sid deps

unfoldable pub check_deps : List Text → List (Option RawStep) → List Problem
unfolding check_step_deps
check_deps id_set [] = []
check_deps id_set (none ∷ steps) = check_deps id_set steps
check_deps id_set (some s ∷ steps) =
    check_step_deps id_set s.id s.depends_on ++ check_deps id_set steps

-- The graph of `_has_cycle`: the steps that have an id, by it.
unfoldable pub graph_of : List (Option RawStep) → Pending → Pending
graph_of [] graph = graph
graph_of (none ∷ steps) graph = graph_of steps graph
graph_of (some s ∷ steps) graph = elim s.id [
  | none ↦ graph_of steps graph
  | some id ↦ graph_of steps (if is_empty id then graph else insert id s.depends_on graph)
]

unfoldable pub has_cycle : List (Option RawStep) → Bool
unfolding graph_of has_cycle_in
has_cycle steps = has_cycle_in (graph_of steps [])

-- The cycle check, which is made only when nothing else is wrong so far.
unfoldable pub check_cycle : List Problem → List (Option RawStep) → List Problem
unfolding has_cycle
check_cycle [] steps = when (has_cycle steps) dependency_cycle
check_cycle (e ∷ errors) steps = []

-- `_refs`: the references, from left to right; each step takes at least one character.
unfoldable pub refs_fuel : ℕ → Text → List Text
unfolding match_ref
refs_fuel zero s = []
refs_fuel (suc fuel) [] = []
refs_fuel (suc fuel) (c ∷ s) = elim (match_ref (c ∷ s)) [
  | none ↦ refs_fuel fuel s
  | some (ref, rest) ↦ ref ∷ refs_fuel fuel rest
]

-- `_refs(text or "")`.
unfoldable pub refs : Option Text → List Text
unfolding refs_fuel
refs none = []
refs (some text) = refs_fuel (length text) text

abbrev pub input_names : List (Option InputSpec) → List Text
input_names [] = []
input_names (none ∷ specs) = input_names specs
input_names (some spec ∷ specs) = elim spec.name [
  | none ↦ input_names specs
  | some name ↦ name ∷ input_names specs
]

-- `ref[len("steps."):-len(".output")]`.
abbrev pub mid : Text → Text
mid ref = take (length ref - 7 - 6) (drop 6 ref)

unfoldable pub check_ref : List Text → List Text → Text → List Problem
check_ref names id_set ref =
    if starts_with ref (codes "inputs.")
    then when (not (mem_text (drop 7 ref) names)) (unknown_input ref)
    else if starts_with ref (codes "steps.") && ends_with ref (codes ".output")
    then when (not (mem_text (mid ref) id_set)) (unknown_step (mid ref))
    else unrecognized_ref ref ∷ []

unfoldable pub check_refs : List Text → List Text → List Text → List Problem
unfolding check_ref
check_refs names id_set [] = []
check_refs names id_set (ref ∷ more) = check_ref names id_set ref ++ check_refs names id_set more

-- The references of the prompts, then of the output.
unfoldable pub refs_of : List (Option RawStep) → Option Text → List Text
unfolding refs
refs_of [] output = refs output
refs_of (none ∷ steps) output = refs_of steps output
refs_of (some s ∷ steps) output = refs s.prompt ++ refs_of steps output

-- The problems before the cycle check.
unfoldable pub early_problems : Option (List Text) → Recipe → List Problem
unfolding check_steps check_deps
early_problems known r =
    let checked = check_steps known 0 r.steps [] in
    when (is_blank r.name) missing_name ++ (checked.1 ++ check_deps checked.0 r.steps)

-- The problems of a recipe with these steps.
unfoldable pub problems_with : Option (List Text) → Recipe → List (Option RawStep) → List Problem
problems_with known r [] = when (is_blank r.name) missing_name ++ no_steps ∷ []
problems_with known r (s ∷ steps) =
    early_problems known r
    ++ (check_cycle (early_problems known r) r.steps
        ++ check_refs (input_names r.inputs) (check_steps known 0 r.steps []).0
            (refs_of r.steps r.output))

unfoldable pub validate_recipe : Option (List Text) → Option Recipe → List Problem
validate_recipe known none = recipe_not_mapping ∷ []
validate_recipe known (some r) = problems_with known r r.steps

-- The steps as `execute_workflow` reads them; `none` where a key that it looks up is missing.
unfoldable pub as_step : RawStep → Option Step
as_step s = elim s.id [
  | none ↦ none
  | some id ↦ elim s.subagent [
    | none ↦ none
    | some subagent ↦ elim s.prompt [
      | none ↦ none
      | some prompt ↦
          some (record { id = id; subagent = subagent; prompt = prompt; depends_on = s.depends_on })
    ]
  ]
]

unfoldable pub steps_of : List (Option RawStep) → Option (List Step)
steps_of [] = some []
steps_of (none ∷ steps) = none
steps_of (some s ∷ steps) =
    let rest = steps_of steps in
    elim (as_step s) [
      | none ↦ none
      | some step ↦ elim rest [ none ↦ none | some more ↦ some (step ∷ more) ]
    ]
