-- ===== src/Workflows/Inputs/Tests.antt =====
-- graph/workflows/engine.py: `resolve_inputs` on a default, a required input and an extra one.
use proto_trader.Prelude.{
  Text, codes, text_eq, mem_text, Bool, true, false, Option, none, some, List, [], ◌∷◌, any, Dict,
  lookup, insert, ◌≡◌, refl,
}
use proto_trader.Workflows.Validate.{InputSpec}
use proto_trader.Workflows.Inputs.{given, resolve_spec, resolve_specs, set_defaults, resolve_inputs}
use proto_trader.Workflows.Inputs.Given.{resolve_inputs-given}
use proto_trader.Workflows.Inputs.Missing.{lacks, mem_text-resolve_inputs}

abbrev spec : Text → Option Text → Bool → Option InputSpec
spec name default required =
    some (record { name = some name; default = default; required = required })

abbrev specs : List (Option InputSpec)
specs =
    spec (codes "a") (some (codes "x")) false
    ∷ none
    ∷ spec (codes "b") none true
    ∷ spec (codes "c") (some (codes "y")) true
    ∷ []

abbrev provided : Dict (Option Text)
provided = (codes "a", some (codes "mine")) ∷ (codes "b", some []) ∷ (codes "z", none) ∷ []

program : Unit {0}
unfolding resolve_inputs resolve_specs resolve_spec set_defaults given lookup insert text_eq
    mem_text
program = tt

resolve_inputs_runs : resolve_inputs specs provided ≡ (
  (codes "a", some (codes "mine"))
      ∷ (codes "c", some (codes "y"))
      ∷ (codes "b", some [])
      ∷ (codes "z", none)
      ∷ [],
  codes "b" ∷ [],
)
unfolding program
resolve_inputs_runs = refl

resolve_inputs-given_example :
    lookup (codes "a") (resolve_inputs specs provided).0 ≡ lookup (codes "a") provided
resolve_inputs-given_example =
    resolve_inputs-given (codes "a") provided specs (unfold given lookup text_eq in refl)

mem_text-resolve_inputs_example :
    mem_text (codes "b") (resolve_inputs specs provided).1 ≡ any (lacks (codes "b") provided) specs
mem_text-resolve_inputs_example = mem_text-resolve_inputs (codes "b") provided specs
