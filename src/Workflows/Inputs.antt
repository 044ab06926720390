-- ===== src/Workflows/Inputs.antt =====
-- graph/workflows/engine.py: `resolve_inputs`. A provided value is a text, or nothing for `None`; an
-- input without a name is one that lacks the key.
pub mod Given
pub mod Missing
mod Tests
use proto_trader.Prelude.{
  Text, text_eq, text_eq_iff, text_eq_refl, is_empty, mem_text, Bool, true, false, not, ◌&&◌, ◌||◌,
  Option, none, some, List, [], ◌∷◌, ◌++◌, any, if◌then◌else◌, Dict, lookup, insert, lookup-insert,
  ◌≡◌, ◌⊎◌, inl, inr, refl, sym, subst, ◌∙◌, arith, Bool-cases, Option-cases,
}
use proto_trader.Workflows.Validate.{InputSpec}

-- `name in provided and provided[name] not in (None, "")`.
unfoldable pub given : Option (Option Text) → Bool
given none = false
given (some none) = false
given (some (some v)) = not (is_empty v)

abbrev pub value_of : Option (Option Text) → Option Text
value_of none = none
value_of (some v) = v

-- One declared input.
unfoldable pub resolve_spec :
    Dict (Option Text)
    → Text
    → InputSpec
    → Dict (Option Text) × List Text
    → Dict (Option Text) × List Text
resolve_spec provided name spec (resolved, missing) =
    if given (lookup name provided)
    then (insert name (value_of (lookup name provided)) resolved, missing)
    else elim spec.default [
      | some d ↦ (insert name (some d) resolved, missing)
      | none ↦ if spec.required then (resolved, missing ++ name ∷ []) else (resolved, missing)
    ]

unfoldable pub resolve_specs :
    Dict (Option Text)
    → List (Option InputSpec)
    → Dict (Option Text) × List Text
    → Dict (Option Text) × List Text
resolve_specs provided [] state = state
resolve_specs provided (none ∷ specs) state = resolve_specs provided specs state
resolve_specs provided (some spec ∷ specs) state = elim spec.name [
  | none ↦ resolve_specs provided specs state
  | some name ↦ resolve_specs provided specs (resolve_spec provided name spec state)
]

-- `for k, v in provided.items(): resolved.setdefault(k, v)`.
unfoldable pub set_defaults : Dict (Option Text) → Dict (Option Text) → Dict (Option Text)
set_defaults [] resolved = resolved
set_defaults ((k, v) ∷ provided) resolved = elim (lookup k resolved) [
  | some there ↦ set_defaults provided resolved
  | none ↦ set_defaults provided (insert k v resolved)
]

unfoldable pub resolve_inputs :
    List (Option InputSpec) → Dict (Option Text) → Dict (Option Text) × List Text
resolve_inputs specs provided =
    let state = resolve_specs provided specs ([], []) in (set_defaults provided state.0, state.1)
