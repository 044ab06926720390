-- ===== src/Workflows/Inputs/Missing.antt =====
-- graph/workflows/engine.py: which inputs are reported missing.
use proto_trader.Prelude.{
  Text, text_eq, mem_text, Bool, true, false, not, ◌&&◌, ◌||◌, Option, none, some, List, [], ◌∷◌,
  ◌++◌, any, Dict, lookup, ◌≡◌, inl, inr, arith, Bool-cases, Option-cases,
}
use proto_trader.Workflows.Validate.{InputSpec}
use proto_trader.Workflows.Inputs.{given, resolve_spec, resolve_specs, resolve_inputs}

module _ (k : Text) (provided : Dict (Option Text)) where
  mem_text-append :
      (names : List Text) (name : Text)
      → mem_text k (names ++ name ∷ []) ≡ (mem_text k names || text_eq k name)
  unfolding mem_text
  mem_text-append [] name = ground arith
  mem_text-append (n ∷ names) name = ground (arith, mem_text-append names name)

  -- Whether the input has this name and must be provided but is not.
  abbrev pub needs : Text → InputSpec → Bool
  needs name spec =
      text_eq k name
      && (spec.required
          && (not (given (lookup name provided))
              && elim spec.default [ none ↦ true | some d ↦ false ]))

  abbrev pub lacks : Option InputSpec → Bool
  lacks none = false
  lacks (some spec) = elim spec.name [ none ↦ false | some name ↦ needs name spec ]

  resolve_spec-missing :
      (name : Text) (spec : InputSpec) (resolved : Dict (Option Text)) (missing : List Text)
      → mem_text k (resolve_spec provided name spec (resolved, missing)).1
        ≡ (mem_text k missing || needs name spec)
  unfolding resolve_spec
  resolve_spec-missing name spec resolved missing =
      elim (Bool-cases (given (lookup name provided))) [
        | inl g ↦ rw (g, resolve_spec) (ground (arith, g))
        | inr absent ↦ elim (Option-cases spec.default) [
          | inl without ↦ elim (Bool-cases spec.required) [
            | inl needed ↦
                rw (absent, without, needed, resolve_spec)
                  (ground (arith, absent, without, needed, mem_text-append missing name))
            | inr free ↦
                rw (absent, without, free, resolve_spec) (ground (arith, absent, without, free))
          ]
          | inr (d, e) ↦ rw (absent, e, resolve_spec) (ground (arith, absent, e))
        ]
      ]

  resolve_specs-missing :
      (specs : List (Option InputSpec)) (state : Dict (Option Text) × List Text)
      → mem_text k (resolve_specs provided specs state).1 ≡ (mem_text k state.1 || any lacks specs)
  unfolding resolve_specs
  resolve_specs-missing [] state = ground arith
  resolve_specs-missing (none ∷ specs) state = resolve_specs-missing specs state
  resolve_specs-missing (some spec ∷ specs) (resolved, missing) = elim (Option-cases spec.name) [
    | inl nameless ↦
        rw (nameless, resolve_specs)
          (ground (arith, nameless, resolve_specs-missing specs (resolved, missing)))
    | inr (name, e) ↦
        rw (e, resolve_specs)
          (ground (
            arith,
            e,
            resolve_spec-missing name spec resolved missing,
            resolve_specs-missing specs (resolve_spec provided name spec (resolved, missing)),
          ))
  ]

  -- An input is reported missing exactly when it is declared as required, without a default, and no
  -- value for it is provided, `None` and the empty text counting as none.
  pub mem_text-resolve_inputs :
      (specs : List (Option InputSpec))
      → mem_text k (resolve_inputs specs provided).1 ≡ any lacks specs
  unfolding resolve_inputs mem_text
  mem_text-resolve_inputs specs = resolve_specs-missing specs ([], [])
