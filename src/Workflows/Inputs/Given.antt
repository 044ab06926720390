-- ===== src/Workflows/Inputs/Given.antt =====
-- graph/workflows/engine.py: a provided value is the resolved one.
use proto_trader.Prelude.{
  Text, text_eq, text_eq_iff, text_eq_refl, true, false, Option, none, some, List, [], ◌∷◌, Dict,
  lookup, insert, lookup-insert, ◌≡◌, ◌⊎◌, inl, inr, refl, sym, subst, ◌∙◌, arith, Bool-cases,
  Option-cases,
}
use proto_trader.Workflows.Validate.{InputSpec}
use proto_trader.Workflows.Inputs.{
  given, value_of, resolve_spec, resolve_specs, set_defaults, resolve_inputs,
}

lookup-set_defaults :
    (k : Text) (provided resolved : Dict (Option Text))
    → lookup k (set_defaults provided resolved)
      ≡ elim (lookup k resolved) [ some v ↦ some v | none ↦ lookup k provided ]
unfolding set_defaults lookup
lookup-set_defaults k [] resolved = ground arith
lookup-set_defaults k ((j, v) ∷ provided) resolved = elim (Option-cases (lookup j resolved)) [
  | inl absent ↦
      rw (absent, set_defaults)
        (ground (
          arith,
          absent,
          lookup-set_defaults k provided (insert j v resolved),
          lookup-insert j k v resolved,
          text_eq_iff j k,
        ))
  | inr (w, e) ↦
      rw (e, set_defaults)
        (ground (arith, e, lookup-set_defaults k provided resolved, text_eq_iff j k))
]

module _ (k : Text) (provided : Dict (Option Text)) where
  -- The input has no value yet, or the provided one.
  abbrev Agrees : Dict (Option Text) → Type 0
  Agrees resolved = (lookup k resolved ≡ none) ⊎ (lookup k resolved ≡ lookup k provided)

  own_value : (o : Option (Option Text)) → given o ≡ true → some (value_of o) ≡ o
  unfolding given
  own_value none g = cc g
  own_value (some v) g = refl

  resolve_spec_own :
      (spec : InputSpec) (resolved : Dict (Option Text)) (missing : List Text)
      → given (lookup k provided) ≡ true
      → lookup k (resolve_spec provided k spec (resolved, missing)).0 ≡ lookup k provided
  unfolding resolve_spec
  resolve_spec_own spec resolved missing g =
      rw (g, resolve_spec)
        (ground (
          arith,
          lookup-insert k k (value_of (lookup k provided)) resolved,
          text_eq_refl k,
          own_value (lookup k provided) g,
        ))

  resolve_spec_away :
      (name : Text) (spec : InputSpec) (resolved : Dict (Option Text)) (missing : List Text)
      → text_eq name k ≡ false
      → lookup k (resolve_spec provided name spec (resolved, missing)).0 ≡ lookup k resolved
  unfolding resolve_spec
  resolve_spec_away name spec resolved missing away =
      elim (Bool-cases (given (lookup name provided))) [
        | inl g ↦
            rw (g, resolve_spec)
              (ground
                (arith, away, lookup-insert name k (value_of (lookup name provided)) resolved))
        | inr absent ↦ elim (Option-cases spec.default) [
          | inl without ↦ elim (Bool-cases spec.required) [
            | inl needed ↦ rw (absent, without, needed, resolve_spec) refl
            | inr free ↦ rw (absent, without, free, resolve_spec) refl
          ]
          | inr (d, e) ↦
              rw (absent, e, resolve_spec)
                (ground (arith, away, lookup-insert name k (some d) resolved))
        ]
      ]

  resolve_spec-Agrees :
      (name : Text) (spec : InputSpec) (resolved : Dict (Option Text)) (missing : List Text)
      → given (lookup k provided) ≡ true
      → Agrees resolved
      → Agrees (resolve_spec provided name spec (resolved, missing)).0
  resolve_spec-Agrees name spec resolved missing g a = elim (Bool-cases (text_eq name k)) [
    | inl same ↦ inr (
        subst
          (λ n. lookup k (resolve_spec provided n spec (resolved, missing)).0 ≡ lookup k provided)
          (sym ((text_eq_iff name k).0 same)) (resolve_spec_own spec resolved missing g))
    | inr away ↦ elim a [
      | inl none_yet ↦ inl (resolve_spec_away name spec resolved missing away ∙ none_yet)
      | inr there ↦ inr (resolve_spec_away name spec resolved missing away ∙ there)
    ]
  ]

  resolve_specs-Agrees :
      (specs : List (Option InputSpec)) (state : Dict (Option Text) × List Text)
      → given (lookup k provided) ≡ true
      → Agrees state.0
      → Agrees (resolve_specs provided specs state).0
  unfolding resolve_specs
  resolve_specs-Agrees [] state g a = a
  resolve_specs-Agrees (none ∷ specs) state g a = resolve_specs-Agrees specs state g a
  resolve_specs-Agrees (some spec ∷ specs) (resolved, missing) g a = elim (Option-cases spec.name) [
    | inl nameless ↦
        rw (nameless, resolve_specs) (resolve_specs-Agrees specs (resolved, missing) g a)
    | inr (name, e) ↦
        rw (e, resolve_specs)
          (resolve_specs-Agrees specs (resolve_spec provided name spec (resolved, missing)) g
            (resolve_spec-Agrees name spec resolved missing g a))
  ]

  -- A provided value that is neither `None` nor empty is the resolved one, whatever defaults the
  -- recipe declares for it and however often.
  pub resolve_inputs-given :
      (specs : List (Option InputSpec))
      → given (lookup k provided) ≡ true
      → lookup k (resolve_inputs specs provided).0 ≡ lookup k provided
  unfolding resolve_inputs
  resolve_inputs-given specs g =
      let resolved = (resolve_specs provided specs ([], [])).0 in
      elim (resolve_specs-Agrees specs ([], []) g (inl (unfold lookup in refl))) [
        | inl absent ↦ ground (arith, absent, lookup-set_defaults k provided resolved)
        | inr there ↦
            lookup-set_defaults k provided resolved
            ∙ ground (arith, there, own_value (lookup k provided) g)
      ]
