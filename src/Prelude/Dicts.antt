-- ===== src/Prelude/Dicts.antt =====
-- Python's `dict` with text keys: an association list in insertion order. Setting a key that is
-- there keeps its place.
use mathlib.Core.Path.{◌≡◌, refl}
use mathlib.Core.List.{List, [], ◌∷◌}
use mathlib.Core.Option.{Option, none, some}
use native.Mathlib.Omega.{arith}
use mathlib.Core.Logic.{inl, inr}
use proto_trader.Prelude.Tests.{if◌then◌else◌, Bool-cases}
use proto_trader.Prelude.Texts.{Text, text_eq, text_eq_iff}

abbrev pub Dict {ℓ} : Type ℓ → Type ℓ
Dict V = List (Text × V)

module _ {ℓ} {V : Type ℓ} where
  -- `d.get(k)`.
  unfoldable pub lookup : Text → Dict V → Option V
  lookup k [] = none
  lookup k ((j, v) ∷ d) = if text_eq j k then some v else lookup k d

  -- `d[k] = v`.
  unfoldable pub insert : Text → V → Dict V → Dict V
  insert k v [] = (k, v) ∷ []
  insert k v ((j, w) ∷ d) = if text_eq j k then (j, v) ∷ d else (j, w) ∷ insert k v d

  -- `d.pop(k, None)`.
  unfoldable pub remove : Text → Dict V → Dict V
  remove k [] = []
  remove k ((j, v) ∷ d) = let rest = remove k d in if text_eq j k then rest else (j, v) ∷ rest

  pub lookup-insert :
      (k j : Text) (v : V) (d : Dict V)
      → lookup j (insert k v d) ≡ (if text_eq k j then some v else lookup j d)
  unfolding lookup insert
  lookup-insert k j v [] = refl
  lookup-insert k j v ((i, w) ∷ d) =
      ground (arith, text_eq_iff k j, text_eq_iff i k, text_eq_iff i j, lookup-insert k j v d)

  pub lookup-remove :
      (k j : Text) (d : Dict V) → lookup j (remove k d) ≡ (if text_eq k j then none else lookup j d)
  unfolding lookup remove
  lookup-remove k j [] = ground arith
  lookup-remove k j ((i, w) ∷ d) =
      ground (arith, text_eq_iff k j, text_eq_iff i k, text_eq_iff i j, lookup-remove k j d)

  -- Every key stands in one place.
  abbrev pub IsUnique : Dict V → Type ℓ
  IsUnique [] = Unit
  IsUnique ((k, v) ∷ d) = (lookup k d ≡ none) × IsUnique d

  pub insert-IsUnique : (k : Text) (v : V) (d : Dict V) → IsUnique d → IsUnique (insert k v d)
  unfolding lookup insert
  insert-IsUnique k v [] u = (refl, tt)
  insert-IsUnique k v ((j, w) ∷ d) (new, u) = elim (Bool-cases (text_eq j k)) [
    | inl same ↦ rw (same, insert) (new, u)
    | inr other ↦
        rw (other, insert)
          (
            ground (arith, new, other, lookup-insert k j v d, text_eq_iff k j, text_eq_iff j k),
            insert-IsUnique k v d u,
          )
  ]

  pub remove-IsUnique : (k : Text) (d : Dict V) → IsUnique d → IsUnique (remove k d)
  unfolding lookup remove
  remove-IsUnique k [] u = tt
  remove-IsUnique k ((j, w) ∷ d) (new, u) = elim (Bool-cases (text_eq j k)) [
    | inl same ↦ rw (same, remove) (remove-IsUnique k d u)
    | inr other ↦
        rw (other, remove) (ground (arith, new, lookup-remove k j d), remove-IsUnique k d u)
  ]
