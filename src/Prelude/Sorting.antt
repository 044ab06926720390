-- ===== src/Prelude/Sorting.antt =====
-- `ORDER BY` and `sorted`: a stable insertion sort by a Boolean order.
use mathlib.Core.Path.{◌≡◌}
use mathlib.Core.Logic.{inl, inr}
use mathlib.Core.Bool.{Bool, true, false}
use mathlib.Core.List.Perm
use mathlib.Core.List.{List, [], ◌∷◌, Perm}
use native.Mathlib.Omega.{arith}
use proto_trader.Prelude.Lists.{All}
use proto_trader.Prelude.Tests.{if◌then◌else◌, Bool-cases}

module _ {ℓ} {A : Type ℓ} (le : A → A → Bool) where
  -- Each element is in order with the next.
  abbrev pub IsOrdered : List A → Type 0
  IsOrdered [] = Unit
  IsOrdered (x ∷ []) = Unit
  IsOrdered (x ∷ y ∷ l) = (le x y ≡ true) × IsOrdered (y ∷ l)

  -- Before the first element that it is in order with.
  unfoldable pub insert_by : A → List A → List A
  insert_by x [] = x ∷ []
  insert_by x (y ∷ l) = if le x y then x ∷ y ∷ l else y ∷ insert_by x l

  unfoldable pub sort_by : List A → List A
  unfolding insert_by
  sort_by [] = []
  sort_by (x ∷ l) = insert_by x (sort_by l)

  insert_by-perm : (x : A) (l : List A) → Perm (insert_by x l) (x ∷ l)
  unfolding insert_by
  insert_by-perm x [] = Perm.refl (x ∷ [])
  insert_by-perm x (y ∷ l) = elim (Bool-cases (le x y)) [
    | inl here ↦ rw here (Perm.refl (x ∷ y ∷ l))
    | inr later ↦ rw later (Perm.trans (Perm.cons y (insert_by-perm x l)) (Perm.swap x y l))
  ]

  pub sort_by-perm : (l : List A) → Perm (sort_by l) l
  unfolding sort_by
  sort_by-perm [] = Perm.refl []
  sort_by-perm (x ∷ l) = Perm.trans (insert_by-perm x (sort_by l)) (Perm.cons x (sort_by-perm l))

  All-insert_by {κ} : (P : A → Type κ) (x : A) (l : List A) → P x → All P l → All P (insert_by x l)
  unfolding insert_by
  All-insert_by P x [] p h = (p, tt)
  All-insert_by P x (y ∷ l) p (q, h) = elim (Bool-cases (le x y)) [
    | inl here ↦ rw here (p, (q, h))
    | inr later ↦ rw later (q, All-insert_by P x l p h)
  ]

  pub All-sort_by {κ} : (P : A → Type κ) (l : List A) → All P l → All P (sort_by l)
  unfolding sort_by
  All-sort_by P [] h = tt
  All-sort_by P (x ∷ l) (p, h) = All-insert_by P x (sort_by l) p (All-sort_by P l h)

  module _ (total : (x y : A) → le x y ≡ false → le y x ≡ true) where
    insert_by-IsOrdered : (x : A) (l : List A) → IsOrdered l → IsOrdered (insert_by x l)
    unfolding insert_by
    insert_by-IsOrdered x [] o = tt
    insert_by-IsOrdered x (y ∷ []) o = ground (arith, total x y)
    insert_by-IsOrdered x (y ∷ z ∷ l) o =
        ground (arith, total x y, total x z, insert_by-IsOrdered x (z ∷ l) o.1)

    pub sort_by-IsOrdered : (l : List A) → IsOrdered (sort_by l)
    unfolding sort_by
    sort_by-IsOrdered [] = tt
    sort_by-IsOrdered (x ∷ l) = insert_by-IsOrdered x (sort_by l) (sort_by-IsOrdered l)
