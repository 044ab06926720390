-- ===== src/Beads/Fresh.antt =====
-- beads/store.py: a new issue's id stands in no row.
use proto_trader.Prelude.{
  ℕ, ◌≤◌, ◌<◌, ◌≡◌, refl, inl, inr, ap, subst, sym, Text, codes, text_eq, text_eq_iff,
  is_empty-show, all-is_digit-show, read-show, show, none, some, List, [], ◌∷◌, ◌++◌, arith,
  Bool-cases, Option-cases, lower, starts_with,
}
use proto_trader.Tags.{starts_ci}
use proto_trader.Beads.{Issue, id_number, numbers, next_number, next_id, get}

id_number-show : (n : ℕ) → id_number (codes "bd-" ++ show n) ≡ some n
unfolding id_number starts_ci lower starts_with
id_number-show n = rw (is_empty-show n, all-is_digit-show n) (ap some (read-show n))

le-next_number : (m : ℕ) (ns : List ℕ) → m < next_number (m ∷ ns)
le-next_number m [] = omega arith
le-next_number m (n ∷ ns) = omega arith

next_number_mono : (m : ℕ) (ns : List ℕ) → next_number ns ≤ next_number (m ∷ ns)
next_number_mono m [] = omega arith
next_number_mono m (n ∷ ns) = omega arith

numbers-none :
    (r : Issue) (rows : List Issue) → id_number r.id ≡ none → numbers (r ∷ rows) ≡ numbers rows
unfolding numbers
numbers-none r rows e = rw (e, numbers) refl

numbers-some :
    (r : Issue) (rows : List Issue) (n : ℕ)
    → id_number r.id ≡ some n
    → numbers (r ∷ rows) ≡ n ∷ numbers rows
unfolding numbers
numbers-some r rows n e = rw (e, numbers) refl

-- A row that is found has a smaller number than the next one, if it has one.
get-numbers :
    (id : Text) (rows : List Issue) (r : Issue) (n : ℕ)
    → get id rows ≡ some r
    → id_number id ≡ some n
    → n < next_number (numbers rows)
unfolding get
get-numbers id [] r n h e = cc h
get-numbers id (s ∷ rows) r n h e = elim (Bool-cases (text_eq s.id id)) [
  | inl same ↦
      let own = subst (λ k. id_number k ≡ some n) (sym ((text_eq_iff s.id id).0 same)) e in
      subst (λ (ns : List ℕ). n < next_number ns) (sym (numbers-some s rows n own))
        (le-next_number n (numbers rows))
  | inr other ↦
      let below = get-numbers id rows r n (ground (arith, h, other)) e in
      elim (Option-cases (id_number s.id)) [
        | inl plain ↦
            subst (λ (ns : List ℕ). n < next_number ns) (sym (numbers-none s rows plain)) below
        | inr (m, k) ↦
            subst (λ (ns : List ℕ). n < next_number ns) (sym (numbers-some s rows m k))
              (omega (arith, next_number_mono m (numbers rows), below))
      ]
]

pub get-next_id : (rows : List Issue) → get (next_id rows) rows ≡ none
unfolding next_id
get-next_id rows =
    elim (Option-cases (get (codes "bd-" ++ show (next_number (numbers rows))) rows)) [
      | inl free ↦ free
      | inr (r, e) ↦ absurd (
          omega (
            arith,
            get-numbers _ rows r (next_number (numbers rows)) e
                (id_number-show (next_number (numbers rows))),
          ))
    ]
