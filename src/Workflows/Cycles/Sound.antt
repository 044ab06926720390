-- ===== src/Workflows/Cycles/Sound.antt =====
-- graph/workflows/engine.py: a graph in which `_has_cycle` finds nothing has an order.
use proto_trader.Prelude.{
  ℕ, zero, suc, ◌≡◌, refl, inl, inr, subst, sym, Text, text_eq_iff, Has, Bool, true, false, some,
  List, [], ◌∷◌, keep, arith, lookup, insert, lookup-insert, All, Bool-cases, Option-cases,
}
use proto_trader.Workflows.Engine.{Pending, has_key}
use proto_trader.Workflows.Cycles.{
  Visits, any_visit, deps_of, leave, visit, any_visit_next, visit_new, visit_seen,
}

-- The nodes that are done are in the list.
abbrev pub Listed : Visits → List Text → Type 0
Listed state order = (k : Text) → lookup k state ≡ some 1 → Has k order

module _ (graph : Pending) where
  -- Each node's dependencies in the graph come later in the list.
  abbrev pub Ordered : List Text → Type 0
  Ordered [] = Unit
  Ordered (n ∷ order) =
      All (λ d. Has d order) (keep (has_key graph) (deps_of graph n)) × Ordered order

  -- What a search without a cycle leaves: an order of what is done, with the nodes searched in it.
  abbrev pub Done : List Text → List Text → Visits → Type 0
  Done nodes order state =
      (order' : List Text) × Listed state order'
      × Ordered order'
      × All (λ n. Has n order') nodes
      × ((k : Text) → Has k order → Has k order')

  pub any_visit-Done :
      (find : Text → Visits → Visits × Bool)
      → ((n : Text) (state : Visits) (order : List Text)
          → Listed state order
          → Ordered order
          → (find n state).1 ≡ false
          → Done (n ∷ []) order (find n state).0)
      → (nodes : List Text) (state : Visits) (order : List Text) → Listed state order
      → Ordered order
      → (any_visit find nodes state).1 ≡ false
      → Done nodes order (any_visit find nodes state).0
  unfolding any_visit
  any_visit-Done find one [] state order l o h = (order, l, o, tt, λ k p. p)
  any_visit-Done find one (n ∷ nodes) state order l o h = elim (Bool-cases (find n state).1) [
    | inl found ↦ absurd (ground (arith, h, found))
    | inr quiet ↦
        let next = any_visit_next find n nodes state quiet in
        let (order1, l1, o1, has1, keeps1) = one n state order l o quiet in
        let (order2, l2, o2, has2, keeps2) =
          any_visit-Done find one nodes (find n state).0 order1 l1 o1 (ground (arith, h, quiet)) in
        subst (λ (r : Visits × Bool). Done (n ∷ nodes) order r.0) (sym next)
          (order2, l2, o2, (keeps2 n has1.0, has2), λ k p. keeps2 k (keeps1 k p))
  ]

  leave-Done :
      (node : Text) (order : List Text) (r : Visits × Bool)
      → (r.1 ≡ false → Done (keep (has_key graph) (deps_of graph node)) order r.0)
      → (leave node r).1 ≡ false
      → Done (node ∷ []) order (leave node r).0
  unfolding leave
  leave-Done node order (state, true) f h = cc h
  leave-Done node order (state, false) f h =
      let (order', l, o, has, keeps) = f refl in
      (
        node ∷ order',
        λ k p. ground (arith, p, l k, lookup-insert node k 1 state, text_eq_iff node k),
        (has, o),
        (inl refl, tt),
        λ k p. inr (keeps k p),
      )

  pub visit-Done :
      (fuel : ℕ) (node : Text) (state : Visits) (order : List Text)
      → Listed state order
      → Ordered order
      → (visit fuel graph node state).1 ≡ false
      → Done (node ∷ []) order (visit fuel graph node state).0
  unfolding visit
  visit-Done zero node state order l o h = cc h
  visit-Done (suc fuel) node state order l o h = elim (Option-cases (lookup node state)) [
    | inl new ↦
        let inner =
          any_visit (visit fuel graph) (keep (has_key graph) (deps_of graph node))
            (insert node 0 state) in
        subst (λ (r : Visits × Bool). Done (node ∷ []) order r.0)
          (sym (visit_new fuel graph node state new))
          (leave-Done node order inner
            (any_visit-Done (visit fuel graph) (visit-Done fuel)
              (keep (has_key graph) (deps_of graph node)) (insert node 0 state) order
              (λ k p. ground (arith, p, l k, lookup-insert node k 0 state)) o)
            (subst (λ (r : Visits × Bool). r.1 ≡ false) (visit_new fuel graph node state new) h))
    | inr (seen, e) ↦
        subst (λ (r : Visits × Bool). Done (node ∷ []) order r.0)
          (sym (visit_seen fuel graph node state seen e))
          (
            order,
            l,
            o,
            (l node (ground (arith, e, h, visit_seen fuel graph node state seen e)), tt),
            λ k p. p,
          )
  ]
