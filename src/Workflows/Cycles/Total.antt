-- ===== src/Workflows/Cycles/Total.antt =====
-- graph/workflows/engine.py: `_has_cycle` finds nothing in a graph that can be ranked, and its calls
-- go no deeper than there are nodes.
use proto_trader.Prelude.{
  ℕ, zero, suc, ◌≤◌, ◌<◌, ◌≡◌, refl, inl, inr, subst, sym, Text, text_eq, text_eq_iff, text_eq_refl,
  ◌↔◌, Has, Bool, true, false, not, Option, none, some, List, [], ◌∷◌, map, keep, count, length,
  arith, ◌==◌, lookup, insert, lookup-insert, All, Bool-cases, Option-cases,
}
use proto_trader.Workflows.Engine.{Pending, has_key}
use proto_trader.Workflows.Engine.Skips.{has_key-insert}
use proto_trader.Workflows.Cycles.{
  Visits, any_visit, deps_of, leave, visit, has_cycle_in, any_visit_next, visit_new, visit_seen,
}
use proto_trader.Workflows.Cycles.Ranks.{Acyclic, has_cycle_in-Acyclic}

-- How many nodes have not been visited.
unvisited : Pending → Visits → ℕ
unvisited graph state = count (λ p. not (has_key state p.0)) graph

unvisited-insert-le :
    (graph : Pending) (n : Text) (v : ℕ) (state : Visits)
    → unvisited graph (insert n v state) ≤ unvisited graph state
unfolding unvisited
unvisited-insert-le [] n v state = omega arith
unvisited-insert-le ((id, deps) ∷ graph) n v state =
    ground (arith, unvisited-insert-le graph n v state, has_key-insert id n v state)

unvisited-insert-lt :
    (graph : Pending) (n : Text) (v : ℕ) (state : Visits)
    → has_key graph n ≡ true
    → has_key state n ≡ false
    → unvisited graph (insert n v state) < unvisited graph state
unfolding unvisited lookup
unvisited-insert-lt [] n v state node new = cc node
unvisited-insert-lt ((id, deps) ∷ graph) n v state node new = elim (Bool-cases (text_eq id n)) [
  | inl same ↦
      let e : id ≡ n = (text_eq_iff id n).0 same in
      let fresh : has_key state id ≡ false = subst (λ k. has_key state k ≡ false) (sym e) new in
      ground (
        arith,
        fresh,
        has_key-insert id n v state,
        (text_eq_iff n id).1 (sym e),
        unvisited-insert-le graph n v state,
      )
  | inr other ↦ ground (
    arith,
    has_key-insert id n v state,
    unvisited-insert-le graph n v state,
    unvisited-insert-lt graph n v state (ground (arith, node, other)) new,
  )
]

module _ (graph : Pending) (rank : Text → ℕ) where
  -- The node ranks below everything that is being visited.
  abbrev Above : Visits → Text → Type 0
  Above state n = (k : Text) (v : ℕ) → lookup k state ≡ some v → (v == 1) ≡ false → rank n < rank k

  -- No cycle was found, and what is being visited is as before.
  abbrev Quiet : Visits → Visits × Bool → Type 0
  Quiet state (state', found) =
      (found ≡ false)
      × ((k : Text) (v : ℕ) → lookup k state' ≡ some v → (v == 1) ≡ false → lookup k state ≡ some v)
      × (unvisited graph state' ≤ unvisited graph state)

  any_visit-Quiet :
      (fuel : ℕ) (find : Text → Visits → Visits × Bool)
      → ((n : Text) (state : Visits)
          → has_key graph n ≡ true
          → Above state n
          → unvisited graph state < fuel
          → Quiet state (find n state))
      → (nodes : List Text) (state : Visits)
      → All (λ n. (has_key graph n ≡ true) × Above state n) nodes
      → unvisited graph state < fuel
      → Quiet state (any_visit find nodes state)
  unfolding any_visit
  any_visit-Quiet fuel find one [] state a lt = (refl, λ k v e u. e, omega arith)
  any_visit-Quiet fuel find one (n ∷ nodes) state ((node, above), a) lt =
      let (quiet, same, le) = one n state node above lt in
      let (quiet2, same2, le2) =
        any_visit-Quiet fuel find one nodes (find n state).0 (go nodes same a)
          (omega (arith, lt, le)) in
      subst (Quiet state) (sym (any_visit_next find n nodes state quiet))
        (quiet2, λ k v e u. same k v (same2 k v e u) u, omega (arith, le, le2))
    where
      go :
          (ns : List Text)
          → ((k : Text) (v : ℕ)
              → lookup k (find n state).0 ≡ some v
              → (v == 1) ≡ false
              → lookup k state ≡ some v)
          → All (λ m. (has_key graph m ≡ true) × Above state m) ns
          → All (λ m. (has_key graph m ≡ true) × Above (find n state).0 m) ns
      go [] same a = tt
      go (m ∷ ns) same ((node, above), a) =
          ((node, λ k v e u. above k v (same k v e u) u), go ns same a)

  leave-Quiet :
      (node : Text) (state : Visits) (r : Visits × Bool)
      → unvisited graph (insert node 0 state) ≤ unvisited graph state
      → Quiet (insert node 0 state) r
      → Quiet state (leave node r)
  unfolding leave
  leave-Quiet node state (state', true) le0 (quiet, same, le) = cc quiet
  leave-Quiet node state (state', false) le0 (quiet, same, le) = (
    refl,
    λ k v e u.
        ground (arith, e, u, same k v, lookup-insert node k 1 state', lookup-insert node k 0 state),
    omega (arith, unvisited-insert-le graph node 1 state', le, le0),
  )

  module _
      (below : (n d : Text) (deps : List Text)
        → lookup n graph ≡ some deps
        → Has d deps
        → has_key graph d ≡ true
        → rank d < rank n) where
    deps-below :
        (n : Text)
        → All
            (λ d. (has_key graph d ≡ true) × (rank d < rank n))
            (keep (has_key graph) (deps_of graph n))
    deps-below n = pick (lookup n graph) refl
      where
        go :
            (ds : List Text)
            → ((d : Text) → Has d ds → has_key graph d ≡ true → rank d < rank n)
            → All (λ d. (has_key graph d ≡ true) × (rank d < rank n)) (keep (has_key graph) ds)
        go [] f = tt
        go (d ∷ ds) f = elim (Bool-cases (has_key graph d)) [
          | inl known ↦ rw known ((known, f d (inl refl) known), go ds (λ k h. f k (inr h)))
          | inr other ↦ rw other (go ds (λ k h. f k (inr h)))
        ]

        pick :
            (o : Option (List Text))
            → lookup n graph ≡ o
            → All
                (λ d. (has_key graph d ≡ true) × (rank d < rank n))
                (keep (has_key graph) (elim o [ none ↦ [] | some deps ↦ deps ]))
        pick none e = tt
        pick (some deps) e = go deps (λ d h known. below n d deps e h known)

    Above-deps :
        (node : Text) (state : Visits) (ds : List Text)
        → Above state node
        → All (λ d. (has_key graph d ≡ true) × (rank d < rank node)) ds
        → All (λ d. (has_key graph d ≡ true) × Above (insert node 0 state) d) ds
    Above-deps node state [] above a = tt
    Above-deps node state (d ∷ ds) above ((known, lt), a) = (
      (
        known,
        λ k v e u.
            ground (arith, e, u, lt, above k v, lookup-insert node k 0 state, text_eq_iff node k),
      ),
      Above-deps node state ds above a,
    )

    visit-Quiet :
        (fuel : ℕ) (node : Text) (state : Visits)
        → has_key graph node ≡ true
        → Above state node
        → unvisited graph state < fuel
        → Quiet state (visit fuel graph node state)
    visit-Quiet zero node state known above lt = absurd (omega (arith, lt))
    visit-Quiet (suc fuel) node state known above lt = elim (Option-cases (lookup node state)) [
      | inl new ↦
          let fresh = unvisited-insert-lt graph node 0 state known (ground (arith, new)) in
          subst (Quiet state) (sym (visit_new fuel graph node state new)) (
            leave-Quiet node state _ (omega (arith, fresh)) (
              any_visit-Quiet fuel (visit fuel graph) (visit-Quiet fuel)
                (keep (has_key graph) (deps_of graph node)) (insert node 0 state)
                (Above-deps node state _ above (deps-below node)) (omega (arith, fresh, lt))))
      | inr (seen, e) ↦
          subst (Quiet state) (sym (visit_seen fuel graph node state seen e))
            (ground (arith, above node seen e), λ k v h u. h, omega arith)
    ]

has_key-cons :
    (n id : Text) (deps : List Text) (graph : Pending)
    → has_key graph n ≡ true
    → has_key ((id, deps) ∷ graph) n ≡ true
unfolding lookup
has_key-cons n id deps graph h = ground (arith, h)

has_key-keys :
    (graph all_nodes : Pending)
    → ((n : Text) → has_key graph n ≡ true → has_key all_nodes n ≡ true)
    → All (λ n. has_key all_nodes n ≡ true) (map (λ p. p.0) graph)
unfolding lookup
has_key-keys [] all_nodes f = tt
has_key-keys ((id, deps) ∷ graph) all_nodes f = (
  f id (ground (arith, text_eq_refl id)),
  has_key-keys graph all_nodes (λ n h. f n (has_key-cons n id deps graph h)),
)

unvisited-none : (graph : Pending) → unvisited graph [] ≡ length graph
unfolding unvisited lookup
unvisited-none [] = refl
unvisited-none (p ∷ graph) = ground (arith, unvisited-none graph)

keys-Above :
    (graph : Pending) (rank : Text → ℕ) (nodes : List Text)
    → All (λ n. has_key graph n ≡ true) nodes
    → All (λ n. (has_key graph n ≡ true) × Above graph rank [] n) nodes
unfolding lookup
keys-Above graph rank [] a = tt
keys-Above graph rank (n ∷ nodes) (known, a) =
    ((known, λ k v e u. cc e), keys-Above graph rank nodes a)

Acyclic→quiet : (graph : Pending) → Acyclic graph → has_cycle_in graph ≡ false
unfolding has_cycle_in
Acyclic→quiet graph (rank, below) =
    (any_visit-Quiet graph rank (suc (length graph)) (visit (suc (length graph)) graph)
      (visit-Quiet graph rank below (suc (length graph))) (map (λ p. p.0) graph) []
      (keys-Above graph rank _ (has_key-keys graph graph (λ n h. h)))
      (omega (arith, unvisited-none graph))).0

-- The search finds no cycle exactly when the nodes can be ranked so that every node stands above
-- those of its dependencies that are nodes. So it never runs out of the depth that it is given.
pub has_cycle_in_iff : (graph : Pending) → (has_cycle_in graph ≡ false) ↔ Acyclic graph
has_cycle_in_iff graph = (has_cycle_in-Acyclic graph, Acyclic→quiet graph)
