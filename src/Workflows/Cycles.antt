-- ===== src/Workflows/Cycles.antt =====
-- graph/workflows/engine.py: the depth-first search of `_has_cycle`. A Python set of dependencies is a
-- list, searched in its order. `fuel` bounds the depth of the calls; out of it, the search gives up with
-- the answer `true`.
pub mod Sound
pub mod Ranks
pub mod Total
use proto_trader.Prelude.{
  ℕ, zero, suc, ◌≡◌, refl, Text, Bool, true, false, Option, none, some, List, [], ◌∷◌, map, keep,
  length, ◌==◌, if◌then◌else◌, Dict, lookup, insert,
}
use proto_trader.Workflows.Engine.{Pending, has_key}

-- `state`: 0 is visiting, 1 is done.
abbrev pub Visits : Type 0
Visits = Dict ℕ

-- The search of the nodes in turn, up to the first that finds a cycle, `visit` being the search of one.
unfoldable pub any_visit : (Text → Visits → Visits × Bool) → List Text → Visits → Visits × Bool
any_visit visit [] state = (state, false)
any_visit visit (n ∷ nodes) state = elim (visit n state).1 [
  | true ↦ ((visit n state).0, true)
  | false ↦ any_visit visit nodes (visit n state).0
]

-- `graph.get(node, ())`.
abbrev pub deps_of : Pending → Text → List Text
deps_of graph node = elim (lookup node graph) [ none ↦ [] | some deps ↦ deps ]

-- What `visit` returns for a node that is new, from the search of its dependencies.
unfoldable pub leave : Text → Visits × Bool → Visits × Bool
leave node (state, true) = (state, true)
leave node (state, false) = (insert node 1 state, false)

unfoldable pub visit : ℕ → Pending → Text → Visits → Visits × Bool
visit zero graph node state = (state, true)
visit (suc fuel) graph node state = elim (lookup node state) [
  | some seen ↦ (state, if seen == 1 then false else true)
  | none ↦ leave node (
      any_visit (visit fuel graph) (keep (has_key graph) (deps_of graph node))
        (insert node 0 state))
]

-- `any(visit(n) for n in graph)`.
unfoldable pub has_cycle_in : Pending → Bool
unfolding visit any_visit
has_cycle_in graph = (any_visit (visit (suc (length graph)) graph) (map (λ p. p.0) graph) []).1

pub any_visit_next :
    (search_one : Text → Visits → Visits × Bool) (n : Text) (nodes : List Text) (state : Visits)
    → (search_one n state).1 ≡ false
    → any_visit search_one (n ∷ nodes) state ≡ any_visit search_one nodes (search_one n state).0
unfolding any_visit
any_visit_next search_one n nodes state quiet = rw (quiet, any_visit) refl

pub visit_new :
    (fuel : ℕ) (graph : Pending) (node : Text) (state : Visits)
    → lookup node state ≡ none
    → visit (suc fuel) graph node state
      ≡ leave node (
          any_visit
            (visit fuel graph)
            (keep (has_key graph) (deps_of graph node))
            (insert node 0 state))
unfolding visit
visit_new fuel graph node state new = rw (new, visit) refl

pub visit_seen :
    (fuel : ℕ) (graph : Pending) (node : Text) (state : Visits) (seen : ℕ)
    → lookup node state ≡ some seen
    → visit (suc fuel) graph node state ≡ (state, if seen == 1 then false else true)
unfolding visit
visit_seen fuel graph node state seen e = rw (e, visit) refl
