-- ===== src/Workflows/Cycles/Ranks.antt =====
-- graph/workflows/engine.py: when `_has_cycle` finds nothing, the nodes can be ranked.
use proto_trader.Prelude.{
  ℕ, suc, ◌≤◌, ◌<◌, ◌≡◌, refl, inl, inr, subst, sym, Text, text_eq, text_eq_iff, mem_text,
  mem_text_iff, Has, Bool, true, false, Option, none, some, List, [], ◌∷◌, map, keep, length, arith,
  if◌then◌else◌, lookup, All, Bool-cases,
}
use proto_trader.Workflows.Engine.{Pending, has_key}
use proto_trader.Workflows.Cycles.{deps_of, visit, has_cycle_in}
use proto_trader.Workflows.Cycles.Sound.{Ordered, visit-Done, any_visit-Done}

-- The place of a node in an order, counted from the end.
rank_of : List Text → Text → ℕ
rank_of [] k = 0
rank_of (n ∷ order) k =
    let rest = rank_of order k in
    if mem_text k order then rest else if text_eq n k then suc (length order) else 0

rank_of-le : (order : List Text) (k : Text) → rank_of order k ≤ length order
unfolding rank_of
rank_of-le [] k = omega arith
rank_of-le (n ∷ order) k = ground (arith, rank_of-le order k)

-- The nodes can be ranked so that every node stands above those of its dependencies that are nodes.
abbrev pub Acyclic : Pending → Type 0
Acyclic graph =
    (rank : Text → ℕ) × ((n d : Text) (deps : List Text)
      → lookup n graph ≡ some deps
      → Has d deps
      → has_key graph d ≡ true
      → rank d < rank n)

All-at : (P : Text → Type 0) (xs : List Text) (x : Text) → All P xs → Has x xs → P x
All-at P [] x h i = absurd i
All-at P (y ∷ xs) x (p, ps) (inl e) = subst P (sym e) p
All-at P (y ∷ xs) x (p, ps) (inr h) = All-at P xs x ps h

Has-keep : (p : Text → Bool) (x : Text) (xs : List Text) → Has x xs → p x ≡ true → Has x (keep p xs)
Has-keep p x [] i h = absurd i
Has-keep p x (y ∷ xs) (inl e) h = rw (sym e, h) (inl refl)
Has-keep p x (y ∷ xs) (inr i) h = elim (Bool-cases (p y)) [
  | inl kept ↦ rw kept (inr (Has-keep p x xs i h))
  | inr dropped ↦ rw dropped (Has-keep p x xs i h)
]

Ordered-rank :
    (graph : Pending) (order : List Text) (n d : Text)
    → Ordered graph order
    → Has n order
    → Has d (keep (has_key graph) (deps_of graph n))
    → (Has d order) × (rank_of order d < rank_of order n)
unfolding rank_of
Ordered-rank graph [] n d o has dep = absurd has
Ordered-rank graph (m ∷ order) n d (deps, o) has dep = elim (Bool-cases (mem_text n order)) [
  | inl later ↦
      let (h, below) = Ordered-rank graph order n d o ((mem_text_iff n order).0 later) dep in
      (inr h, ground (arith, later, below, (mem_text_iff d order).1 h))
  | inr here ↦
      let same : m ≡ n = ground (arith, has, here, mem_text_iff n order) in
      let h =
        All-at (λ k. Has k order) (keep (has_key graph) (deps_of graph m)) d deps
          (subst (λ k. Has d (keep (has_key graph) (deps_of graph k))) (sym same) dep) in
      (
        inr h,
        ground
            (arith, here, (text_eq_iff m n).1 same, (mem_text_iff d order).1 h, rank_of-le order d),
      )
]

Has-key :
    (graph : Pending) (n : Text) (deps : List Text)
    → lookup n graph ≡ some deps
    → Has n (map (λ p. p.0) graph)
unfolding lookup
Has-key [] n deps h = cc h
Has-key ((id, ds) ∷ graph) n deps h = elim (Bool-cases (text_eq id n)) [
  | inl same ↦ inl (sym ((text_eq_iff id n).0 same))
  | inr other ↦ inr (Has-key graph n deps (ground (arith, h, other)))
]

pub has_cycle_in-Acyclic : (graph : Pending) → has_cycle_in graph ≡ false → Acyclic graph
unfolding has_cycle_in lookup
has_cycle_in-Acyclic graph quiet =
    let nodes = map (λ p. p.0) graph in
    let (order, l, o, has, keeps) =
      any_visit-Done graph (visit (suc (length graph)) graph)
        (visit-Done graph (suc (length graph))) nodes [] [] (λ k p. cc p) tt quiet in
    (
      rank_of order,
      λ n d deps e dep known.
          (Ordered-rank graph order n d o
            (All-at (λ k. Has k order) nodes n has (Has-key graph n deps e))
            (Has-keep (has_key graph) d (deps_of graph n)
              (subst (λ (x : Option (List Text)). Has d (elim x [ none ↦ [] | some ds ↦ ds ]))
                (sym e) dep)
              known)).1,
    )
