-- ===== src/Workflows/Validate/Whole.antt =====
-- graph/workflows/engine.py: a recipe that `validate_recipe` passes is run whole by `execute_workflow`.
use proto_trader.Prelude.{
  ℕ, ◌<◌, ◌≡◌, refl, inl, inr, ◌∙◌, subst, ap, Text, mem_text, mem_text_iff, append-Has, Has, true,
  false, Option, some, List, [], ◌∷◌, ◌++◌, map, arith, Dict, lookup, insert, lookup-insert, All,
  text_eq_iff, text_eq_refl,
}
use proto_trader.Workflows.Engine.{Step, Outcome, Pending, pending_of, has_key, execute_steps}
use proto_trader.Workflows.Engine.Coverage.{pending_of-Has}
use proto_trader.Workflows.Engine.Order.{ids}
use proto_trader.Workflows.Engine.Runs.{execute_steps-starts}
use proto_trader.Workflows.Cycles.{has_cycle_in}
use proto_trader.Workflows.Cycles.Total.{has_cycle_in_iff}
use proto_trader.Workflows.Validate.{
  RawStep, Recipe, Problem, check_steps, check_deps, has_cycle, check_cycle, early_problems,
  problems_with, validate_recipe, steps_of, when, is_blank, missing_name,
}
use proto_trader.Workflows.Validate.Sound.{append-eq_nil, when-nil, Fresh, check_steps-Reads}

grown :
    (k id : Text) (seen : List Text) → mem_text k seen ≡ true → mem_text k (seen ++ id ∷ []) ≡ true
grown k id seen h =
    (mem_text_iff k (seen ++ id ∷ [])).1
      (append-Has k seen (id ∷ []) (inl ((mem_text_iff k seen).0 h)))

-- Steps with other ids leave the entry of an id alone.
pending_of-keeps_entry :
    (k : Text) (seen : List Text) (steps : List Step) (graph : Pending)
    → mem_text k seen ≡ true
    → Fresh seen steps
    → lookup k (pending_of steps graph) ≡ lookup k graph
unfolding pending_of
pending_of-keeps_entry k seen [] graph h f = refl
pending_of-keeps_entry k seen (s ∷ steps) graph h (full, new, f) =
    pending_of-keeps_entry k (seen ++ s.id ∷ []) steps (insert s.id s.depends_on graph)
      (grown k s.id seen h) f
    ∙ ground (
      arith,
      lookup-insert s.id k s.depends_on graph,
      text_eq_iff s.id k,
      ap (λ (i : Text). mem_text i seen) {x = s.id} {y = k},
      h,
      new,
    )

lookup-pending_of :
    (seen : List Text) (steps : List Step) (graph : Pending)
    → Fresh seen steps
    → All (λ s. lookup s.id (pending_of steps graph) ≡ some s.depends_on) steps
unfolding pending_of
lookup-pending_of seen [] graph f = tt
lookup-pending_of seen (s ∷ steps) graph (full, new, f) = (
  pending_of-keeps_entry s.id (seen ++ s.id ∷ []) steps (insert s.id s.depends_on graph)
        ((mem_text_iff s.id (seen ++ s.id ∷ [])).1
          (append-Has s.id seen (s.id ∷ []) (inr (inl refl))))
        f
      ∙ ground (arith, lookup-insert s.id s.id s.depends_on graph, text_eq_refl s.id),
  lookup-pending_of (seen ++ s.id ∷ []) steps (insert s.id s.depends_on graph) f,
)

Acyclic-Ranked :
    (all_steps : List Step) (rank : Text → ℕ)
    → ((n d : Text) (deps : List Text)
        → lookup n (pending_of all_steps []) ≡ some deps
        → Has d deps
        → has_key (pending_of all_steps []) d ≡ true
        → rank d < rank n)
    → (steps : List Step)
    → All (λ s. lookup s.id (pending_of all_steps []) ≡ some s.depends_on) steps
    → All (λ s. All (λ d. Has d (map (λ t. t.id) all_steps)) s.depends_on) steps
    → All
        (λ s. All (λ d. (rank d < rank s.id) × Has d (map (λ t. t.id) all_steps)) s.depends_on)
        steps
Acyclic-Ranked all_steps rank below [] found known = tt
Acyclic-Ranked all_steps rank below (s ∷ steps) (e, found) (k, known) = (
  go s.depends_on (λ d h p. below s.id d s.depends_on e h (pending_of-Has d all_steps [] p)) k,
  Acyclic-Ranked all_steps rank below steps found known,
)
  where
    go :
        (ds : List Text)
        → ((d : Text) → Has d ds → Has d (map (λ t. t.id) all_steps) → rank d < rank s.id)
        → All (λ d. Has d (map (λ t. t.id) all_steps)) ds
        → All (λ d. (rank d < rank s.id) × Has d (map (λ t. t.id) all_steps)) ds
    go [] f h = tt
    go (d ∷ ds) f (h, hs) = ((f d (inl refl) h, h), go ds (λ j p. f j (inr p)) hs)

problems_with-early :
    (known : Option (List Text)) (r : Recipe) (raw : List (Option RawStep))
    → problems_with known r raw ≡ []
    → (early_problems known r ≡ []) × (check_cycle (early_problems known r) r.steps ≡ [])
unfolding problems_with
problems_with-early known r [] h = cc (append-eq_nil (when (is_blank r.name) missing_name) _ h).1
problems_with-early known r (s ∷ raw) h =
    let (early, later) = append-eq_nil (early_problems known r) _ h in
    (early, (append-eq_nil (check_cycle (early_problems known r) r.steps) _ later).0)

early_problems-checks :
    (known : Option (List Text)) (r : Recipe)
    → early_problems known r ≡ []
    → ((check_steps known 0 r.steps []).1 ≡ [])
      × (check_deps (check_steps known 0 r.steps []).0 r.steps ≡ [])
unfolding early_problems
early_problems-checks known r h =
    append-eq_nil (check_steps known 0 r.steps []).1
      (check_deps (check_steps known 0 r.steps []).0 r.steps)
      (append-eq_nil (when (is_blank r.name) missing_name) _ h).1

no_cycle :
    (errors : List Problem) (raw : List (Option RawStep))
    → errors ≡ []
    → check_cycle errors raw ≡ []
    → has_cycle raw ≡ false
unfolding check_cycle
no_cycle [] raw e h = when-nil _ _ h
no_cycle (p ∷ errors) raw e h = cc e

-- If validation finds no problem in a recipe, its steps have all the keys that the run looks up,
-- their ids are distinct and not empty, and every step is started, whatever the steps return or
-- raise: none is skipped.
pub validate_recipe-runs :
    (known : Option (List Text)) (r : Recipe) (run_step : Text → Text → Text → Outcome)
    (inputs : Dict Text)
    → validate_recipe known (some r) ≡ []
    → (steps : List Step) × (steps_of r.steps ≡ some steps)
      × Fresh [] steps
      × ((k : Text)
          → Has k (map (λ s. s.id) steps)
          → Has k (ids (execute_steps run_step inputs steps).ran))
validate_recipe-runs known r run_step inputs h =
    let (early, later) = problems_with-early known r r.steps (unfold validate_recipe in h) in
    let (steps_ok, deps_ok) = early_problems-checks known r early in
    let r' = check_steps-Reads known 0 r.steps [] steps_ok in
    let (rank, below) = (has_cycle_in_iff (pending_of r'.steps [])).0 (
      subst (λ (g : Pending). has_cycle_in g ≡ false) (r'.same_graph [])
        (unfold has_cycle in no_cycle (early_problems known r) r.steps early later)) in
    (
      r'.steps,
      r'.read,
      r'.fresh,
      λ k has.
          execute_steps-starts rank run_step inputs r'.steps k
            (Acyclic-Ranked r'.steps rank below r'.steps (lookup-pending_of [] r'.steps [] r'.fresh)
              (subst
                (λ (id_set : List Text). All (λ s. All (λ d. Has d id_set) s.depends_on) r'.steps)
                r'.same_ids (r'.deps _ deps_ok)))
            has,
    )
