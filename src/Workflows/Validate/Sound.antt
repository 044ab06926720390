-- ===== src/Workflows/Validate/Sound.antt =====
-- graph/workflows/engine.py: what a recipe without problems gives to the run.
use proto_trader.Prelude.{
  ℕ, suc, ◌≡◌, refl, inl, inr, ◌∙◌, sym, subst, ap, Text, is_empty, strip, mem_text, mem_text_iff,
  Has, Bool, true, false, not, Option, none, some, List, [], ◌∷◌, ◌++◌, map, arith, All, Bool-cases,
}
use mathlib.Core.List.{append_assoc, append-nil}
use proto_trader.Workflows.Engine.{Step, Pending, pending_of}
use proto_trader.Workflows.Validate.{
  RawStep, Problem, when, is_blank, check_id, check_subagent, check_steps, check_step_deps,
  check_deps, graph_of, as_step, steps_of,
}

pub append-eq_nil : (xs ys : List Problem) → xs ++ ys ≡ [] → (xs ≡ []) × (ys ≡ [])
append-eq_nil [] ys e = (refl, e)
append-eq_nil (x ∷ xs) ys e = cc e

pub when-nil : (test : Bool) (problem : Problem) → when test problem ≡ [] → test ≡ false
when-nil true problem e = cc e
when-nil false problem e = refl

filled : (o : Option Text) → is_blank o ≡ false → (v : Text) × (o ≡ some v)
unfolding is_blank
filled none h = cc h
filled (some v) h = (v, refl)

not_empty : (sid : Text) → is_blank (some sid) ≡ false → is_empty sid ≡ false
unfolding is_blank strip
not_empty [] h = cc h
not_empty (c ∷ sid) h = refl

check_id-good :
    (n : ℕ) (o : Option Text) (ids : List Text)
    → (check_id n o ids).1 ≡ []
    → (sid : Text) × (o ≡ some sid)
      × (is_empty sid ≡ false)
      × (mem_text sid ids ≡ false)
      × ((check_id n o ids).0 ≡ ids ++ sid ∷ [])
unfolding check_id
check_id-good n none ids h = cc h
check_id-good n (some sid) ids h = elim (Bool-cases (is_blank (some sid))) [
  | inl blank ↦ absurd (ground (arith, h, blank))
  | inr filled_id ↦ elim (Bool-cases (mem_text sid ids)) [
    | inl again ↦ absurd (ground (arith, h, filled_id, again))
    | inr new ↦ (sid, refl, not_empty sid filled_id, new, ground (arith, filled_id, new))
  ]
]

check_subagent-good :
    (known : Option (List Text)) (sid o : Option Text)
    → check_subagent known sid o ≡ []
    → (v : Text) × (o ≡ some v)
unfolding check_subagent
check_subagent-good known sid none h = cc h
check_subagent-good known sid (some v) h = (v, refl)

as_step_lem :
    (s : RawStep) {id subagent prompt : Text}
    → s.id ≡ some id
    → s.subagent ≡ some subagent
    → s.prompt ≡ some prompt
    → as_step s
      ≡ some (record { id = id; subagent = subagent; prompt = prompt; depends_on = s.depends_on })
unfolding as_step
as_step_lem s e f g = rw (e, f, g, as_step) refl

steps_of_cons :
    (s : RawStep) (raw : List (Option RawStep)) {step : Step} {steps : List Step}
    → as_step s ≡ some step
    → steps_of raw ≡ some steps
    → steps_of (some s ∷ raw) ≡ some (step ∷ steps)
unfolding steps_of
steps_of_cons s raw e f = rw (e, f, steps_of) refl

not-false : (b : Bool) → not b ≡ false → b ≡ true
not-false true h = refl
not-false false h = cc h

check_step_deps-good :
    (id_set : List Text) (sid : Option Text) (deps : List Text)
    → check_step_deps id_set sid deps ≡ []
    → All (λ d. Has d id_set) deps
unfolding check_step_deps
check_step_deps-good id_set sid [] h = tt
check_step_deps-good id_set sid (dep ∷ deps) h =
    let (first, rest) = append-eq_nil _ _ h in
    (
      (mem_text_iff dep id_set).0 (not-false (mem_text dep id_set) (when-nil _ _ first)),
      check_step_deps-good id_set sid deps rest,
    )

-- The ids are not empty, and new to the ones before.
abbrev pub Fresh : List Text → List Step → Type 0
Fresh ids [] = Unit
Fresh ids (s ∷ steps) =
    (is_empty s.id ≡ false) × (mem_text s.id ids ≡ false) × Fresh (ids ++ s.id ∷ []) steps

-- What the checks of the steps say of the steps that the run reads.
pub record Reads (known : Option (List Text)) (n : ℕ) (raw : List (Option RawStep))
    (ids : List Text) : Type 0 where
  pub steps : List Step
  pub read : steps_of raw ≡ some steps
  pub same_ids : (check_steps known n raw ids).0 ≡ ids ++ map (λ s. s.id) steps
  pub fresh : Fresh ids steps
  pub same_graph : (graph : Pending) → graph_of raw graph ≡ pending_of steps graph
  pub deps :
      (id_set : List Text)
      → check_deps id_set raw ≡ []
      → All (λ s. All (λ d. Has d id_set) s.depends_on) steps

module _ (known : Option (List Text)) where
  Reads-cons :
      (n : ℕ) (s : RawStep) (raw : List (Option RawStep)) (ids : List Text)
      (sid subagent prompt : Text)
      → s.id ≡ some sid
      → s.subagent ≡ some subagent
      → s.prompt ≡ some prompt
      → is_empty sid ≡ false
      → mem_text sid ids ≡ false
      → (check_id n s.id ids).0 ≡ ids ++ sid ∷ []
      → Reads known (suc n) raw (ids ++ sid ∷ [])
      → Reads known n (some s ∷ raw) ids
  Reads-cons n s raw ids sid subagent prompt e f g full new at r =
      let step : Step = record {
        id = sid;
        subagent = subagent;
        prompt = prompt;
        depends_on = s.depends_on;
      } in
      record {
        steps = step ∷ r.steps;
        read = steps_of_cons s raw (as_step_lem s e f g) r.read;
        same_ids =
            unfold check_steps in
            ap (λ (ids' : List Text). (check_steps known (suc n) raw ids').0) at
            ∙ r.same_ids
            ∙ append_assoc ids (sid ∷ []) (map (λ t. t.id) r.steps);
        fresh = (full, new, r.fresh);
        same_graph = λ graph. unfold graph_of pending_of in rw (e, full) (r.same_graph _);
        deps = λ id_set h.
            unfold check_deps in
            let (first, rest) = append-eq_nil _ _ h in
            (check_step_deps-good id_set s.id s.depends_on first, r.deps id_set rest);
      }

  pub check_steps-Reads :
      (n : ℕ) (raw : List (Option RawStep)) (ids : List Text)
      → (check_steps known n raw ids).1 ≡ []
      → Reads known n raw ids
  unfolding check_steps
  check_steps-Reads n [] ids h = record {
    steps = [];
    read = unfold steps_of in refl;
    same_ids = sym (append-nil ids);
    fresh = tt;
    same_graph = λ graph. unfold graph_of pending_of in refl;
    deps = λ id_set k. tt;
  }
  check_steps-Reads n (none ∷ raw) ids h = cc h
  check_steps-Reads n (some s ∷ raw) ids h =
      let (h1, rest1) = append-eq_nil _ _ h in
      let (h2, rest2) = append-eq_nil _ _ rest1 in
      let (h3, h4) = append-eq_nil _ _ rest2 in
      let (sid, e, full, new, at) = check_id-good n s.id ids h1 in
      let (subagent, f) = check_subagent-good known s.id s.subagent h2 in
      let (prompt, g) = filled s.prompt (when-nil _ _ h3) in
      Reads-cons n s raw ids sid subagent prompt e f g full new at (
        check_steps-Reads (suc n) raw (ids ++ sid ∷ [])
          (subst (λ (ids' : List Text). (check_steps known (suc n) raw ids').1 ≡ []) at h4))
