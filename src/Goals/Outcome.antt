-- ===== src/Goals/Outcome.antt =====
-- graph/goals/controller.py: what one evaluation leaves in the store.
use proto_trader.Prelude.{
  ℕ, suc, ◌<◌, ◌≡◌, ◌⊎◌, refl, inl, inr, sym, ◌∙◌, subst, codes, Text, text_eq_refl, text_eq_iff,
  is_empty, Bool, true, false, Option, none, some, [], arith, leb, if◌then◌else◌, Dict, lookup,
  lookup-insert, Bool-cases, Option-cases,
}
use proto_trader.Goals.{
  Status, achieved, exhausted, unachievable, GoalState, VerifyResult, is_active, safe_name, get,
  put,
}
use proto_trader.Goals.Markers.{search_giveup, giveup_reason}
use proto_trader.Goals.Controller.{
  Config, Decision, proceed, active_goal, finish_state, finish, continuation, unchanged, progress,
  decide, judge, evaluate,
}

-- Each file holds a goal of a session with that file name.
pub record IsFiled {B : Type 0} (files : Dict (GoalState B)) : Type 0 where
  pub at :
      (name : Text) (g : GoalState B) → lookup name files ≡ some g → safe_name g.session_id ≡ name

module _ {B : Type 0} where
  pub put-IsFiled :
      (saved : Bool) (g : GoalState B) (files : Dict (GoalState B))
      → IsFiled files
      → IsFiled (put saved g files)
  unfolding put
  put-IsFiled false g files f = f
  put-IsFiled true g files f = record {
    at = λ name h e. ground (
      arith,
      e,
      lookup-insert (safe_name g.session_id) name g files,
      text_eq_iff (safe_name g.session_id) name,
      f.at name h,
    );
  }

  get-put :
      (g : GoalState B) (session_id : Text) (files : Dict (GoalState B))
      → safe_name g.session_id ≡ safe_name session_id
      → get session_id (put true g files) ≡ some g
  unfolding get put
  get-put g session_id files e = rw (lookup-insert, e, text_eq_refl)

  pub active_goal→get :
      (session_id : Text) (files : Dict (GoalState B)) {g : GoalState B}
      → active_goal session_id files ≡ some g
      → (get session_id files ≡ some g) × (is_active g.status ≡ true)
  unfolding active_goal
  active_goal→get session_id files h = ground arith

  pub active_goal→named :
      (session_id : Text) (files : Dict (GoalState B)) (g : GoalState B)
      → IsFiled files
      → active_goal session_id files ≡ some g
      → safe_name g.session_id ≡ safe_name session_id
  unfolding get
  active_goal→named session_id files g f h =
      f.at (safe_name session_id) g (active_goal→get session_id files h).0

  active_goal-put :
      (g : GoalState B) (session_id : Text) (files : Dict (GoalState B))
      → safe_name g.session_id ≡ safe_name session_id
      → active_goal session_id (put true g files) ≡ (if is_active g.status then some g else none)
  unfolding active_goal
  active_goal-put g session_id files e = rw (get-put g session_id files e, active_goal)

-- What a turn leaves when it does not end the goal: one more iteration, below the budget, and the
-- streak, below the limit.
pub record Goes {B : Type 0} (config : Config) (result : VerifyResult) (g g' : GoalState B)
    : Type 0 where
  pub same_budget : g'.max_iterations ≡ g.max_iterations
  pub counted : g'.iteration ≡ suc g.iteration
  pub in_budget : g'.iteration < g'.max_iterations
  pub streak : g'.no_progress_streak ≡ (if unchanged result g then suc g.no_progress_streak else 0)
  pub in_limit : g'.no_progress_streak < config.goal_no_progress_limit
  pub reason : g'.last_reason ≡ result.reason
  pub evidence : g'.last_evidence ≡ result.evidence

module _ {B : Type 0} (config : Config) (session_id : Text) (files : Dict (GoalState B))
    (g : GoalState B) (named : safe_name g.session_id ≡ safe_name session_id) where
  finish_ends :
      (status : Status) (reason evidence : Text) (time : ℕ)
      → is_active status ≡ false
      → active_goal session_id (finish true status reason evidence time g files).0 ≡ none
  unfolding finish
  finish_ends status reason evidence time off =
      active_goal-put (finish_state status reason evidence time g) session_id files
        (unfold finish_state in named)
      ∙ rw off refl

module _ {B : Type 0} (config : Config) (saved : Bool) (last_text : Text) (result : VerifyResult)
    (time : ℕ) (files : Dict (GoalState B)) (g : GoalState B) where
  pub judge_open :
      result.met ≡ false
      → search_giveup last_text ≡ none
      → judge config saved last_text result time g files
        ≡ decide config saved result time (progress last_text result g) files
  unfolding judge
  judge_open unmet quiet = simp (unmet, quiet)

  pub judge_given_up :
      (given : Option Text)
      → result.met ≡ false
      → search_giveup last_text ≡ some given
      → judge config saved last_text result time g files
        ≡ finish saved unachievable (giveup_reason given) [] time g files
  unfolding judge
  judge_given_up given unmet e = simp (unmet, e)

  pub judge_met :
      result.met ≡ true
      → judge config saved last_text result time g files
        ≡ finish saved achieved
            (if is_empty result.reason then codes "verifier passed" else result.reason)
            result.evidence
            time
            g
            files
  unfolding judge
  judge_met met = simp met

-- The goal has ended, or the decision is to go on with it.
abbrev pub Leaves :
    {B : Type 0}
    → Config
    → Text
    → VerifyResult
    → GoalState B
    → Dict (GoalState B) × Option (Decision B)
    → Type 0
Leaves {B} config session_id result g (after, decision) =
    (active_goal session_id after ≡ none)
    ⊎ ((g' : GoalState B) × (active_goal session_id after ≡ some g')
        × Goes config result g g'
        × (decision ≡ some (proceed g' (continuation g' result))))

module _ {B : Type 0} (config : Config) (session_id last_text : Text) (result : VerifyResult)
    (time : ℕ) (files : Dict (GoalState B)) (g : GoalState B)
    (named : safe_name g.session_id ≡ safe_name session_id) (live : is_active g.status ≡ true) where
  progress_lem :
      (leb (progress last_text result g).max_iterations (progress last_text result g).iteration
        ≡ false)
      → (leb config.goal_no_progress_limit (progress last_text result g).no_progress_streak ≡ false)
      → Goes config result g (progress last_text result g)
  unfolding progress
  progress_lem in_budget in_limit = record {
    same_budget = refl;
    counted = refl;
    in_budget = ground (arith, in_budget);
    streak = refl;
    in_limit = ground (arith, in_limit);
    reason = refl;
    evidence = refl;
  }

  decide-Leaves :
      Leaves config session_id result g
        (decide config true result time (progress last_text result g) files)
  unfolding decide
  decide-Leaves = elim (Bool-cases (leb g'.max_iterations g'.iteration)) [
    | inl spent ↦
        rw (spent, decide)
          (inl (
            finish_ends config session_id files g' named' exhausted _ result.evidence time
              (unfold is_active in refl)))
    | inr in_budget ↦ elim (Bool-cases (leb config.goal_no_progress_limit g'.no_progress_streak)) [
      | inl stalled ↦
          rw (in_budget, stalled, decide)
            (inl (
              finish_ends config session_id files g' named' unachievable _ result.evidence time
                (unfold is_active in refl)))
      | inr in_limit ↦
          rw (in_budget, in_limit, decide)
            (inr (
              g',
              active_goal-put g' session_id files named' ∙ rw live',
              progress_lem in_budget in_limit,
              refl,
            ))
    ]
  ]
    where
      g' : GoalState B
      g' = progress last_text result g

      named' : safe_name g'.session_id ≡ safe_name session_id
      named' = unfold progress in named

      live' : is_active g'.status ≡ true
      live' = unfold progress in live

  pub judge-Leaves :
      Leaves config session_id result g (judge config true last_text result time g files)
  judge-Leaves = elim (Bool-cases result.met) [
    | inl met ↦
        subst (Leaves config session_id result g)
          (sym (judge_met config true last_text result time files g met))
          (inl (
            finish_ends config session_id files g named achieved _ result.evidence time
              (unfold is_active in refl)))
    | inr unmet ↦ elim (Option-cases (search_giveup last_text)) [
      | inl quiet ↦
          subst (Leaves config session_id result g)
            (sym (judge_open config true last_text result time files g unmet quiet)) decide-Leaves
      | inr (given, e) ↦
          subst (Leaves config session_id result g)
            (sym (judge_given_up config true last_text result time files g given unmet e))
            (inl (
              finish_ends config session_id files g named unachievable _ [] time
                (unfold is_active in refl)))
    ]
  ]

module _ {B : Type 0} (config : Config) (verify : GoalState B → Text → Text → VerifyResult) where
  pub evaluate_live :
      (saved : Bool) (session_id last_text tool_summary : Text) (time : ℕ)
      (files : Dict (GoalState B)) (g : GoalState B)
      → active_goal session_id files ≡ some g
      → evaluate config verify saved session_id last_text tool_summary time files
        ≡ judge config saved last_text (verify g last_text tool_summary) time g files
  unfolding evaluate
  evaluate_live saved session_id last_text tool_summary time files g e = rw (e, evaluate)

  pub evaluate_idle :
      (saved : Bool) (session_id last_text tool_summary : Text) (time : ℕ)
      (files : Dict (GoalState B))
      → active_goal session_id files ≡ none
      → evaluate config verify saved session_id last_text tool_summary time files ≡ (files, none)
  unfolding evaluate
  evaluate_idle saved session_id last_text tool_summary time files e = rw (e, evaluate)
