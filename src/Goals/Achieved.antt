-- ===== src/Goals/Achieved.antt =====
-- graph/goals/controller.py: when a goal is achieved.
use proto_trader.Prelude.{
  ℕ, ◌≡◌, refl, inl, inr, sym, subst, codes, Text, is_empty, Bool, true, false, Option, some, [],
  arith, leb, if◌then◌else◌, Dict, Bool-cases, Option-cases, ◌↔◌,
}
use proto_trader.Goals.{achieved, exhausted, unachievable, GoalState, VerifyResult, is_active}
use proto_trader.Goals.Markers.{search_giveup, giveup_reason}
use proto_trader.Goals.Controller.{
  Config, Decision, proceed, finished, state_of, active_goal, finish_state, finish, continuation,
  progress, budget_reason, stall_reason, decide, judge, evaluate,
}
use proto_trader.Goals.Outcome.{
  active_goal→get, judge_met, judge_open, judge_given_up, evaluate_live,
}

module _ {B : Type 0} (config : Config) (verify : GoalState B → Text → Text → VerifyResult) where
  -- A decision, with whether it is that the goal is achieved.
  abbrev Says : Bool → Dict (GoalState B) × Option (Decision B) → Type 0
  Says met r = (d : Decision B) × (r.1 ≡ some d) × (((state_of d).status ≡ achieved) ↔ (met ≡ true))

  decide-Says :
      (saved : Bool) (result : VerifyResult) (time : ℕ) (g : GoalState B)
      (files : Dict (GoalState B))
      → is_active g.status ≡ true
      → Says false (decide config saved result time g files)
  unfolding decide finish finish_state is_active
  decide-Says saved result time g files live =
      elim (Bool-cases (leb g.max_iterations g.iteration)) [
        | inl spent ↦
            rw (spent, decide)
              (
                finished (
                    finish_state exhausted (budget_reason g.max_iterations) result.evidence time g),
                refl,
                (λ e. cc e, λ e. cc e),
              )
        | inr in_budget ↦
            elim (Bool-cases (leb config.goal_no_progress_limit g.no_progress_streak)) [
              | inl stalled ↦
                  rw (in_budget, stalled, decide)
                    (
                      finished (
                          finish_state unachievable
                            (stall_reason g.no_progress_streak result.reason) result.evidence time
                            g),
                      refl,
                      (λ e. cc e, λ e. cc e),
                    )
              | inr in_limit ↦
                  rw (in_budget, in_limit, decide)
                    (
                      proceed g (continuation g result),
                      refl,
                      (λ e. ground (arith, live, e), λ e. cc e),
                    )
            ]
      ]

  judge-achieved :
      (saved : Bool) (last_text : Text) (result : VerifyResult) (time : ℕ) (g : GoalState B)
      (files : Dict (GoalState B))
      → is_active g.status ≡ true
      → Says result.met (judge config saved last_text result time g files)
  judge-achieved saved last_text result time g files live = elim (Bool-cases result.met) [
    | inl met ↦
        subst (Says result.met) (sym (judge_met config saved last_text result time files g met)) (
          unfold finish finish_state in
          (
            finished (
                finish_state achieved
                  (if is_empty result.reason then codes "verifier passed" else result.reason)
                  result.evidence time g),
            refl,
            (λ e. met, λ e. refl),
          ))
    | inr unmet ↦ elim (Option-cases (search_giveup last_text)) [
      | inl quiet ↦
          subst (Says result.met)
            (sym (judge_open config saved last_text result time files g unmet quiet))
            (subst
              (λ b. Says b (decide config saved result time (progress last_text result g) files))
              (sym unmet)
              (decide-Says saved result time (progress last_text result g) files
                (unfold progress in live)))
      | inr (given, e) ↦
          subst (Says result.met)
            (sym (judge_given_up config saved last_text result time files g given unmet e))
            (unfold finish finish_state in
              (
                finished (finish_state unachievable (giveup_reason given) [] time g),
                refl,
                (λ h. cc h, λ h. cc (h, unmet)),
              ))
    ]
  ]

  -- An evaluation of an active goal decides, and the decided state is `achieved` exactly when the
  -- verifier said that the goal is met, whatever the agent wrote about giving up and whatever the
  -- counters say.
  pub evaluate-achieved :
      (saved : Bool) (session_id last_text tool_summary : Text) (time : ℕ)
      (files : Dict (GoalState B)) (g : GoalState B)
      → active_goal session_id files ≡ some g
      → (d : Decision B) × ((evaluate config verify saved session_id last_text tool_summary time
            files).1
          ≡ some d)
        × (((state_of d).status ≡ achieved) ↔ ((verify g last_text tool_summary).met ≡ true))
  evaluate-achieved saved session_id last_text tool_summary time files g e =
      rw (evaluate_live config verify saved session_id last_text tool_summary time files g e) (
        judge-achieved saved last_text (verify g last_text tool_summary) time g files
          (active_goal→get session_id files e).1)
