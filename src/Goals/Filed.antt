-- ===== src/Goals/Filed.antt =====
-- graph/goals/controller.py: an evaluation keeps every goal under its own session's file.
use proto_trader.Prelude.{ℕ, inl, inr, Text, Bool, leb, Dict, Bool-cases, Option-cases}
use proto_trader.Goals.{GoalState, VerifyResult}
use proto_trader.Goals.Markers.{search_giveup}
use proto_trader.Goals.Controller.{Config, active_goal, finish, progress, decide, judge, evaluate}
use proto_trader.Goals.Outcome.{
  IsFiled, put-IsFiled, judge_met, judge_open, judge_given_up, evaluate_live, evaluate_idle,
}

module _ {B : Type 0} (config : Config) (verify : GoalState B → Text → Text → VerifyResult) where
  decide-IsFiled :
      (saved : Bool) (result : VerifyResult) (time : ℕ) (g : GoalState B)
      (files : Dict (GoalState B))
      → IsFiled files
      → IsFiled (decide config saved result time g files).0
  unfolding decide finish
  decide-IsFiled saved result time g files f =
      elim (Bool-cases (leb g.max_iterations g.iteration)) [
        | inl spent ↦ rw (spent, decide) (put-IsFiled saved _ files f)
        | inr in_budget ↦
            elim (Bool-cases (leb config.goal_no_progress_limit g.no_progress_streak)) [
              | inl stalled ↦ rw (in_budget, stalled, decide) (put-IsFiled saved _ files f)
              | inr in_limit ↦ rw (in_budget, in_limit, decide) (put-IsFiled saved _ files f)
            ]
      ]

  judge-IsFiled :
      (saved : Bool) (last_text : Text) (result : VerifyResult) (time : ℕ) (g : GoalState B)
      (files : Dict (GoalState B))
      → IsFiled files
      → IsFiled (judge config saved last_text result time g files).0
  judge-IsFiled saved last_text result time g files f = elim (Bool-cases result.met) [
    | inl met ↦
        rw (judge_met config saved last_text result time files g met)
          (unfold finish in put-IsFiled saved _ files f)
    | inr unmet ↦ elim (Option-cases (search_giveup last_text)) [
      | inl quiet ↦
          rw (judge_open config saved last_text result time files g unmet quiet)
            (decide-IsFiled saved result time (progress last_text result g) files f)
      | inr (given, e) ↦
          rw (judge_given_up config saved last_text result time files g given unmet e)
            (unfold finish in put-IsFiled saved _ files f)
    ]
  ]

  -- Every evaluation keeps each goal under its own session's file.
  pub evaluate-IsFiled :
      (saved : Bool) (session_id last_text tool_summary : Text) (time : ℕ)
      (files : Dict (GoalState B))
      → IsFiled files
      → IsFiled (evaluate config verify saved session_id last_text tool_summary time files).0
  evaluate-IsFiled saved session_id last_text tool_summary time files f =
      elim (Option-cases (active_goal session_id files)) [
        | inl idle ↦
            rw (evaluate_idle config verify saved session_id last_text tool_summary time files idle)
              f
        | inr (g, e) ↦
            rw (evaluate_live config verify saved session_id last_text tool_summary time files g e)
              (judge-IsFiled saved last_text (verify g last_text tool_summary) time g files f)
      ]
