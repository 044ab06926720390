-- ===== src/Goals/Stall.antt =====
-- graph/goals/controller.py: a goal whose verifier always answers the same ends within the
-- no-progress limit.
use proto_trader.Prelude.{
  ℕ, zero, suc, ◌+◌, ◌≤◌, ◌<◌, ◌≡◌, ap, inl, inr, Text, text_eq, text_eq_refl, true, some, none,
  arith, Dict,
}
use proto_trader.Goals.{GoalState, VerifyResult}
use proto_trader.Goals.Controller.{Config, Continuation, active_goal, unchanged}
use proto_trader.Goals.Outcome.{IsFiled}
use proto_trader.Goals.Budget.{goal_loop, round_lem}

-- The verifier that always answers the same.
abbrev pub constantly : {B : Type 0} → VerifyResult → GoalState B → Text → Text → VerifyResult
constantly result g last_text tool_summary = result

module _ {B : Type 0} (config : Config) (result : VerifyResult) (run_turn : ℕ → Continuation → Text)
    (clock : ℕ → ℕ) (session_id : Text) where
  unchanged_same :
      (g : GoalState B)
      → g.last_reason ≡ result.reason
      → g.last_evidence ≡ result.evidence
      → unchanged result g ≡ true
  unfolding unchanged
  unchanged_same g r e = ground (
    arith,
    ap (text_eq result.reason) r,
    ap (text_eq result.evidence) e,
    text_eq_refl result.reason,
    text_eq_refl result.evidence,
  )

  loop_stalls :
      (left : ℕ) (text : Text) (files : Dict (GoalState B)) (g : GoalState B)
      → IsFiled files
      → active_goal session_id files ≡ some g
      → unchanged result g ≡ true
      → g.no_progress_streak < config.goal_no_progress_limit
      → config.goal_no_progress_limit ≤ g.no_progress_streak + left
      → active_goal session_id
          (goal_loop config (constantly result) run_turn clock session_id left text files)
        ≡ none
  loop_stalls zero text files g filed e same below enough = absurd (omega arith)
  loop_stalls (suc left) text files g filed e same below enough =
      elim (round_lem config (constantly result) run_turn clock session_id left text files g filed
        e) [
          | inl ended ↦ ended
          | inr (g', text', files', filed', e', goes, on) ↦ rw on (
              loop_stalls left text' files' g' filed' e'
                (unchanged_same g' goes.reason goes.evidence) goes.in_limit
                (ground (arith, goes.streak, same)))
        ]

  -- If every write of the store reaches the disk and the verifier gives one answer throughout, an
  -- active goal has ended after one round more than the no-progress limit, whatever its budget and
  -- whatever the turns answer.
  pub goal_loop-end_on_stall :
      (left : ℕ) (text : Text) (files : Dict (GoalState B)) (g : GoalState B)
      → IsFiled files
      → active_goal session_id files ≡ some g
      → config.goal_no_progress_limit < left
      → active_goal session_id
          (goal_loop config (constantly result) run_turn clock session_id left text files)
        ≡ none
  goal_loop-end_on_stall zero text files g filed e enough = absurd (omega arith)
  goal_loop-end_on_stall (suc left) text files g filed e enough =
      elim (round_lem config (constantly result) run_turn clock session_id left text files g filed
        e) [
          | inl ended ↦ ended
          | inr (g', text', files', filed', e', goes, on) ↦ rw on (
              loop_stalls left text' files' g' filed' e'
                (unchanged_same g' goes.reason goes.evidence) goes.in_limit (omega arith))
        ]
