-- ===== src/Goals/Budget.antt =====
-- server/chat.py, the goal loop of a turn: evaluate, and run the next turn while the decision is to go
-- on, at most `goal_max_iterations + 2` times. The theorems are about graph/goals/controller.py: the
-- goal ends within its iteration budget.
use proto_trader.Prelude.{
  ℕ, zero, suc, ◌+◌, ◌≤◌, ◌≡◌, inl, inr, ap, Text, is_empty, if◌then◌else◌, Option, none, some, [],
  arith, Dict, true, ◌⊎◌,
}
use proto_trader.Goals.{GoalState, VerifyResult}
use proto_trader.Goals.Controller.{
  Config, Continuation, Decision, proceed, finished, active_goal, evaluate,
}
use proto_trader.Goals.Outcome.{
  IsFiled, Goes, Leaves, active_goal→get, active_goal→named, judge-Leaves, evaluate_live,
  evaluate_idle,
}
use proto_trader.Goals.Filed.{evaluate-IsFiled}

-- The environment of the loop: what a turn answers to a continuation prompt, and the clock, by the
-- rounds that are left.
module _ {B : Type 0} (config : Config) (verify : GoalState B → Text → Text → VerifyResult)
    (run_turn : ℕ → Continuation → Text) (clock : ℕ → ℕ) (session_id : Text) where
  -- `cont_text`, or the text so far where the turn gives none.
  unfoldable pub next_text : ℕ → Continuation → Text → Text
  next_text left c text = if is_empty (run_turn left c) then text else run_turn left c

  -- What a round does with the decision: break, or run the next turn and go on by `again`.
  unfoldable pub after_decision :
      (Text → Dict (GoalState B) → Dict (GoalState B))
      → ℕ
      → Text
      → Dict (GoalState B) × Option (Decision B)
      → Dict (GoalState B)
  after_decision again left text (files, none) = files
  after_decision again left text (files, some (finished g)) = files
  after_decision again left text (files, some (proceed g c)) = again (next_text left c text) files

  -- The loop with `left` rounds of its guard left, every write of the store reaching the disk.
  unfoldable pub goal_loop : ℕ → Text → Dict (GoalState B) → Dict (GoalState B)
  goal_loop zero text files = files
  goal_loop (suc left) text files =
      after_decision (goal_loop left) left text
        (evaluate config verify true session_id text [] (clock left) files)

  -- The loop as a turn enters it.
  unfoldable pub goal_turns : Text → Dict (GoalState B) → Dict (GoalState B)
  unfolding goal_loop
  goal_turns text files = goal_loop (config.goal_max_iterations + 2) text files

  loop_idle :
      (left : ℕ) (text : Text) (files : Dict (GoalState B))
      → active_goal session_id files ≡ none
      → active_goal session_id (goal_loop left text files) ≡ none
  unfolding goal_loop after_decision
  loop_idle zero text files idle = idle
  loop_idle (suc left) text files idle =
      rw (evaluate_idle config verify true session_id text [] (clock left) files idle) idle

  -- A round that has ended the goal leaves it ended.
  after_end :
      (left : ℕ) (text : Text) (r : Dict (GoalState B) × Option (Decision B))
      → active_goal session_id r.0 ≡ none
      → active_goal session_id (after_decision (goal_loop left) left text r) ≡ none
  unfolding after_decision
  after_end left text (files, none) ended = ended
  after_end left text (files, some (finished g)) ended = ended
  after_end left text (files, some (proceed g c)) ended =
      loop_idle left (next_text left c text) files ended

  after_proceed :
      (left : ℕ) (text : Text) (r : Dict (GoalState B) × Option (Decision B)) (g : GoalState B)
      (c : Continuation)
      → r.1 ≡ some (proceed g c)
      → after_decision (goal_loop left) left text r ≡ goal_loop left (next_text left c text) r.0
  unfolding after_decision
  after_proceed left text (files, none) g c e = cc
  after_proceed left text (files, some (finished h)) g c e = cc
  after_proceed left text (files, some (proceed h d)) g c e =
      ap (λ (k : Continuation). goal_loop left (next_text left k text) files) (ground (arith, e))

  evaluate-Leaves :
      (left : ℕ) (text : Text) (files : Dict (GoalState B)) (g : GoalState B)
      → IsFiled files
      → active_goal session_id files ≡ some g
      → Leaves config session_id
          (verify g text [])
          g
          (evaluate config verify true session_id text [] (clock left) files)
  evaluate-Leaves left text files g filed e =
      rw (evaluate_live config verify true session_id text [] (clock left) files g e) (
        judge-Leaves config session_id text (verify g text []) (clock left) files g
          (active_goal→named session_id files g filed e) (active_goal→get session_id files e).1)

  -- One round on an active goal: it has ended when the loop is left, or the loop goes on with a goal
  -- that has one more iteration.
  pub round_lem :
      (left : ℕ) (text : Text) (files : Dict (GoalState B)) (g : GoalState B)
      → IsFiled files
      → active_goal session_id files ≡ some g
      → (active_goal session_id (goal_loop (suc left) text files) ≡ none)
        ⊎ ((g' : GoalState B) × (text' : Text) × (files' : Dict (GoalState B)) × IsFiled files'
            × (active_goal session_id files' ≡ some g')
            × Goes config (verify g text []) g g'
            × (goal_loop (suc left) text files ≡ goal_loop left text' files'))
  unfolding goal_loop
  round_lem left text files g filed e =
      let r = evaluate config verify true session_id text [] (clock left) files in
      elim (evaluate-Leaves left text files g filed e) [
        | inl ended ↦ inl (after_end left text r ended)
        | inr (g', e', goes, on) ↦ inr (
          g',
          next_text left _ text,
          r.0,
          evaluate-IsFiled config verify true session_id text [] (clock left) files filed,
          e',
          goes,
          after_proceed left text r g' _ on,
        )
      ]

  loop_ends :
      (left : ℕ) (text : Text) (files : Dict (GoalState B)) (g : GoalState B)
      → IsFiled files
      → active_goal session_id files ≡ some g
      → 1 ≤ left
      → g.max_iterations ≤ g.iteration + left
      → active_goal session_id (goal_loop left text files) ≡ none
  loop_ends zero text files g filed e some_round enough = absurd (omega arith)
  loop_ends (suc left) text files g filed e some_round enough =
      elim (round_lem left text files g filed e) [
        | inl ended ↦ ended
        | inr (g', text', files', filed', e', goes, on) ↦ rw on (
            loop_ends left text' files' g' filed' e'
              (omega (arith, goes.same_budget, goes.counted, goes.in_budget))
              (omega (arith, goes.same_budget, goes.counted)))
      ]

  -- If every write of the store reaches the disk, a goal whose budget is at most the configured one
  -- plus two has ended when the loop is left, whatever the verifier and the turns answer: the loop's
  -- own guard never cuts it short.
  pub goal_turns-end :
      (text : Text) (files : Dict (GoalState B)) (g : GoalState B)
      → IsFiled files
      → active_goal session_id files ≡ some g
      → g.max_iterations ≤ config.goal_max_iterations + 2
      → active_goal session_id (goal_turns text files) ≡ none
  unfolding goal_turns
  goal_turns-end text files g filed e fits =
      loop_ends (config.goal_max_iterations + 2) text files g filed e (omega arith) (omega arith)
