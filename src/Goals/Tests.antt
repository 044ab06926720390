-- ===== src/Goals/Tests.antt =====
-- Runs of the goal controller on small inputs.
use proto_trader.Prelude.{
  ℕ, ◌≡◌, ◌↔◌, refl, Text, codes, strip, lstrip, lower, is_space, starts_with, text_eq, mem_text,
  Bool, true, false, none, some, [], ◌∷◌, arith, Dict, lookup, insert, remove, show, text_eq_iff,
}
use proto_trader.Tags.{cut}
use proto_trader.Goals.{
  GoalState, VerifyResult, active, achieved, is_active, is_safe, safe_name, get, put, clear,
}
use proto_trader.Goals.Markers.{search_giveup, search_plan}
use proto_trader.Goals.Controller.{
  Config, Continuation, Decision, state_of, active_goal, evaluate, parse_control, cleared,
  unparsable,
}
use proto_trader.Goals.Outcome.{IsFiled}
use proto_trader.Goals.Achieved.{evaluate-achieved}
use proto_trader.Goals.Budget.{goal_loop, goal_turns, goal_turns-end, after_decision, next_text}
use proto_trader.Goals.Stall.{constantly, goal_loop-end_on_stall}

abbrev config : Config
config = record { goal_max_iterations = 3; goal_no_progress_limit = 2 }

abbrev goal : GoalState ℕ
goal = record {
  session_id = codes "a:b";
  condition = codes "tests pass";
  verifier = record { type = codes "test"; body = 0 };
  status = active;
  checklist = [];
  iteration = 0;
  max_iterations = 5;
  no_progress_streak = 0;
  last_reason = [];
  last_evidence = [];
  started_at = 0;
  finished_at = none;
}

abbrev files : Dict (GoalState ℕ)
files = (codes "a_b", goal) ∷ []

abbrev verdict : Bool → VerifyResult
verdict met = record { met = met; reason = codes "exit 1"; evidence = [] }

abbrev quits : Text
quits = codes "no way <goal_unachievable reason=\"out of scope\"/>"

abbrev run_turn : ℕ → Continuation → Text
run_turn n c = codes "trying"

program : Unit {0}
unfolding active_goal get put clear is_active safe_name is_safe lookup insert remove text_eq
    evaluate search_giveup search_plan cut starts_with strip lstrip lower is_space mem_text
    parse_control show goal_turns after_decision next_text
program = tt

search_giveup_runs :
    (search_giveup quits ≡ some (some (codes "out of scope")))
    × (search_giveup (codes "<GOAL_unachievable />") ≡ some none)
    × (search_giveup (codes "<goal_unachievable why>") ≡ none)
    × (search_plan (codes "x <goal_plan> a </goal_plan> b") ≡ some (codes " a "))
unfolding program
search_giveup_runs = (refl, refl, refl, refl)

parse_control_runs :
    ((parse_control 0 (λ t. none) config true (codes "/goal ship it") (codes "s") 9 []).0
      ≡ (
        codes "s",
        record goal {
          session_id = codes "s";
          condition = codes "ship it";
          verifier = record { type = codes "llm"; body = 0 };
          max_iterations = 3;
          started_at = 9;
        },
      )
        ∷ [])
    × ((parse_control 0 (λ t. none) config true (codes "/goal Stop") (codes "a:b") 9 files)
        ≡ ([], some cleared))
    × ((parse_control 0 (λ t. none) config true (codes "/goal {") (codes "a:b") 9 files)
        ≡ (files, some unparsable))
    × ((parse_control 0 (λ t. none) config true (codes "/goals") (codes "a:b") 9 files)
        ≡ (files, none))
unfolding program
parse_control_runs = (refl, refl, refl, refl)

files-active : active_goal (codes "a:b") files ≡ some goal
unfolding program
files-active = refl

files-IsFiled : IsFiled files
unfolding program
files-IsFiled = record { at = λ name g e. ground (arith, text_eq_iff (codes "a_b") name, e) }

goal_turns_run :
    active_goal (codes "a:b") (
      goal_turns config
        (constantly (verdict false))
        run_turn
        (λ n. n)
        (codes "a:b")
        (codes "start")
        files)
    ≡ none
unfolding program
goal_turns_run = refl

evaluate-achieved_example :
    (d : Decision ℕ) × ((evaluate config
        (constantly (verdict true))
        true
        (codes "a:b")
        quits
        []
        7
        files).1
      ≡ some d)
    × (((state_of d).status ≡ achieved) ↔ (◌≡◌ {A = Bool} true true))
evaluate-achieved_example =
    evaluate-achieved config (constantly (verdict true)) true (codes "a:b") quits [] 7 files goal
      files-active

goal_turns-end_example :
    active_goal (codes "a:b") (
      goal_turns config
        (constantly (verdict false))
        run_turn
        (λ n. n)
        (codes "a:b")
        (codes "start")
        files)
    ≡ none
goal_turns-end_example =
    goal_turns-end config (constantly (verdict false)) run_turn (λ n. n) (codes "a:b")
      (codes "start") files goal files-IsFiled files-active (omega arith)

goal_loop-end_on_stall_example :
    active_goal (codes "a:b") (
      goal_loop config
        (constantly (verdict false))
        run_turn
        (λ n. n)
        (codes "a:b")
        3
        (codes "start")
        files)
    ≡ none
goal_loop-end_on_stall_example =
    goal_loop-end_on_stall config (verdict false) run_turn (λ n. n) (codes "a:b") 3 (codes "start")
      files goal files-IsFiled files-active (omega arith)
