-- ===== src/Goals/Controller.antt =====
-- graph/goals/controller.py. What runs a goal's verifier (a command, CI, a file, a model) is the
-- argument `verify`, and the JSON decoder is `parse_json`, which gives the three keys that are read.
-- `evaluate` is one step: what other requests do to the goal while the verifier runs is not modelled.
use proto_trader.Prelude.{
  ℕ, suc, Text, codes, strip, lower, starts_with, text_eq, mem_text, is_empty, Bool, ◌&&◌, ◌||◌,
  Option, none, some, List, [], ◌∷◌, ◌++◌, drop, leb, ◌==◌, if◌then◌else◌, lstrip, Dict, show,
}
use proto_trader.Goals.{
  Status, active, achieved, exhausted, unachievable, Spec, GoalState, VerifyResult, is_active, get,
  put, clear,
}
use proto_trader.Goals.Markers.{search_giveup, giveup_reason, search_plan}

pub record Config : Type 0 where
  pub goal_max_iterations : ℕ
  pub goal_no_progress_limit : ℕ

-- The continuation prompt's parts: the counters, the verifier's type and reason, the evidence, the
-- plan (or none yet) and the condition.
pub record Continuation : Type 0 where
  pub iteration : ℕ
  pub max_iterations : ℕ
  pub type : Text
  pub reason : Text
  pub evidence : Text
  pub plan : Option Text
  pub condition : Text

-- `Decision`: `proceed` is the action "continue", with its prompt; `finished` is "done".
pub data Decision (B : Type 0) : Type 0 where
  proceed : GoalState B → Continuation → Decision B
  finished : GoalState B → Decision B

abbrev pub budget_reason : ℕ → Text
budget_reason n = codes "ran out of iteration budget (" ++ (show n ++ codes ")")

abbrev pub stall_reason : ℕ → Text → Text
stall_reason n reason = codes "no progress after " ++ (show n ++ (codes " attempts: " ++ reason))

module _ {B : Type 0} where
  abbrev pub state_of : Decision B → GoalState B
  state_of (proceed g c) = g
  state_of (finished g) = g

  unfoldable pub active_goal : Text → Dict (GoalState B) → Option (GoalState B)
  active_goal session_id files = elim (get session_id files) [
    | none ↦ none
    | some g ↦ if is_active g.status then some g else none
  ]

  -- `_finish`, up to its write.
  unfoldable pub finish_state : Status → Text → Text → ℕ → GoalState B → GoalState B
  finish_state status reason evidence time g = record g {
    status = status;
    last_reason = reason;
    last_evidence = if is_empty evidence then g.last_evidence else evidence;
    finished_at = some time;
  }

  unfoldable pub finish :
      Bool
      → Status
      → Text
      → Text
      → ℕ
      → GoalState B
      → Dict (GoalState B)
      → Dict (GoalState B) × Option (Decision B)
  unfolding finish_state
  finish saved status reason evidence time g files =
      let g' = finish_state status reason evidence time g in
      (put saved g' files, some (finished g'))

  unfoldable pub continuation : GoalState B → VerifyResult → Continuation
  continuation g result = record {
    iteration = g.iteration;
    max_iterations = g.max_iterations;
    type = g.verifier.type;
    reason = result.reason;
    evidence = strip result.evidence;
    plan = if is_empty (strip g.checklist) then none else some (strip g.checklist);
    condition = g.condition;
  }

  -- `signature_unchanged`.
  unfoldable pub unchanged : VerifyResult → GoalState B → Bool
  unchanged result g =
      text_eq result.reason g.last_reason && text_eq result.evidence g.last_evidence

  -- The bookkeeping of a turn that did not meet the goal.
  unfoldable pub progress : Text → VerifyResult → GoalState B → GoalState B
  unfolding unchanged
  progress last_text result g = record g {
    checklist = elim (search_plan last_text) [ none ↦ g.checklist | some plan ↦ strip plan ];
    no_progress_streak = if unchanged result g then suc g.no_progress_streak else 0;
    last_reason = result.reason;
    last_evidence = result.evidence;
    iteration = suc g.iteration;
  }

  -- The end of `evaluate`: stop on the budget or on the streak, or go on.
  unfoldable pub decide :
      Config
      → Bool
      → VerifyResult
      → ℕ
      → GoalState B
      → Dict (GoalState B)
      → Dict (GoalState B) × Option (Decision B)
  unfolding finish
  decide config saved result time g files =
      if leb g.max_iterations g.iteration
      then finish saved exhausted (budget_reason g.max_iterations) result.evidence time g files
      else if leb config.goal_no_progress_limit g.no_progress_streak
      then finish saved unachievable (stall_reason g.no_progress_streak result.reason)
          result.evidence time g files
      else (put saved g files, some (proceed g (continuation g result)))

  -- `evaluate` behind its verifier, for an active goal.
  unfoldable pub judge :
      Config
      → Bool
      → Text
      → VerifyResult
      → ℕ
      → GoalState B
      → Dict (GoalState B)
      → Dict (GoalState B) × Option (Decision B)
  unfolding decide progress
  judge config saved last_text result time g files =
      if result.met
      then finish saved achieved
          (if is_empty result.reason then codes "verifier passed" else result.reason)
          result.evidence time g files
      else elim (search_giveup last_text) [
        | some given ↦ finish saved unachievable (giveup_reason given) [] time g files
        | none ↦ decide config saved result time (progress last_text result g) files
      ]

  unfoldable pub evaluate :
      Config
      → (GoalState B → Text → Text → VerifyResult)
      → Bool
      → Text
      → Text
      → Text
      → ℕ
      → Dict (GoalState B)
      → Dict (GoalState B) × Option (Decision B)
  unfolding judge active_goal
  evaluate config verify saved session_id last_text tool_summary time files =
      elim (active_goal session_id files) [
        | none ↦ (files, none)
        | some g ↦ judge config saved last_text (verify g last_text tool_summary) time g files
      ]

-- What `_parse_set` reads of a JSON object: the condition, the verifier, and the budget.
pub record GoalJson (B : Type 0) : Type 0 where
  pub condition : Text
  pub verifier : Option (Option Text × B)
  pub max_iterations : Option ℕ

-- What `parse_control` replies: each constructor is one of its texts.
pub data Reply (B : Type 0) : Type 0 where
  no_goal cleared nothing_to_clear unparsable : Reply B
  status_line goal_set : GoalState B → Reply B

abbrev pub clear_aliases : List Text
clear_aliases =
    codes "clear" ∷ codes "stop" ∷ codes "off" ∷ codes "reset" ∷ codes "none" ∷ codes "cancel" ∷ []

-- `max_iters or …goal_max_iterations`.
unfoldable pub budget_of : Config → Option ℕ → ℕ
budget_of config none = config.goal_max_iterations
budget_of config (some n) = if n == 0 then config.goal_max_iterations else n

abbrev pub is_command : Text → Bool
is_command stripped =
    text_eq stripped (codes "/goal")
    || (starts_with (lower stripped) (codes "/goal ")
        || starts_with (lower stripped) (codes "/goal" ++ 10 ∷ []))

module _ {B : Type 0} where
  abbrev pub new_goal : Config → Text → ℕ → Spec B × Text × Option ℕ → GoalState B
  new_goal config session_id time (spec, condition, max_iters) = record {
    session_id = session_id;
    condition = condition;
    verifier = spec;
    status = active;
    checklist = [];
    iteration = 0;
    max_iterations = budget_of config max_iters;
    no_progress_streak = 0;
    last_reason = [];
    last_evidence = [];
    started_at = time;
    finished_at = none;
  }

module _ {B : Type 0} (no_body : B) (parse_json : Text → Option (GoalJson B)) where
  abbrev pub llm_spec : Spec B
  llm_spec = record { type = codes "llm"; body = no_body }

  unfoldable pub spec_of : Option (Option Text × B) → Spec B
  spec_of none = llm_spec
  spec_of (some (none, body)) = record { type = codes "llm"; body = body }
  spec_of (some (some type, body)) = record { type = type; body = body }

  -- `_parse_set`: `none` where the condition is `None`.
  unfoldable pub parse_set : Text → Option (Spec B × Text × Option ℕ)
  unfolding spec_of
  parse_set rest =
      if starts_with (lstrip rest) (codes "{")
      then elim (parse_json rest) [
        | none ↦ none
        | some j ↦
            if is_empty j.condition
            then none
            else some (spec_of j.verifier, j.condition, j.max_iterations)
      ]
      else some (llm_spec, rest, none)

  -- The command behind `/goal`.
  unfoldable pub command :
      Config → Bool → Text → ℕ → Text → Dict (GoalState B) → Dict (GoalState B) × Reply B
  unfolding parse_set budget_of
  command config saved session_id time rest files =
      if is_empty rest
      then (files, elim (get session_id files) [ none ↦ no_goal | some g ↦ status_line g ])
      else if mem_text (lower rest) clear_aliases
      then (
        (clear session_id files).0,
        if (clear session_id files).1 then cleared else nothing_to_clear,
      )
      else elim (parse_set rest) [
        | none ↦ (files, unparsable)
        | some parsed ↦
            let g = new_goal config session_id time parsed in (put saved g files, goal_set g)
      ]

  abbrev answered : Dict (GoalState B) × Reply B → Dict (GoalState B) × Option (Reply B)
  answered (files, reply) = (files, some reply)

  -- `parse_control`; no reply means that the message is no command.
  unfoldable pub parse_control :
      Config → Bool → Text → Text → ℕ → Dict (GoalState B) → Dict (GoalState B) × Option (Reply B)
  unfolding command
  parse_control config saved message session_id time files =
      if is_command (strip message)
      then answered (command config saved session_id time (strip (drop 5 (strip message))) files)
      else (files, none)
