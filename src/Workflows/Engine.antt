-- ===== src/Workflows/Engine.antt =====
-- graph/workflows/engine.py: `execute_workflow`. Running a subagent is the argument `run_step`, which
-- returns its output or raises with a message. The steps of one round run at the same time and see the
-- outputs of the rounds before; their number in flight does not change what they return.
pub mod Order
pub mod Entries
pub mod Writes
pub mod Seen
pub mod Skips
pub mod Coverage
pub mod Complete
pub mod Runs
mod Tests
use proto_trader.Prelude.{
  ℕ, zero, suc, Text, codes, text_eq, is_empty, Bool, true, false, not, ◌||◌, Option, none, some,
  List, [], ◌∷◌, ◌++◌, map, keep, all, length, if◌then◌else◌, Dict, lookup, insert,
}
use proto_trader.Workflows.Template.{render_template}

pub record Step : Type 0 where
  pub id : Text
  pub subagent : Text
  pub prompt : Text
  pub depends_on : List Text

pub data Outcome : Type 0 where
  output : Text → Outcome
  raised : Text → Outcome

-- A waiting step and the ids it depends on.
abbrev pub Pending : Type 0
Pending = Dict (List Text)

-- The variables of the loop, whether it was left by its `break`, and the log of the steps run, in the
-- order they were started.
pub record Execution : Type 0 where
  pub done : Dict Text
  pub failed : List Text
  pub pending : Pending
  pub broken : Bool
  pub ran : Pending

-- `{s["id"]: … for s in steps}`.
unfoldable pub pending_of : List Step → Pending → Pending
pending_of [] pending = pending
pending_of (s ∷ steps) pending = pending_of steps (insert s.id s.depends_on pending)

unfoldable pub by_id_of : List Step → Dict Step → Dict Step
by_id_of [] by_id = by_id
by_id_of (s ∷ steps) by_id = by_id_of steps (insert s.id s by_id)

-- `k in d`.
abbrev pub has_key {ℓ} : {V : Type ℓ} → Dict V → Text → Bool
has_key d k = elim (lookup k d) [ none ↦ false | some v ↦ true ]

-- `deps <= set(done)`.
abbrev pub is_ready : Dict Text → Text × List Text → Bool
is_ready done (id, deps) = all (has_key done) deps

abbrev pub skipped : Text → Text
skipped id = codes "Error: step '" ++ (id ++ codes "' skipped (unsatisfiable dependencies)")

abbrev pub raised_text : Text → Text → Text
raised_text id message = codes "Error: step '" ++ (id ++ (codes "' raised " ++ message))

abbrev pub is_nil : Pending → Bool
is_nil [] = true
is_nil (p ∷ ps) = false

-- The branch for no ready step: every waiting step is recorded as skipped, and stays in `pending`.
unfoldable pub skip_all : Pending → Execution → Execution
skip_all [] e = record e { broken = true }
skip_all ((id, deps) ∷ waiting) e =
    skip_all waiting
      (record e { done = insert id (skipped id) e.done; failed = e.failed ++ id ∷ [] })

-- `done[sid] = out`, and the id among the failed ones if the step raised.
unfoldable pub record_one : Text → Outcome → Execution → Execution
record_one id (output text) e = record e { done = insert id text e.done }
record_one id (raised message) e = record e {
  done = insert id (raised_text id message) e.done;
  failed = e.failed ++ id ∷ [];
}

module _ (run_step : Text → Text → Text → Outcome) (inputs : Dict Text) (by_id : Dict Step) where
  -- `run_one`. A waiting id always has a step.
  unfoldable pub run_one : Dict Text → Text → Outcome
  run_one done id = elim (lookup id by_id) [
    | none ↦ raised (codes "KeyError")
    | some s ↦ run_step s.subagent (render_template s.prompt inputs done) id
  ]

  -- The loop over the gathered results; `before` is `done` as the round began.
  unfoldable pub record_all : Dict Text → Pending → Execution → Execution
  record_all before [] e = e
  record_all before ((id, deps) ∷ ready) e =
      record_all before ready (record_one id (run_one before id) e)

  -- The body of the `while` loop, given the ready steps. Popping the ready ids leaves the steps that
  -- are not ready.
  unfoldable pub round_with : Pending → Execution → Execution
  round_with [] e = skip_all e.pending e
  round_with (r ∷ rs) e = record (record_all e.done (r ∷ rs) e) {
    pending = keep (λ p. not (is_ready e.done p)) e.pending;
    ran = e.ran ++ (r ∷ rs);
  }

  unfoldable pub round : Execution → Execution
  unfolding round_with record_all
  round e = round_with (keep (is_ready e.done) e.pending) e

  -- `while pending`, until the `break`, with a round for each step that waits at the start.
  unfoldable pub rounds : ℕ → Execution → Execution
  unfolding round
  rounds zero e = e
  rounds (suc fuel) e = elim (is_nil e.pending || e.broken) [
    | true ↦ e
    | false ↦ rounds fuel (round e)
  ]

abbrev pub start : List Step → Execution
start steps = record {
  done = [];
  failed = [];
  pending = pending_of steps [];
  broken = false;
  ran = [];
}

unfoldable pub execute_steps : (Text → Text → Text → Outcome) → Dict Text → List Step → Execution
unfolding rounds pending_of by_id_of
execute_steps run_step inputs steps =
    rounds run_step inputs (by_id_of steps []) (length (pending_of steps [])) (start steps)

-- The id of the last step, for the default template.
abbrev pub last_id : List Step → Text
last_id [] = []
last_id (s ∷ []) = s.id
last_id (s ∷ t ∷ steps) = last_id (t ∷ steps)

-- The `"output"` of `execute_workflow`; `template` is the recipe's own, or empty.
unfoldable pub workflow_output : Text → Dict Text → List Step → Execution → Text
unfolding render_template
workflow_output template inputs steps e =
    render_template
      (if is_empty template
        then codes "{{steps." ++ (last_id steps ++ codes ".output}}")
        else template)
      inputs e.done
