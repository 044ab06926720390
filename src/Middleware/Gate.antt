-- ===== src/Middleware/Gate.antt =====
-- graph/middleware/enforcement.py: `EnforcementMiddleware`, in front of the limiter of `Enforcement`. The
-- type of a call's arguments, the policy predicate and the handler that runs a tool are arguments; the
-- predicate is a function of the name and the arguments.
use proto_trader.Prelude.{
  ℕ, Text, mem_text, is_empty, Option, none, some, List, [], ◌∷◌, if◌then◌else◌, Dict,
}
use proto_trader.Enforcement.{Limit, RateLimiter, Refusal, init, check}

pub data Reason : Type 0 where
  disabled : (name : Text) → Reason
  refused : (reason : Text) → Reason
  limited : Option Refusal → Reason

pub record ToolCall (A : Type 0) : Type 0 where
  pub name : Text
  pub args : A
  pub id : Text

pub record Gate (A : Type 0) : Type 0 where
  pub denied : List Text
  pub predicate : Option (Text → A → Option Text)
  pub limiter : Option RateLimiter

pub data Reply (R : Type 0) : Type 0 where
  blocked : (reason : Reason) (tool_call_id : Text) → Reply R
  handled : R → Reply R

module _ {A : Type 0} where
  -- `__init__`: no limits, no limiter.
  unfoldable pub new_gate : List Text → Dict Limit → Option (Text → A → Option Text) → Gate A
  new_gate disallowed [] predicate = record {
    denied = disallowed;
    predicate = predicate;
    limiter = none;
  }
  new_gate disallowed (l ∷ limits) predicate = record {
    denied = disallowed;
    predicate = predicate;
    limiter = some (init (l ∷ limits));
  }

  -- `reason = self._predicate(name, args)`, and whether it counts as one.
  unfoldable pub ask : Option (Text → A → Option Text) → ToolCall A → Option Text
  ask none call = none
  ask (some predicate) call = elim (predicate call.name call.args) [
    | none ↦ none
    | some reason ↦ if is_empty reason then none else some reason
  ]

  unfoldable pub ask_limiter : ToolCall A → ℕ → Gate A → Gate A × Option Reason
  ask_limiter call now g = elim g.limiter [
    | none ↦ (g, none)
    | some l ↦
        let (l', allowed, reason) = check call.name now l in
        (record g { limiter = some l' }, (if allowed then none else some (limited reason)))
  ]

  -- `_enforce`, with the gate that it leaves.
  unfoldable pub enforce : ToolCall A → ℕ → Gate A → Gate A × Option Reason
  unfolding ask ask_limiter
  enforce call now g =
      if mem_text call.name g.denied
      then (g, some (disabled call.name))
      else elim (ask g.predicate call) [
        | some reason ↦ (g, some (refused reason))
        | none ↦ ask_limiter call now g
      ]

  -- `wrap_tool_call` and `awrap_tool_call`.
  unfoldable pub wrap_tool_call :
      {R : Type 0} → (ToolCall A → R) → ToolCall A → ℕ → Gate A → Gate A × Reply R
  unfolding enforce
  wrap_tool_call handler call now g =
      let r = enforce call now g in
      (r.0, elim r.1 [ none ↦ handled (handler call) | some reason ↦ blocked reason call.id ])
