-- ===== src/Enforcement.antt =====
-- enforcement/rate_limiter.py: the sliding-window limiter of tool calls, keyed by action name.
-- Times and windows are whole numbers of one unit, in place of floating-point seconds.
pub mod Rate
mod Tests
use proto_trader.Prelude.{
  ℕ, ◌+◌, Text, Bool, true, false, Option, none, some, List, [], ◌∷◌, ◌++◌, ltb, leb, if◌then◌else◌,
  length, keep, Dict, lookup, insert, remove, is_empty,
}

-- `{"max": …, "window_seconds": …}`.
pub record Limit : Type 0 where
  pub max_calls : ℕ
  pub window : ℕ

pub record RateLimiter : Type 0 where
  pub limits : Dict Limit
  pub windows : Dict (List ℕ)

-- What the refusal text names.
pub record Refusal : Type 0 where
  pub action : Text
  pub limit : Limit

unfoldable pub init : Dict Limit → RateLimiter
init limits = record { limits = limits; windows = [] }

-- `self._windows[action]` of a `defaultdict(list)`.
unfoldable pub window_of : Dict (List ℕ) → Text → List ℕ
window_of ws action = elim (lookup action ws) [ none ↦ [] | some ts ↦ ts ]

-- `t > now - window`.
unfoldable pub inside : Limit → ℕ → ℕ → Bool
inside cfg now t = ltb now (t + cfg.window)

unfoldable pub check_limit : Limit → Text → ℕ → RateLimiter → RateLimiter × Bool × Option Refusal
check_limit cfg action now r =
    let recent = keep (inside cfg now) (window_of r.windows action) in
    if leb cfg.max_calls (length recent)
    then (
      record r { windows = insert action recent r.windows },
      false,
      some (record { action = action; limit = cfg }),
    )
    else (record r { windows = insert action (recent ++ now ∷ []) r.windows }, true, none)

-- `check`: the new limiter, and `(allowed, reason)`.
unfoldable pub check : Text → ℕ → RateLimiter → RateLimiter × Bool × Option Refusal
check action now r = elim (lookup action r.limits) [
  | none ↦ (r, true, none)
  | some cfg ↦ check_limit cfg action now r
]

-- `reset`: one action, or all when there is none. An empty name counts as none.
unfoldable pub reset : Option Text → RateLimiter → RateLimiter
reset none r = record r { windows = [] }
reset (some action) r =
    if is_empty action
    then record r { windows = [] }
    else record r { windows = remove action r.windows }

-- The decisions on a sequence of calls.
unfoldable pub check_all : RateLimiter → List (Text × ℕ) → List Bool
check_all r [] = []
check_all r ((action, now) ∷ calls) =
    let (r', allowed, reason) = check action now r in allowed ∷ check_all r' calls
