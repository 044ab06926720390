-- ===== src/Inbox/Storm.antt =====
-- inbox/store.py: `StormGuard`, a deque of the fires in the rolling window. Times are whole numbers
-- of one unit, in place of floating-point seconds.
pub mod Rate
mod Tests
use proto_trader.Prelude.{
  ℕ, ◌+◌, Bool, true, false, List, [], ◌∷◌, ◌++◌, ltb, leb, if◌then◌else◌, length,
}

pub record StormGuard : Type 0 where
  pub max_fires : ℕ
  pub window : ℕ
  pub fires : List ℕ

unfoldable pub init : ℕ → ℕ → StormGuard
init max_fires window = record { max_fires = max_fires; window = window; fires = [] }

-- `while self._fires and self._fires[0] < now - window: popleft()`.
unfoldable pub expire : ℕ → ℕ → List ℕ → List ℕ
expire window now [] = []
expire window now (t ∷ fires) =
    let rest = expire window now fires in if ltb (t + window) now then rest else t ∷ fires

unfoldable pub allow : ℕ → StormGuard → StormGuard × Bool
allow now g =
    let fires = expire g.window now g.fires in
    if leb g.max_fires (length fires)
    then (record g { fires = fires }, false)
    else (record g { fires = fires ++ now ∷ [] }, true)

-- The decisions on calls at the given times.
unfoldable pub allow_all : StormGuard → List ℕ → List Bool
allow_all g [] = []
allow_all g (now ∷ times) = let (g', ok) = allow now g in ok ∷ allow_all g' times
