-- ===== src/Goals.antt =====
-- graph/goals: types.py and store.py. A goal's verifier spec is its type and its other keys, of a type
-- `B` that the controller never looks into. The store is the folder of JSON files as a dictionary by
-- file name; reading back gives the record that was written. Whether a write reached the disk is an
-- argument, `saved`: a failed one is logged and leaves the old file. Times are whole numbers.
pub mod Controller
pub mod Markers
pub mod Outcome
pub mod Filed
pub mod Achieved
pub mod Budget
pub mod Stall
mod Tests
use proto_trader.Prelude.{
  ℕ, Text, codes, Bool, true, false, ◌&&◌, ◌||◌, Option, none, some, List, [], ◌∷◌, map, leb, ◌==◌,
  if◌then◌else◌, is_empty, Dict, lookup, insert, remove,
}

pub data Status : Type 0 where
  active achieved exhausted unachievable : Status

pub record Spec (B : Type 0) : Type 0 where
  pub type : Text
  pub body : B

pub record GoalState (B : Type 0) : Type 0 where
  pub session_id : Text
  pub condition : Text
  pub verifier : Spec B
  pub status : Status
  pub checklist : Text
  pub iteration : ℕ
  pub max_iterations : ℕ
  pub no_progress_streak : ℕ
  pub last_reason : Text
  pub last_evidence : Text
  pub started_at : ℕ
  pub finished_at : Option ℕ

pub record VerifyResult : Type 0 where
  pub met : Bool
  pub reason : Text
  pub evidence : Text

-- `GoalState.active`.
unfoldable pub is_active : Status → Bool
is_active active = true
is_active achieved = false
is_active exhausted = false
is_active unachievable = false

-- `c.isalnum() or c in "-_."`, on ASCII.
unfoldable pub is_safe : ℕ → Bool
is_safe c =
    (leb b'0' c && leb c b'9')
    || ((leb b'A' c && leb c b'Z')
        || ((leb b'a' c && leb c b'z') || ((c == b'-') || ((c == b'_') || (c == b'.')))))

-- `_safe_name`.
unfoldable pub safe_name : Text → Text
unfolding is_safe
safe_name session_id =
    let name = map (λ c. if is_safe c then c else b'_') session_id in
    if is_empty name then codes "default" else name

module _ {B : Type 0} where
  -- `GoalStore.get`.
  unfoldable pub get : Text → Dict (GoalState B) → Option (GoalState B)
  get session_id files = lookup (safe_name session_id) files

  -- `GoalStore.set`.
  unfoldable pub put : Bool → GoalState B → Dict (GoalState B) → Dict (GoalState B)
  put saved state files = if saved then insert (safe_name state.session_id) state files else files

  -- `GoalStore.clear`: the new store, and whether there was a file.
  unfoldable pub clear : Text → Dict (GoalState B) → Dict (GoalState B) × Bool
  clear session_id files = (
    remove (safe_name session_id) files,
    elim (lookup (safe_name session_id) files) [ none ↦ false | some g ↦ true ],
  )
