-- ===== src/Discord/Turns.antt =====
-- surfaces/discord/turn_log.py: `TurnLog` over the rows of its table, in the order of their ids. Times are
-- milliseconds; a query that the database refuses is not modelled.
pub mod Recent
use proto_trader.Prelude.{
  ℕ, ◌+◌, ◌*◌, Text, text_eq, strip, is_empty, Bool, not, ◌&&◌, ◌||◌, Option, List, [], ◌∷◌, ◌++◌,
  keep, length, take, reverse, ltb, leb, ◌==◌, if◌then◌else◌, sort_by,
}

pub data Role : Type 0 where
  from_user : Role
  from_assistant : Role

pub record Turn : Type 0 where
  pub ts : ℕ
  pub channel_id : Text
  pub user_id : Text
  pub role : Role
  pub content : Text
  pub conversation_id : Option Text

-- `not content or not content.strip()`.
abbrev pub is_silent : Turn → Bool
is_silent turn = is_empty turn.content || is_empty (strip turn.content)

-- `_record`, which `record_user_turn` and `record_assistant_turn` call with their role.
unfoldable pub record_turn : Turn → List Turn → List Turn
record_turn turn rows = if is_silent turn then rows else rows ++ turn ∷ []

-- The `WHERE` of the query.
abbrev pub is_recent : Text → Text → ℕ → ℕ → Turn → Bool
is_recent channel user max_age_hours now turn =
    text_eq turn.channel_id channel
    && (text_eq turn.user_id user && leb now (turn.ts + max_age_hours * 3600000))

-- `ORDER BY ts DESC`; the rows are put in the order of `id DESC` first.
abbrev pub newer : Turn → Turn → Bool
newer s t = leb t.ts s.ts

unfoldable pub get_recent_turns : Text → Text → ℕ → ℕ → ℕ → List Turn → List Turn
get_recent_turns channel user limit max_age_hours now rows =
    if limit == 0
    then []
    else reverse (
        take limit (sort_by newer (reverse (keep (is_recent channel user max_age_hours now) rows))))

abbrev pub is_older : ℕ → ℕ → Turn → Bool
is_older max_age_days now turn = ltb (turn.ts + max_age_days * 86400000) now

-- `prune_older_than`, with the number of rows removed.
unfoldable pub prune_older_than : ℕ → ℕ → List Turn → List Turn × ℕ
prune_older_than max_age_days now rows = (
  keep (λ t. not (is_older max_age_days now t)) rows,
  length (keep (is_older max_age_days now) rows),
)
