-- ===== src/Goals/Markers.antt =====
-- graph/goals/controller.py: the two markers that the agent writes, `<goal_plan>` and
-- `<goal_unachievable>`, as the code's regular expressions read them on ASCII text.
use proto_trader.Prelude.{
  Text, codes, lstrip, is_space, starts_with, strip, Bool, false, ◌||◌, Option, none, some, [], ◌∷◌,
  if◌then◌else◌, drop, is_empty,
}
use proto_trader.Tags.{starts_ci, cut}

-- `\s*/?>`.
unfoldable pub closes : Text → Bool
unfolding lstrip is_space starts_with
closes s = starts_with (lstrip s) (codes ">") || starts_with (lstrip s) (codes "/>")

-- `([^"]*)"` and then the end of the tag.
unfoldable pub quoted : Text → Option Text
unfolding closes cut
quoted s = elim (cut (b'"' ∷ []) s) [
  | none ↦ none
  | some (reason, after) ↦ if closes after then some reason else none
]

unfoldable pub begins_space : Text → Bool
begins_space [] = false
begins_space (c ∷ s) = is_space c

-- `\s+reason="([^"]*)"` and then the end of the tag.
unfoldable pub reason_of : Text → Option Text
unfolding quoted begins_space
reason_of s =
    if begins_space s
    then if starts_ci (lstrip s) (codes "reason=\"") then quoted (drop 8 (lstrip s)) else none
    else none

-- `_GIVEUP_RE` behind `<goal_unachievable`: the reason, if one is given.
unfoldable pub giveup_at : Text → Option (Option Text)
unfolding reason_of
giveup_at s = elim (reason_of s) [
  | some reason ↦ some (some reason)
  | none ↦ if closes s then some none else none
]

-- `_GIVEUP_RE.search`.
unfoldable pub search_giveup : Text → Option (Option Text)
unfolding giveup_at
search_giveup [] = none
search_giveup (c ∷ s) =
    let later = search_giveup s in
    if starts_ci (c ∷ s) (codes "<goal_unachievable")
    then elim (giveup_at (drop 18 (c ∷ s))) [ none ↦ later | some found ↦ some found ]
    else later

abbrev pub default_reason : Text
default_reason = codes "agent flagged the goal unachievable"

-- `(giveup.group(1) or "…").strip()`.
unfoldable pub giveup_reason : Option Text → Text
giveup_reason none = strip default_reason
giveup_reason (some reason) = if is_empty reason then strip default_reason else strip reason

-- `_GOAL_PLAN_RE.search`: the text between the first pair of tags.
unfoldable pub search_plan : Text → Option Text
unfolding cut
search_plan s = elim (cut (codes "<goal_plan>") s) [
  | none ↦ none
  | some (before, after) ↦ elim (cut (codes "</goal_plan>") after) [
    | none ↦ none
    | some (plan, rest) ↦ some plan
  ]
]
