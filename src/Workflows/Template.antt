-- ===== src/Workflows/Template.antt =====
-- graph/workflows/engine.py: `render_template`, with the regular expression `_REF_RE` as a scanner. An
-- input value is the text that `str` makes of it.
use proto_trader.Prelude.{
  ℕ, zero, suc, ◌-◌, Text, codes, starts_with, ends_with, lstrip, Bool, ◌&&◌, ◌||◌, not, Option,
  none, some, [], ◌∷◌, ◌++◌, take, drop, length, leb, ◌==◌, if◌then◌else◌, Dict, lookup, is_empty,
}

-- `[a-zA-Z0-9_.]`.
abbrev pub is_name : ℕ → Bool
is_name c =
    (leb b'a' c && leb c b'z')
    || ((leb b'A' c && leb c b'Z') || ((leb b'0' c && leb c b'9') || ((c == b'_') || (c == b'.'))))

-- The longest run of name characters, and what follows it.
unfoldable pub span_name : Text → Text × Text
span_name [] = ([], [])
span_name (c ∷ s) =
    let (name, rest) = span_name s in if is_name c then (c ∷ name, rest) else ([], c ∷ s)

abbrev closed_ref : Text × Text → Option (Text × Text)
closed_ref (name, rest) =
    if not (is_empty name) && starts_with (lstrip rest) (codes "}}")
    then some (name, drop 2 (lstrip rest))
    else none

-- `_REF_RE.match` here: the reference, and the text behind it.
unfoldable pub match_ref : Text → Option (Text × Text)
unfolding span_name starts_with lstrip
match_ref s =
    if starts_with s (codes "{{") then closed_ref (span_name (lstrip (drop 2 s))) else none

-- `d.get(k, "")`.
abbrev pub get_or_empty : Text → Dict Text → Text
get_or_empty k d = elim (lookup k d) [ none ↦ [] | some v ↦ v ]

-- `sub`: what stands for a reference, `whole` being the match.
unfoldable pub resolve : Dict Text → Dict Text → Text → Text → Text
unfolding ends_with starts_with lookup
resolve inputs outputs whole ref =
    if starts_with ref (codes "inputs.")
    then get_or_empty (drop 7 ref) inputs
    else if starts_with ref (codes "steps.") && ends_with ref (codes ".output")
    then get_or_empty (take (length ref - 7 - 6) (drop 6 ref)) outputs
    else whole

-- `_REF_RE.sub`, from left to right; each step takes at least one character.
unfoldable pub render_fuel : ℕ → Dict Text → Dict Text → Text → Text
unfolding match_ref resolve
render_fuel zero inputs outputs s = s
render_fuel (suc fuel) inputs outputs [] = []
render_fuel (suc fuel) inputs outputs (c ∷ s) = elim (match_ref (c ∷ s)) [
  | none ↦ c ∷ render_fuel fuel inputs outputs s
  | some (ref, rest) ↦
      resolve inputs outputs (take (length (c ∷ s) - length rest) (c ∷ s)) ref
      ++ render_fuel fuel inputs outputs rest
]

unfoldable pub render_template : Text → Dict Text → Dict Text → Text
unfolding render_fuel
render_template text inputs outputs = render_fuel (length text) inputs outputs text
